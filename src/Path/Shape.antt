-- ===== src/Path/Shape.antt =====
-- The components that are left after the collapse, and the text that they are joined to.
use libbutl.Prelude.{
  Bool, true, false, inl, inr, Option, none, some, List, [], ◌∷◌, ◌++◌, ◌≡◌, refl, ap, ◌∙◌, Bytes,
  is_empty, All, All-append, arith, Bool-cases, reverse,
}
use mathlib.Core.List.{reverse-cons}
use libbutl.Path.Traits.{is_separator, ends_with_separator, root}
use libbutl.Path.Data.{
  BasicPath, path_of, body, absent, slash, in_path, TrailingSeparator, pop_separator,
}
use libbutl.Path.Normalize.{components, components_loop, join}
use libbutl.Path.Collapse.{stack_ok, Full, last_of}
use libbutl.Path.Split.{IsName, components-join, Full-snoc}

-- What the constructors and operations give: a separator that is in the path is the whole path, and
-- a path without one at its end has none.
abbrev pub IsPath : BasicPath → Type 0
IsPath p = elim p.tsep [
  | absent ↦ ends_with_separator p.path ≡ false
  | slash ↦ is_empty p.path ≡ false
  | in_path ↦ root p.path ≡ true
]

-- What a constructor gives that is not exact: there is no other separator at the end, too.
abbrev pub IsTrimmed : BasicPath → Type 0
IsTrimmed p = elim p.tsep [
  | absent ↦ ends_with_separator p.path ≡ false
  | slash ↦ (is_empty p.path ≡ false) × (ends_with_separator p.path ≡ false)
  | in_path ↦ root p.path ≡ true
]

IsTrimmed-IsPath_of :
    (s : Bytes) (t : TrailingSeparator) → IsTrimmed (path_of s t) → IsPath (path_of s t)
IsTrimmed-IsPath_of s absent h = h
IsTrimmed-IsPath_of s slash h = h.0
IsTrimmed-IsPath_of s in_path h = h

pub IsTrimmed-IsPath : (p : BasicPath) → IsTrimmed p → IsPath p
IsTrimmed-IsPath p = IsTrimmed-IsPath_of p.path p.tsep

pub stack-reverse :
    (abs : Bool) (d : Bytes) (t : List Bytes)
    → stack_ok abs (d ∷ t) ≡ true
    → All IsName (d ∷ t)
    → (c : Bytes) × (cs : List Bytes) × (reverse (d ∷ t) ≡ c ∷ cs)
      × IsName c
      × All Full cs
      × All IsName cs
stack-reverse abs d [] h n = (d, [], refl, n.0, tt, tt)
stack-reverse abs d (e ∷ t) h n =
    let (c, cs, p, x, y, z) = stack-reverse abs e t (ground (arith, h)) (n.1) in
    (
      c,
      cs ++ d ∷ [],
      reverse-cons d (e ∷ t) ∙ ap (λ r. r ++ d ∷ []) p,
      x,
      All-append Full cs (d ∷ []) y (ground (arith, h), tt),
      All-append IsName cs (d ∷ []) z (n.0, tt),
    )

pub components-join_stack :
    (abs : Bool) (d : Bytes) (t : List Bytes)
    → stack_ok abs (d ∷ t) ≡ true
    → All IsName (d ∷ t)
    → components (join (reverse (d ∷ t))) ≡ reverse (d ∷ t)
components-join_stack abs d t h n =
    let (c, cs, p, x, y, z) = stack-reverse abs d t h n in rw p (components-join c cs x y z)

join_snoc-Full : (xs : List Bytes) (h : Bytes) → Full h → is_empty (join (xs ++ h ∷ [])) ≡ false
unfolding join
join_snoc-Full [] h f = f
join_snoc-Full ([] ∷ []) h f = refl
join_snoc-Full ((c ∷ x) ∷ []) h f = refl
join_snoc-Full ([] ∷ y ∷ xs) h f = refl
join_snoc-Full ((c ∷ x) ∷ y ∷ xs) h f = refl

pub join-Full : (h : Bytes) (t : List Bytes) → Full h → is_empty (join (reverse (h ∷ t))) ≡ false
join-Full h t f = ap (λ x. is_empty (join x)) (reverse-cons h t) ∙ join_snoc-Full (reverse t) h f

-- The stack is empty, or it is that of the root, or its text is not empty.
pub data Shape (abs : Bool) (r : List Bytes) : Type 0 where
  nothing : r ≡ [] → abs ≡ false → Shape abs r
  just_root : r ≡ [] ∷ [] → abs ≡ true → Shape abs r
  names : (h : Bytes) (t : List Bytes) → r ≡ h ∷ t → Full h → Shape abs r

pub shape : (abs : Bool) (r : List Bytes) → stack_ok abs r ≡ true → Shape abs r
shape abs [] h = nothing refl (ground (arith, h))
shape abs ((c ∷ x) ∷ t) h = names (c ∷ x) t refl refl
shape true ([] ∷ []) h = just_root refl refl
shape true ([] ∷ x ∷ t) h = cc
shape false ([] ∷ t) h = cc

-- The last component of a path that does not end with a separator.
unfoldable pub last_component : List Bytes → Bytes
last_component [] = []
last_component (c ∷ cs) = last_of c cs

last_of-last_component :
    (p : Bytes) (cs : List Bytes) → Full (last_component cs) → Full (last_of p cs)
unfolding last_component
last_of-last_component p [] h = cc
last_of-last_component p (c ∷ cs) h = h

pub components_loop-last :
    (o : Option Bytes) (s : Bytes)
    → is_empty s ≡ false
    → ends_with_separator s ≡ false
    → Full (last_component (components_loop o s))
unfolding last_component components_loop
components_loop-last o [] h e = cc
components_loop-last none (c ∷ []) h e = rw e refl
components_loop-last (some p) (c ∷ []) h e = rw e (Full-snoc p c)
components_loop-last none (c ∷ d ∷ s) h e = elim (Bool-cases (is_separator c)) [
  | inl f ↦ rw f (components_loop-last none (d ∷ s) refl e)
  | inr f ↦ rw f (components_loop-last (some (c ∷ [])) (d ∷ s) refl e)
]
components_loop-last (some p) (c ∷ d ∷ s) h e = elim (Bool-cases (is_separator c)) [
  | inl f ↦ rw f (
      last_of-last_component p (components_loop none (d ∷ s))
        (components_loop-last none (d ∷ s) refl e))
  | inr f ↦ rw f (components_loop-last (some (p ++ c ∷ [])) (d ∷ s) refl e)
]

components-body_of :
    (s : Bytes) (t : TrailingSeparator)
    → IsPath (path_of s t)
    → components (body (path_of s t)) ≡ components s
unfolding components components_loop pop_separator
components-body_of s absent h = refl
components-body_of s slash h = refl
components-body_of [] in_path h = refl
components-body_of (c ∷ []) in_path h =
    let e : is_separator c ≡ true = ground (arith, h) in rw e refl
components-body_of (c ∷ d ∷ s) in_path h = ground (arith, h)

pub components-body : (p : BasicPath) → IsPath p → components (body p) ≡ components p.path
components-body p h = components-body_of p.path p.tsep h
