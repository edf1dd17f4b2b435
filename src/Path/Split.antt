-- ===== src/Path/Split.antt =====
-- Splitting a path into its components and joining them.
use libbutl.Prelude.{
  ℕ, true, false, inl, inr, Option, none, some, List, [], ◌∷◌, ◌++◌, ◌≡◌, refl, sym, ap, ◌∙◌, Bytes,
  is_empty, All, append_assoc, append-nil, arith, Bool-cases, has_byte,
}
use libbutl.Path.Traits.{is_separator, absolute}
use libbutl.Path.Normalize.{components, components_loop, join}
use libbutl.Path.Collapse.{Full}

-- A name has no separator.
abbrev pub IsName : Bytes → Type 0
IsName c = has_byte b'/' c ≡ false

has_byte-snoc : (p : Bytes) (c : ℕ) → IsName p → is_separator c ≡ false → IsName (p ++ c ∷ [])
has_byte-snoc [] c h e = ground (arith, e)
has_byte-snoc (d ∷ p) c h e = ground (arith, h, has_byte-snoc p c (ground (arith, h)) e)

pub Full-snoc : (p : Bytes) (c : ℕ) → Full (p ++ c ∷ [])
Full-snoc [] c = refl
Full-snoc (d ∷ p) c = refl

-- What is read after a separator, and inside a component.
abbrev IsState : Option Bytes → Type 0
IsState none = Unit
IsState (some p) = Full p × IsName p

components_loop-names :
    (o : Option Bytes) (s : Bytes)
    → IsState o
    → All Full (components_loop o s) × All IsName (components_loop o s)
unfolding components_loop
components_loop-names none [] h = (tt, tt)
components_loop-names (some p) [] h = ((h.0, tt), (h.1, tt))
components_loop-names none (c ∷ s) h = elim (Bool-cases (is_separator c)) [
  | inl e ↦ rw e (components_loop-names none s tt)
  | inr e ↦ rw e (components_loop-names (some (c ∷ [])) s (refl, ground (arith, e)))
]
components_loop-names (some p) (c ∷ s) h = elim (Bool-cases (is_separator c)) [
  | inl e ↦ let r = components_loop-names none s tt in rw e ((h.0, r.0), (h.1, r.1))
  | inr e ↦
      rw e (components_loop-names (some (p ++ c ∷ [])) s (Full-snoc p c, has_byte-snoc p c (h.1) e))
]

-- The components of an absolute path are an empty one and names, those of another path are names.
pub components-absolute :
    (s : Bytes)
    → absolute s ≡ true
    → (cs : List Bytes) × (components s ≡ [] ∷ cs) × All Full cs × All IsName cs
unfolding components components_loop
components-absolute [] h = cc
components-absolute (c ∷ s) h =
    let r = components_loop-names none s tt in (components_loop none s, rw h refl, r.0, r.1)

pub components-relative :
    (s : Bytes)
    → absolute s ≡ false
    → is_empty s ≡ false
    → All Full (components s) × All IsName (components s)
unfolding components components_loop
components-relative [] h e = cc
components-relative (c ∷ s) h e =
    rw h (components_loop-names (some (c ∷ [])) s (refl, ground (arith, h)))

components_loop-append :
    (p x t : Bytes)
    → IsName x
    → components_loop (some p) (x ++ t) ≡ components_loop (some (p ++ x)) t
unfolding components_loop
components_loop-append p [] t h = ap (λ z. components_loop (some z) t) (sym (append-nil p))
components_loop-append p (c ∷ x) t h =
    let e : is_separator c ≡ false = ground (arith, h) in
    rw e (
      components_loop-append (p ++ c ∷ []) x t (ground (arith, h))
      ∙ ap (λ z. components_loop (some z) t) (append_assoc p (c ∷ []) x))

components_loop-skip :
    (c : Bytes) (t : Bytes)
    → Full c
    → IsName c
    → components_loop none (c ++ t) ≡ components_loop (some []) (c ++ t)
unfolding components_loop
components_loop-skip [] t f h = cc
components_loop-skip (d ∷ c) t f h = let e : is_separator d ≡ false = ground (arith, h) in rw e refl

join-cons : (c : Bytes) (cs : List Bytes) → (t : Bytes) × (join (c ∷ cs) ≡ c ++ t)
unfolding join
join-cons c [] = ([], sym (append-nil c))
join-cons c (d ∷ cs) = (b'/' ∷ join (d ∷ cs), refl)

-- The components of names that are joined; only the first may be empty.
pub components-join :
    (c : Bytes) (cs : List Bytes)
    → IsName c
    → All Full cs
    → All IsName cs
    → components (join (c ∷ cs)) ≡ c ∷ cs
unfolding components join components_loop
components-join c [] h f n =
    ap (components_loop (some [])) (sym (append-nil c)) ∙ components_loop-append [] c [] h
components-join c (d ∷ cs) h f n =
    let (t, e) = join-cons d cs in
    components_loop-append [] c (b'/' ∷ join (d ∷ cs)) h
    ∙ ap (λ x. c ∷ components_loop none x) e
    ∙ ap (λ x. c ∷ x) (components_loop-skip d t (f.0) (n.0))
    ∙ ap (λ x. c ∷ components_loop (some []) x) (sym e)
    ∙ ap (λ x. c ∷ x) (components-join d cs (n.0) (f.1) (n.1))
