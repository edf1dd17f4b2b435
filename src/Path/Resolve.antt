-- ===== src/Path/Resolve.antt =====
-- What a path denotes in a tree of directories without links, and that `normalize` keeps it.
use libbutl.Prelude.{
  Bool, true, false, not, ◌&&◌, ◌⊎◌, inl, inr, Option, none, some, List, [], ◌∷◌, ◌++◌, ◌≡◌, refl,
  sym, ap, ◌∙◌, Bytes, is_empty, All, append-nil, arith, Bool-cases, reverse, if◌then◌else◌,
}
use mathlib.Core.Path.{subst}
use libbutl.Path.Traits.{absolute, current, parent}
use libbutl.Path.Data.{BasicPath}
use libbutl.Path.Normalize.{components, collapse}
use libbutl.Path.Collapse.{
  same, keeps, refuse, drop, step, stack_ok, Full, reverse-cons-append, parent-current,
}
use libbutl.Path.Split.{components-absolute, components-relative}

-- A location is the names from it up to the root. An empty name goes to the root, `..` up, and
-- nothing is above the root.
abbrev pub Location : Type 0
Location = List Bytes

abbrev pub upwards : Location → Option Location
upwards [] = none
upwards (d ∷ l) = some l

abbrev pub enter : Location → Bytes → Option Location
enter l c =
    if current c
    then some l
    else if parent c
    then upwards l
    else if is_empty c
    then some []
    else some (c ∷ l)

abbrev pub and_then : Option Location → (Location → Option Location) → Option Location
and_then none f = none
and_then (some l) f = f l

unfoldable pub walk : Location → List Bytes → Option Location
walk l [] = some l
walk l (c ∷ cs) = and_then (enter l c) (λ m. walk m cs)

-- The location of a path, seen from another one. The empty path stays there.
unfoldable pub resolve : Location → Bytes → Option Location
resolve l [] = some l
resolve l (c ∷ s) = walk l (components (c ∷ s))

pub resolve_full :
    (l : Location) (s : Bytes) → is_empty s ≡ false → resolve l s ≡ walk l (components s)
unfolding resolve
resolve_full l [] h = cc
resolve_full l (c ∷ s) h = refl

abbrev pub resolve_result : Location → Bytes ⊎ BasicPath → Option Location
resolve_result l (inl e) = none
resolve_result l (inr p) = resolve l p.path

-- A walk through components that are read backwards.
unfoldable pub walk_back : Location → List Bytes → Option Location
walk_back l [] = some l
walk_back l (c ∷ r) = and_then (walk_back l r) (λ m. enter m c)

pub and_then_assoc :
    (o : Option Location) (f g : Location → Option Location)
    → and_then (and_then o f) g ≡ and_then o (λ l. and_then (f l) g)
and_then_assoc none f g = refl
and_then_assoc (some l) f g = refl

and_then-some : (o : Option Location) → and_then o (λ m. some m) ≡ o
and_then-some none = refl
and_then-some (some l) = refl

walk-reverse_append :
    (l : Location) (r cs : List Bytes)
    → walk l (reverse r ++ cs) ≡ and_then (walk_back l r) (λ m. walk m cs)
unfolding walk walk_back
walk-reverse_append l [] cs = refl
walk-reverse_append l (c ∷ r) cs =
    ap (walk l) (reverse-cons-append c r cs)
    ∙ walk-reverse_append l r (c ∷ cs)
    ∙ sym (and_then_assoc (walk_back l r) (λ m. enter m c) (λ m. walk m cs))

pub walk-reverse : (l : Location) (r : List Bytes) → walk l (reverse r) ≡ walk_back l r
unfolding walk
walk-reverse l r =
    ap (walk l) (sym (append-nil (reverse r)))
    ∙ walk-reverse_append l r []
    ∙ and_then-some (walk_back l r)

abbrev pub walk_option : Location → Option (List Bytes) → Option Location
walk_option l none = none
walk_option l (some q) = walk_back l q

-- Going up from the root of an absolute path.
walk-above :
    (l : Location) (d c : Bytes) (cs : List Bytes)
    → is_empty d ≡ true
    → parent c ≡ true
    → and_then (walk_back l (d ∷ [])) (λ m. walk m (c ∷ cs)) ≡ none
unfolding walk walk_back
walk-above l [] c cs h k = rw (parent-current c k, k) refl
walk-above l (x ∷ d) c cs h k = cc

-- Going down to a name and up again.
walk-up :
    (o : Option Location) (d c : Bytes) (cs : List Bytes)
    → (not (is_empty d) && not (current d) && not (parent d)) ≡ true
    → parent c ≡ true
    → and_then (and_then o (λ m. enter m d)) (λ m. walk m (c ∷ cs)) ≡ and_then o (λ m. walk m cs)
unfolding walk
walk-up none d c cs h k = refl
walk-up (some m) d c cs h k =
    let e : is_empty d ≡ false = ground (arith, h) in
    let f : current d ≡ false = ground (arith, h) in
    let g : parent d ≡ false = ground (arith, h) in rw (e, f, g, parent-current c k, k) refl

collapse-walk :
    (l : Location) (abs : Bool) (r cs : List Bytes)
    → stack_ok abs r ≡ true
    → All Full cs
    → walk_option l (collapse abs r cs) ≡ and_then (walk_back l r) (λ m. walk m cs)
unfolding collapse walk walk_back
collapse-walk l abs r [] h a = sym (and_then-some (walk_back l r))
collapse-walk l abs r (c ∷ cs) h a = elim (step abs r c cs) [
  | same k e ↦ ap (walk_option l) e ∙ collapse-walk l abs r cs h (a.1) ∙ rw k refl
  | keeps k f e ↦
      ap (walk_option l) e
      ∙ collapse-walk l abs (c ∷ r) cs (ground (arith, h, k, a.0)) (a.1)
      ∙ and_then_assoc (walk_back l r) (λ m. enter m c) (λ m. walk m cs)
  | refuse d k f g s e ↦
      let h2 : stack_ok abs (d ∷ []) ≡ true = subst (λ x. stack_ok abs x ≡ true) s h in
      ap (walk_option l) e
      ∙ sym (walk-above l d c cs (ground (arith, h2, g)) k)
      ∙ ap (λ x. and_then (walk_back l x) (λ m. walk m (c ∷ cs))) (sym s)
  | drop d t k f g s e ↦
      let h2 : stack_ok abs (d ∷ t) ≡ true = subst (λ x. stack_ok abs x ≡ true) s h in
      ap (walk_option l) e
      ∙ collapse-walk l abs t cs (ground (arith, h2, g)) (a.1)
      ∙ sym (walk-up (walk_back l t) d c cs (ground (arith, h2, g, f)) k)
      ∙ ap (λ x. and_then (walk_back l x) (λ m. walk m (c ∷ cs))) (sym s)
]

-- The collapse of the components of a path, from the empty stack.
pub components-walk :
    (l : Location) (s : Bytes)
    → is_empty s ≡ false
    → walk_option l (collapse (absolute s) [] (components s)) ≡ walk l (components s)
unfolding collapse walk walk_back
components-walk l s h = elim (Bool-cases (absolute s)) [
  | inl e ↦
      let (cs, p, f, n) = components-absolute s e in
      rw (e, p) (collapse-walk l true ([] ∷ []) cs refl f)
  | inr e ↦
      let (f, n) = components-relative s e h in
      rw e (collapse-walk l false [] (components s) refl f)
]
