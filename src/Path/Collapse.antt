-- ===== src/Path/Collapse.antt =====
-- The collapse of `.` and `..` in Path/Normalize.antt.
use libbutl.Prelude.{
  Bool, true, false, not, ◌&&◌, ◌||◌, inl, inr, none, some, List, [], ◌∷◌, ◌++◌, ◌≡◌, refl, sym, ap,
  ◌∙◌, Bytes, is_empty, All, append_assoc, arith, Bool-cases, reverse,
}
use mathlib.Core.Path.{subst}
use mathlib.Core.List.{reverse-cons}
use libbutl.Path.Traits.{current, parent}
use libbutl.Path.Normalize.{collapse, ends_special}

abbrev pub all_full : List Bytes → Bool
all_full [] = true
all_full (c ∷ cs) = not (is_empty c) && all_full cs

-- The components that have been read, backwards. Those of an absolute path start with an empty one.
abbrev pub stack_ok : Bool → List Bytes → Bool
stack_ok abs [] = not abs
stack_ok abs (d ∷ t) =
    (abs && is_empty t && is_empty d) || (not (is_empty d) && not (current d) && stack_ok abs t)

abbrev pub parent_first : List Bytes → Bool
parent_first [] = true
parent_first (d ∷ t) = parent d

-- Nothing is left to collapse.
abbrev pub reduced : List Bytes → Bool
reduced [] = true
reduced (d ∷ t) = not (current d) && (not (parent d) || parent_first t) && reduced t

-- The four ways in which a component is dealt with.
pub data Step (abs : Bool) (r : List Bytes) (c : Bytes) (cs : List Bytes) : Type 0 where
  same : current c ≡ true → collapse abs r (c ∷ cs) ≡ collapse abs r cs → Step abs r c cs
  keeps :
      current c ≡ false
      → (not (parent c) || parent_first r) ≡ true
      → collapse abs r (c ∷ cs) ≡ collapse abs (c ∷ r) cs
      → Step abs r c cs
  refuse :
      (d : Bytes)
      → parent c ≡ true
      → parent d ≡ false
      → abs ≡ true
      → r ≡ d ∷ []
      → collapse abs r (c ∷ cs) ≡ none
      → Step abs r c cs
  drop :
      (d : Bytes) (t : List Bytes)
      → parent c ≡ true
      → parent d ≡ false
      → (abs && is_empty t) ≡ false
      → r ≡ d ∷ t
      → collapse abs r (c ∷ cs) ≡ collapse abs t cs
      → Step abs r c cs

pub parent-current : (c : Bytes) → parent c ≡ true → current c ≡ false
parent-current [] h = refl
parent-current (c ∷ []) h = ground (arith, h)
parent-current (c ∷ d ∷ s) h = ground (arith)

pub is_empty_nil {ℓ} : {A : Type ℓ} → (t : List A) → is_empty t ≡ true → t ≡ []
is_empty_nil [] h = refl
is_empty_nil (x ∷ t) h = cc

step_parent :
    (abs : Bool) (r : List Bytes) (c : Bytes) (cs : List Bytes)
    → current c ≡ false
    → parent c ≡ true
    → Step abs r c cs
unfolding collapse
step_parent abs [] c cs h k = keeps h (rw k refl) (rw (h, k) refl)
step_parent abs (d ∷ t) c cs h k = elim (Bool-cases (parent d)) [
  | inl p ↦ keeps h (rw (k, p) refl) (rw (h, k, p) refl)
  | inr p ↦ elim (Bool-cases (abs && is_empty t)) [
    | inr e ↦ drop d t k p e refl (rw (h, k, p, e) refl)
    | inl e ↦
        refuse d k p (ground (arith, e)) (ap (λ x. d ∷ x) (is_empty_nil t (ground (arith, e))))
          (rw (h, k, p, e) refl)
  ]
]

pub step : (abs : Bool) (r : List Bytes) (c : Bytes) (cs : List Bytes) → Step abs r c cs
unfolding collapse
step abs r c cs = elim (Bool-cases (current c)) [
  | inl h ↦ same h (rw h refl)
  | inr h ↦ elim (Bool-cases (parent c)) [
    | inr k ↦ keeps h (rw k refl) (rw (h, k) refl)
    | inl k ↦ step_parent abs r c cs h k
  ]
]

-- A property of the stack that each component keeps, and each removal of one.
module _ (abs : Bool) (P : List Bytes → Type 0) (Q : Bytes → Type 0)
    (push : (c : Bytes) (r : List Bytes)
      → Q c
      → current c ≡ false
      → (not (parent c) || parent_first r) ≡ true
      → P r
      → P (c ∷ r))
    (pop : (d : Bytes) (t : List Bytes) → (abs && is_empty t) ≡ false → P (d ∷ t) → P t) where
  pub collapse-invariant : (r cs q : List Bytes) → P r → All Q cs → collapse abs r cs ≡ some q → P q
  unfolding collapse
  collapse-invariant r [] q p a h = (let e : r ≡ q = cc in subst P e p)
  collapse-invariant r (c ∷ cs) q p a h = elim (step abs r c cs) [
    | same k e ↦ collapse-invariant r cs q p (a.1) (sym e ∙ h)
    | keeps k f e ↦ collapse-invariant (c ∷ r) cs q (push c r (a.0) k f p) (a.1) (sym e ∙ h)
    | refuse d k f g s e ↦ (let no : none ≡ some q = sym e ∙ h in cc)
    | drop d t k f g s e ↦ collapse-invariant t cs q (pop d t g (subst P s p)) (a.1) (sym e ∙ h)
  ]

abbrev pub Full : Bytes → Type 0
Full c = is_empty c ≡ false

pub collapse-stack_ok :
    (abs : Bool) (r cs q : List Bytes)
    → stack_ok abs r ≡ true
    → All Full cs
    → collapse abs r cs ≡ some q
    → stack_ok abs q ≡ true
collapse-stack_ok abs =
    collapse-invariant abs (λ r. stack_ok abs r ≡ true) Full
      (λ c r f k e p. ground (arith, f, k, p)) (λ d t e p. ground (arith, e, p))

pub collapse-reduced :
    (abs : Bool) (r cs q : List Bytes)
    → reduced r ≡ true
    → All Full cs
    → collapse abs r cs ≡ some q
    → reduced q ≡ true
collapse-reduced abs =
    collapse-invariant abs (λ r. reduced r ≡ true) Full (λ c r f k e p. ground (arith, k, e, p))
      (λ d t e p. ground (arith, p))

pub collapse-All :
    (Q : Bytes → Type 0) (abs : Bool) (r cs q : List Bytes)
    → All Q r
    → All Q cs
    → collapse abs r cs ≡ some q
    → All Q q
collapse-All Q abs = collapse-invariant abs (All Q) Q (λ c r f k e p. (f, p)) (λ d t e p. p.1)

abbrev pub last_of : Bytes → List Bytes → Bytes
last_of c [] = c
last_of c (d ∷ cs) = last_of d cs

-- A last component that is not special stays the last one.
pub collapse-last_of :
    (abs : Bool) (r : List Bytes) (c : Bytes) (cs q : List Bytes)
    → ends_special (c ∷ cs) ≡ false
    → collapse abs r (c ∷ cs) ≡ some q
    → (t : List Bytes) × (q ≡ last_of c cs ∷ t)
unfolding collapse
collapse-last_of abs r c [] q h e =
    let k : current c ≡ false = ground (arith, h) in
    let p : parent c ≡ false = ground (arith, h) in
    let g : collapse abs r (c ∷ []) ≡ some (c ∷ r) = rw (k, p) refl in
    let f : some (c ∷ r) ≡ some q = sym g ∙ e in (r, cc)
collapse-last_of abs r c (d ∷ cs) q h e = elim (step abs r c (d ∷ cs)) [
  | same k g ↦ collapse-last_of abs r d cs q h (sym g ∙ e)
  | keeps k f g ↦ collapse-last_of abs (c ∷ r) d cs q h (sym g ∙ e)
  | refuse x k f y s g ↦ (let no : none ≡ some q = sym g ∙ e in cc)
  | drop x t k f y s g ↦ collapse-last_of abs t d cs q h (sym g ∙ e)
]

pub reverse-cons-append : (c : Bytes) (x e : List Bytes) → reverse (c ∷ x) ++ e ≡ reverse x ++ c ∷ e
reverse-cons-append c x e = rw (reverse-cons c x) (append_assoc (reverse x) (c ∷ []) e)

-- Collapsing again.
push_again :
    (abs : Bool) (d : Bytes) (q cs : List Bytes)
    → reduced (d ∷ q) ≡ true
    → collapse abs q (d ∷ cs) ≡ collapse abs (d ∷ q) cs
unfolding collapse
push_again abs d [] cs h =
    let k : current d ≡ false = ground (arith, h) in
    elim (Bool-cases (parent d)) [ inl p ↦ rw (k, p) refl | inr p ↦ rw (k, p) refl ]
push_again abs d (x ∷ q) cs h =
    let k : current d ≡ false = ground (arith, h) in
    elim (Bool-cases (parent d)) [
      | inl p ↦ (let x_parent : parent x ≡ true = ground (arith, h, p) in rw (k, p, x_parent) refl)
      | inr p ↦ rw (k, p) refl
    ]

pub collapse-again :
    (abs : Bool) (q cs : List Bytes)
    → reduced q ≡ true
    → collapse abs [] (reverse q ++ cs) ≡ collapse abs q cs
collapse-again abs [] cs h = refl
collapse-again abs (d ∷ q) cs h =
    ap (collapse abs []) (reverse-cons-append d q cs)
    ∙ collapse-again abs q (d ∷ cs) (ground (arith, h))
    ∙ push_again abs d q cs h
