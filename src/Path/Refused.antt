-- ===== src/Path/Refused.antt =====
-- Which paths `normalize` refuses.
use libbutl.Prelude.{
  Bool, true, false, ◌&&◌, ◌⊎◌, inl, inr, Option, none, some, List, [], ◌∷◌, ◌≡◌, refl, sym, ap,
  All, ◌∙◌, Bytes, is_empty, arith, Bool-cases, Option-cases,
}
use mathlib.Core.Path.{subst}
use libbutl.Path.Traits.{absolute, current, parent}
use libbutl.Path.Data.{BasicPath}
use libbutl.Path.Normalize.{components, collapse, normalize}
use libbutl.Path.Collapse.{same, keeps, refuse, drop, step, stack_ok}
use libbutl.Path.Fixed.{Ordinary}
use libbutl.Path.Shape.{IsPath}
use libbutl.Path.Resolve.{
  Location, resolve, resolve_full, resolve_result, walk_back, walk_option, components-walk, enter,
}
use libbutl.Path.Normal.{
  collapsed, normalize-some, normalize-none, normalize-empty, resolve-normalize_result,
}
use libbutl.Path.Canonical.{stack-Ordinary}

-- The exception invalid_basic_path.
abbrev pub is_refused : Bytes ⊎ BasicPath → Bool
is_refused (inl e) = true
is_refused (inr p) = false

-- The place above the root.
abbrev pub is_nowhere : Option Location → Bool
is_nowhere none = true
is_nowhere (some l) = false

-- The collapse of a relative path is never refused.
collapse-relative : (r cs : List Bytes) → (q : List Bytes) × (collapse false r cs ≡ some q)
unfolding collapse
collapse-relative r [] = (r, refl)
collapse-relative r (c ∷ cs) = elim (step false r c cs) [
  | same k e ↦ (let (q, h) = collapse-relative r cs in (q, e ∙ h))
  | keeps k f e ↦ (let (q, h) = collapse-relative (c ∷ r) cs in (q, e ∙ h))
  | refuse d k f g s e ↦ cc
  | drop d t k f g s e ↦ (let (q, h) = collapse-relative t cs in (q, e ∙ h))
]

-- A name leads somewhere, from everywhere.
enter-some : (l : Location) (c : Bytes) → parent c ≡ false → (m : Location) × (enter l c ≡ some m)
enter-some l c p = elim (Bool-cases (current c)) [
  | inl e ↦ (l, rw e refl)
  | inr e ↦ elim (Bool-cases (is_empty c)) [
    | inl f ↦ ([], rw (e, p, f) refl)
    | inr f ↦ (c ∷ l, rw (e, p, f) refl)
  ]
]

walk_back-some :
    (l : Location) (r : List Bytes) → All Ordinary r → (m : Location) × (walk_back l r ≡ some m)
unfolding walk_back
walk_back-some l [] a = (l, refl)
walk_back-some l (c ∷ r) a =
    let (m, e) = walk_back-some l r (a.1) in
    let p : parent c ≡ false = ground (arith, a.0) in let (k, f) = enter-some m c p in (k, rw e f)

refused-none :
    (l : Location) (p : BasicPath) (ce : Bool)
    → IsPath p
    → is_empty p.path ≡ false
    → collapse (absolute p.path) [] (components p.path) ≡ none
    → is_refused (normalize p ce) ≡ (absolute p.path && is_nowhere (resolve l p.path))
refused-none l p ce v h e =
    let walked = components-walk l p.path h ∙ sym (resolve_full l p.path h) in
    let nowhere : resolve l p.path ≡ none = sym walked ∙ ap (walk_option l) e in
    let abs : absolute p.path ≡ true = (elim (Bool-cases (absolute p.path)) [
      | inl a ↦ a
      | inr a ↦
          let (q, f) = collapse-relative [] (components p.path) in
          let no : none ≡ some q = sym e ∙ ap (λ b. collapse b [] (components p.path)) a ∙ f in cc
    ]) in
    ap is_refused (normalize-none p ce v h e) ∙ rw (abs, nowhere) refl

refused-some :
    (l : Location) (p : BasicPath) (ce : Bool) (r : List Bytes)
    → IsPath p
    → is_empty p.path ≡ false
    → collapse (absolute p.path) [] (components p.path) ≡ some r
    → is_refused (normalize p ce) ≡ (absolute p.path && is_nowhere (resolve l p.path))
refused-some l p ce r v h e =
    ap is_refused (normalize-some p ce r v h e) ∙ (elim (Bool-cases (absolute p.path)) [
      | inr a ↦ rw a refl
      | inl a ↦
          let c = collapsed p r v h e in
          let s : stack_ok true r ≡ true = subst (λ b. stack_ok b r ≡ true) a c.stack in
          let (m, w) = walk_back-some l r ((stack-Ordinary r s c.is_reduced).0) in
          let there : resolve l p.path ≡ some m =
            resolve_full l p.path h ∙ sym (components-walk l p.path h) ∙ ap (walk_option l) e ∙ w in
          rw (a, there) refl
    ])

absolute_empty : (s : Bytes) → is_empty s ≡ true → absolute s ≡ false
absolute_empty [] h = refl
absolute_empty (c ∷ s) h = cc

is_refused-normalize :
    (l : Location) (p : BasicPath) (ce : Bool)
    → IsPath p
    → is_refused (normalize p ce) ≡ (absolute p.path && is_nowhere (resolve l p.path))
is_refused-normalize l p ce v = elim (Bool-cases (is_empty p.path)) [
  | inl h ↦ ap is_refused (normalize-empty p ce h) ∙ rw (absolute_empty p.path h) refl
  | inr h ↦ elim (Option-cases (collapse (absolute p.path) [] (components p.path))) [
    | inl e ↦ refused-none l p ce v h e
    | inr (r, e) ↦ refused-some l p ce r v h e
  ]
]

-- Seen from any place in a tree of directories without links, where nothing is above the root:
-- normalizing a path is refused exactly if the path is absolute and goes above the root. In all
-- other cases it gives a path that denotes what the path denotes; for a relative path that goes
-- above the root from that place, both denote nothing.
pub resolve-normalize :
    (l : Location) (p : BasicPath) (cur_empty : Bool)
    → IsPath p
    → (is_refused (normalize p cur_empty) ≡ (absolute p.path && is_nowhere (resolve l p.path)))
      × (resolve_result l (normalize p cur_empty) ≡ resolve l p.path)
resolve-normalize l p ce v = (is_refused-normalize l p ce v, resolve-normalize_result l p ce v)
