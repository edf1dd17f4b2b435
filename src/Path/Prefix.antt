-- ===== src/Path/Prefix.antt =====
-- `sub`, `leaf (d)` and `normalized` of a path that is put together.
use libbutl.Prelude.{
  ℕ, zero, suc, true, false, not, ◌&&◌, ◌||◌, inl, inr, [], ◌∷◌, ◌++◌, ◌≡◌, ◌==◌, refl, sym, ap,
  ◌∙◌, Bytes, length, take, drop, is_empty, append-nil, append_assoc, arith, Bool-cases,
}
use libbutl.Path.Traits.{
  is_separator, absolute, current, parent, ends_with_separator, sub, compare, is_equal, less_char,
  normalized_loop,
}
use libbutl.Path.Split.{IsName}
use libbutl.Path.Parts.{separator_is}
use libbutl.Path.Text.{ends_with-cons_kept}

less_char-total : (c d : ℕ) → less_char c d ≡ false → less_char d c ≡ false → c ≡ d
less_char-total c d h k = ground (arith, h, k)

equal-cons :
    (c d : ℕ) (l r : Bytes)
    → is_equal (compare (c ∷ l) (d ∷ r)) ≡ true
    → (c ≡ d) × (is_equal (compare l r) ≡ true)
unfolding compare
equal-cons c d l r h = elim (Bool-cases (is_separator c && is_separator d)) [
  | inl e ↦
      let q : is_equal (compare (c ∷ l) (d ∷ r)) ≡ is_equal (compare l r) = rw e refl in
      (separator_is c (ground (arith, e)) ∙ sym (separator_is d (ground (arith, e))), sym q ∙ h)
  | inr e ↦ elim (Bool-cases (less_char c d)) [
    | inl f ↦ (let q : is_equal (compare (c ∷ l) (d ∷ r)) ≡ false = rw (e, f) refl in cc)
    | inr f ↦ elim (Bool-cases (less_char d c)) [
      | inl g ↦ (let q : is_equal (compare (c ∷ l) (d ∷ r)) ≡ false = rw (e, f, g) refl in cc)
      | inr g ↦
          let q : is_equal (compare (c ∷ l) (d ∷ r)) ≡ is_equal (compare l r) = rw (e, f, g) refl in
          (less_char-total c d f g, sym q ∙ h)
    ]
  ]
]

-- `compare` finds no difference only between equal texts.
compare-equal : (l r : Bytes) → is_equal (compare l r) ≡ true → l ≡ r
unfolding compare
compare-equal [] [] h = refl
compare-equal [] (d ∷ r) h = cc
compare-equal (c ∷ l) [] h = cc
compare-equal (c ∷ l) (d ∷ r) h =
    let (e, k) = equal-cons c d l r h in ap (λ x. x ∷ l) e ∙ ap (λ x. d ∷ x) (compare-equal l r k)

take-drop : (n : ℕ) (s : Bytes) → take n s ++ drop n s ≡ s
take-drop zero s = refl
take-drop (suc n) [] = refl
take-drop (suc n) (c ∷ s) = ap (λ x. c ∷ x) (take-drop n s)

-- A path below a directory continues its text, and the directory ends there.
pub sub-append :
    (s p : Bytes)
    → sub s p ≡ true
    → is_empty p ≡ false
    → (s ≡ p ++ drop (length p) s)
      × ((ends_with_separator p || length s == length p || absolute (drop (length p) s)) ≡ true)
unfolding sub
sub-append s p h f =
    let e : is_equal (compare (take (length p) s) p) ≡ true = ground (arith, h, f) in
    (
      sym (take-drop (length p) s)
          ∙ ap (λ x. x ++ drop (length p) s) (compare-equal (take (length p) s) p e),
      ground (arith, h, f),
    )

pub sub-root : (s : Bytes) → absolute s ≡ true → sub s (b'/' ∷ []) ≡ true
unfolding sub compare
sub-root [] h = cc
sub-root (c ∷ s) h = rw (separator_is c h, sub) (ground arith)

pub sub-empty : (s p : Bytes) → is_empty p ≡ true → sub s p ≡ true
unfolding sub
sub-empty s p h = rw h refl

-- Normalized texts at a separator.
pub normalized_loop-name :
    (p y : Bytes) → IsName y → normalized_loop p y ≡ not (parent (p ++ y) || current (p ++ y))
unfolding normalized_loop
normalized_loop-name p [] n = ap (λ z. not (parent z || current z)) (sym (append-nil p))
normalized_loop-name p (c ∷ y) n =
    let e : is_separator c ≡ false = ground (arith, n) in
    rw e (
      normalized_loop-name (p ++ c ∷ []) y (ground (arith, n))
      ∙ ap (λ z. not (parent z || current z)) (append_assoc p (c ∷ []) y))

absolute-append : (x t : Bytes) → absolute (x ++ b'/' ∷ t) ≡ is_empty x || absolute x
absolute-append [] t = refl
absolute-append (c ∷ x) t = refl

-- A separator in a normalized text has a normalized text before it, and no separator before or
-- after it.
pub normalized_loop-append :
    (p x t : Bytes)
    → normalized_loop p (x ++ b'/' ∷ t) ≡ true
    → (normalized_loop p x ≡ true)
      × (ends_with_separator x ≡ false)
      × (absolute t ≡ false)
      × (normalized_loop [] t ≡ true)
unfolding normalized_loop
normalized_loop-append p [] t h = (ground (arith, h), refl, ground (arith, h), ground (arith, h))
normalized_loop-append p (c ∷ x) t h = elim (Bool-cases (is_separator c)) [
  | inr e ↦
      let g : normalized_loop (p ++ c ∷ []) (x ++ b'/' ∷ t) ≡ true = ground (arith, h, e) in
      let (a, b, k, n) = normalized_loop-append (p ++ c ∷ []) x t g in
      (rw e a, ends_with-cons_kept c x (ground (arith, e)) b, k, n)
  | inl e ↦
      let u : (is_empty x || absolute x) ≡ false =
        sym (absolute-append x t) ∙ ground (arith, h, e) in
      let g : normalized_loop [] (x ++ b'/' ∷ t) ≡ true = ground (arith, h, e) in
      let (a, b, k, n) = normalized_loop-append [] x t g in
      (ground (arith, e, u, a, h), ends_with-cons_kept c x (ground (arith, u)) b, k, n)
]
