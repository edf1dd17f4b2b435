-- ===== src/ProjectName/Extension.antt =====
-- Base names and extensions.
use libbutl.Prelude.{
  ℕ, true, false, ◌||◌, none, some, [], ◌∷◌, ◌++◌, reverse, ◌==◌, if◌then◌else◌, Bytes, is_empty,
  has_byte, ◌≡◌, refl, sym, ap, ◌∙◌, arith, append_assoc, append-nil,
}
use mathlib.Core.List.{reverse-cons, reverse-reverse, reverse-append}
use libbutl.ProjectName.Names.{
  before_dot, scan_extension, find_extension, base, base_of, extension, same_ignoring_case,
}

reverse-cons-append : (c : ℕ) (x e : Bytes) → reverse (c ∷ x) ++ e ≡ reverse x ++ c ∷ e
reverse-cons-append c x e = rw (reverse-cons c x) (append_assoc (reverse x) (c ∷ []) e)

has_byte-append : (b : ℕ) (x y : Bytes) → has_byte b (x ++ y) ≡ (has_byte b x || has_byte b y)
has_byte-append b [] y = refl
has_byte-append b (c ∷ x) y = ground (arith, has_byte-append b x y)

has_byte-reverse : (b : ℕ) (x : Bytes) → has_byte b (reverse x) ≡ has_byte b x
has_byte-reverse b [] = refl
has_byte-reverse b (c ∷ x) =
    rw (reverse-cons c x, has_byte-append b (reverse x) (c ∷ []), has_byte-reverse b x)
      (ground arith)

-- The scan passes over a text without dots and separators.
scan_extension-append :
    (x r e : Bytes)
    → has_byte 46 x ≡ false
    → has_byte 47 x ≡ false
    → scan_extension (x ++ r) e ≡ scan_extension r (reverse x ++ e)
unfolding scan_extension
scan_extension-append [] r e h k = refl
scan_extension-append (c ∷ x) r e h k =
    let c_dot : (c == 46) ≡ false = ground (arith, h) in
    let c_separator : (c == 47) ≡ false = ground (arith, k) in
    rw (c_dot, c_separator)
      (scan_extension-append x r (c ∷ e) (ground (arith, h)) (ground (arith, k))
        ∙ ap (scan_extension r) (sym (reverse-cons-append c x e)))

find_extension-append :
    (b e : Bytes)
    → before_dot (reverse b) ≡ true
    → is_empty e ≡ false
    → has_byte 46 e ≡ false
    → has_byte 47 e ≡ false
    → find_extension (b ++ 46 ∷ e) ≡ some (b, e)
unfolding find_extension scan_extension
find_extension-append b e hb he dots separators =
    let backwards : reverse (b ++ 46 ∷ e) ≡ reverse e ++ 46 ∷ reverse b =
      reverse-append b (46 ∷ e) ∙ reverse-cons-append 46 e (reverse b) in
    let scan =
      scan_extension-append (reverse e) (46 ∷ reverse b) [] (has_byte-reverse 46 e ∙ dots)
        (has_byte-reverse 47 e ∙ separators) in
    let start : reverse (reverse e) ++ [] ≡ e =
      append-nil (reverse (reverse e)) ∙ reverse-reverse e in
    ap (λ s. scan_extension s []) backwards
    ∙ scan
    ∙ ap (scan_extension (46 ∷ reverse b)) start
    ∙ rw (hb, he, reverse-reverse b) refl

-- Where a dot follows a base that is not empty and does not end with a separator, and an extension
-- that is not empty and holds neither a dot nor a separator follows the dot, `extension` gives this
-- extension and `base` gives the base, or the whole name if it was asked to remove another
-- extension only, ignoring case.
pub base-extension :
    (b e other : Bytes)
    → before_dot (reverse b) ≡ true
    → is_empty e ≡ false
    → has_byte 46 e ≡ false
    → has_byte 47 e ≡ false
    → (extension (b ++ 46 ∷ e) ≡ e)
      × (base none (b ++ 46 ∷ e) ≡ b)
      × (base (some other) (b ++ 46 ∷ e) ≡ (if same_ignoring_case e other then b else b ++ 46 ∷ e))
unfolding extension base base_of
base-extension b e other hb he dots separators =
    let found = find_extension-append b e hb he dots separators in
    (rw (found, extension) refl, rw (found, base) refl, rw (found, base) refl)
