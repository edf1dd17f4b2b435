-- ===== src/Manifest/Value/Reading.antt =====
-- The loop of `parse_value` on the text of a piece of a value.
use libbutl.Prelude.{
  ℕ, Bool, true, false, not, ◌&&◌, ◌||◌, inl, inr, [], ◌∷◌, ◌++◌, ◌≡◌, refl, sym, ap, ◌∙◌, ◌==◌,
  if◌then◌else◌, Bytes, length, is_empty, Bool-cases, arith, append_assoc, append-nil,
}
use libbutl.Manifest.Spaces.{blank}
use libbutl.Manifest.Value.{at_newline, value_loop}
use libbutl.Manifest.Value.Written.{
  Written, stop, break, here, plain, last_slash, slash, starts_well, starts_well-Written,
}

plain_step :
    (ml nl : Bool) (c : ℕ) (u v : Bytes) (n : ℕ)
    → (c == b'\\') ≡ false
    → (c == b'\n') ≡ false
    → is_empty u ≡ false
    → value_loop ml nl (c ∷ u) v n
      ≡ value_loop ml false u
          (v ++ c ∷ [])
          (if not ml && not (blank c) then length (v ++ c ∷ []) else n)
unfolding value_loop
plain_step ml nl c [] v n e f g = cc
plain_step ml nl c (d ∷ u) v n e f g = rw (e, f) (ground (arith, e, f))

abbrev pub at_slash : Bytes → Bool
at_slash [] = false
at_slash (c ∷ s) = c == b'\\'

slash_step :
    (ml nl : Bool) (u v : Bytes) (n : ℕ)
    → starts_well u ≡ true
    → value_loop ml nl (b'\\' ∷ u) v n
      ≡ value_loop ml false u
          (v ++ b'\\' ∷ [])
          (if at_slash u || (not ml && true) then length (v ++ b'\\' ∷ []) else n)
unfolding value_loop
slash_step ml nl [] v n h = cc
slash_step ml nl (d ∷ u) v n h = elim (Bool-cases (d == b'\n')) [
  | inl e ↦ ground (arith, h, e)
  | inr e ↦ elim (Bool-cases (d == b'\\')) [
    | inl f ↦ let g : at_newline u ≡ false = ground (arith, h, f) in rw (e, f, g) (ground arith)
    | inr f ↦ elim (Bool-cases nl) [ inl k ↦ rw (e, f, k) refl | inr k ↦ rw (e, f, k) refl ]
  ]
]

last_slash_step :
    (ml nl : Bool) (t v : Bytes) (n : ℕ)
    → value_loop ml nl (b'\\' ∷ b'\\' ∷ b'\n' ∷ t) v n
      ≡ value_loop ml false (b'\n' ∷ t) (v ++ b'\\' ∷ []) (length (v ++ b'\\' ∷ []))
unfolding value_loop
last_slash_step ml true t v n = refl
last_slash_step ml false t v n = refl

newline_step :
    (ml nl : Bool) (t v : Bytes) (n : ℕ)
    → value_loop ml nl (b'\n' ∷ t) v n ≡ value_loop ml false (b'\n' ∷ t) v n
unfolding value_loop
newline_step ml nl [] v n = refl
newline_step ml true (d ∷ t) v n = refl
newline_step ml false (d ∷ t) v n = refl

-- An empty piece.
pub at_stop :
    (ml nl : Bool) (t v : Bytes) (n : ℕ)
    → value_loop ml nl (b'\n' ∷ t) v n ≡ value_loop ml false (b'\n' ∷ t) (v ++ []) n
at_stop ml nl t v n =
    newline_step ml nl t v n ∙ sym (ap (λ x. value_loop ml false (b'\n' ∷ t) x n) (append-nil v))

break_step :
    (ml : Bool) (u v : Bytes) (n : ℕ)
    → value_loop ml false (b'\\' ∷ b'\n' ∷ u) v n ≡ value_loop ml true u v n
break_step ml u v n = unfold value_loop in refl

-- The size that the loop has after the value `s`.
unfoldable pub size_after : Bool → Bytes → Bytes → ℕ → ℕ
size_after ml [] v n = n
size_after ml (c ∷ s) v n = size_after ml s (v ++ c ∷ []) (
    if (c == b'\\' && (is_empty s || at_slash s)) || (not ml && not (blank c))
    then length (v ++ c ∷ [])
    else n)

append_full : (o t : Bytes) → is_empty (o ++ b'\n' ∷ t) ≡ false
append_full [] t = refl
append_full (c ∷ o) t = refl

next_slash :
    {s o : Bytes} (t : Bytes)
    → Written false s o
    → at_slash (o ++ b'\n' ∷ t) ≡ (is_empty s || at_slash s)
next_slash t (plain c s o e f w) = refl
next_slash t last_slash = refl
next_slash t (slash s o w) = refl

pub value_loop-Written :
    (ml nl b : Bool) {s o : Bytes} (t v : Bytes) (n : ℕ)
    → (b && nl) ≡ false
    → Written b s o
    → value_loop ml nl (o ++ b'\n' ∷ t) v n
      ≡ value_loop ml false (b'\n' ∷ t) (v ++ s) (size_after ml s v n)
unfolding size_after
value_loop-Written ml nl b t v n h stop = at_stop ml nl t v n
value_loop-Written ml nl b t v n h (break s o w) =
    let k : nl ≡ false = h in
    rw k (break_step ml (o ++ b'\n' ∷ t) v n ∙ value_loop-Written ml true false t v n refl w)
value_loop-Written ml nl b t v n h (here s o w) = value_loop-Written ml nl false t v n refl w
value_loop-Written ml nl b t v n h (plain c s o e f w) =
    plain_step ml nl c (o ++ b'\n' ∷ t) v n e f (append_full o t)
    ∙ value_loop-Written ml false true t (v ++ c ∷ []) _ refl w
    ∙ rw (e, append_assoc v (c ∷ []) s) refl
value_loop-Written ml nl b t v n h last_slash = last_slash_step ml nl t v n
value_loop-Written ml nl b t v n h (slash s o w) =
    slash_step ml nl (o ++ b'\n' ∷ t) v n (starts_well-Written t w)
    ∙ value_loop-Written ml false false t (v ++ b'\\' ∷ []) _ refl w
    ∙ rw (next_slash t w, append_assoc v (b'\\' ∷ []) s) refl
