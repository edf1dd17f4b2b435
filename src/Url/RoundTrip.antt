-- ===== src/Url/RoundTrip.antt =====
-- Decoding undoes encoding.
use libbutl.Prelude.{
  ℕ, ◌+◌, ◌*◌, ◌<◌, Bool, true, false, ◌&&◌, [], ◌∷◌, ◌==◌, ◌≡◌, refl, ap, ◌∙◌, Bytes, bit_and, shr,
  ok, passes, passes_at, Bool-cases, ==_iff, ◌⊎◌, inl, inr, All,
}
use libbutl.Base64.RoundTrip.{AreBytes}
use libbutl.Url.Codec.{encode, decode, xdigit, xdigit_value, digit_at, add_decoded}

abbrev pub high : ℕ → ℕ
high c = digit_at (bit_and (shr c 4) 0xF)

abbrev pub low : ℕ → ℕ
low c = digit_at (bit_and c 0xF)

abbrev decoded : ℕ → Bool
decoded c =
    xdigit (high c) && (xdigit (low c) && (xdigit_value (high c) * 16 + xdigit_value (low c) == c))

decoded_table : passes decoded 256 ≡ true
unfolding passes
decoded_table = refl

pub both_left : (a b : Bool) → a && b ≡ true → a ≡ true
both_left true b h = refl
both_left false b h = h

pub both_right : (a b : Bool) → a && b ≡ true → b ≡ true
both_right true b h = h
both_right false b h = cc

decode-xdigits :
    (g : ℕ → ℕ) (c a b : ℕ) (s : Bytes)
    → (xdigit a && (xdigit b && (xdigit_value a * 16 + xdigit_value b == c))) ≡ true
    → decode g (b'%' ∷ a ∷ b ∷ s) ≡ add_decoded c (decode g s)
unfolding decode
decode-xdigits g c a b s h =
    let rest = both_right (xdigit a) (xdigit b && (xdigit_value a * 16 + xdigit_value b == c)) h in
    let y =
      (==_iff (xdigit_value a * 16 + xdigit_value b) c).0
        (both_right (xdigit b) (xdigit_value a * 16 + xdigit_value b == c) rest) in
    rw
      (
        both_left (xdigit a) (xdigit b && (xdigit_value a * 16 + xdigit_value b == c)) h,
        both_left (xdigit b) (xdigit_value a * 16 + xdigit_value b == c) rest,
      )
      (ap (λ d. add_decoded d (decode g s)) y)

decode-percent :
    (g : ℕ → ℕ) (c : ℕ) (s : Bytes)
    → c < 256
    → decode g (b'%' ∷ high c ∷ low c ∷ s) ≡ add_decoded c (decode g s)
decode-percent g c s h =
    decode-xdigits g c (high c) (low c) s (passes_at decoded 256 c h decoded_table)

decode-plain :
    (g : ℕ → ℕ) (c : ℕ) (s : Bytes)
    → (c == b'%') ≡ false
    → decode g (c ∷ s) ≡ add_decoded (g c) (decode g s)
unfolding decode
decode-plain g c [] h = rw h refl
decode-plain g c (a ∷ []) h = rw h refl
decode-plain g c (a ∷ b ∷ s) h = rw h refl

-- What a callback of `encode` and one of `decode` do with a character, in the words of the header:
-- a character that is to be encoded is left as it is, and another one is not replaced by a percent
-- sign and is found again.
abbrev pub Matches : (ℕ → ℕ × Bool) → (ℕ → ℕ) → ℕ → Type 0
Matches f g c =
    (c == b'%') ≡ false
    → ((f c).1 ≡ true) × ((f c).0 ≡ c)
      ⊎ ((f c).1 ≡ false) × (((f c).0 == b'%') ≡ false) × (g (f c).0 ≡ c)

decode-encode_byte :
    (f : ℕ → ℕ × Bool) (g : ℕ → ℕ) (c : ℕ) (s : Bytes)
    → c < 256
    → Matches f g c
    → decode g (encode f (c ∷ s)) ≡ add_decoded c (decode g (encode f s))
unfolding encode
decode-encode_byte f g c s h m = elim (Bool-cases (c == b'%')) [
  | inl e ↦ rw e (decode-percent g c (encode f s) h)
  | inr e ↦ elim (m e) [
    | inl (k, q) ↦
        rw (e, k)
          (ap (λ d. decode g (b'%' ∷ high d ∷ low d ∷ encode f s)) q
            ∙ decode-percent g c (encode f s) h)
    | inr (k, n, q) ↦
        rw (e, k)
          (decode-plain g (f c).0 (encode f s) n
            ∙ ap (λ d. add_decoded d (decode g (encode f s))) q)
  ]
]

-- Decoding gives back what was encoded, for callbacks that match on each of the characters.
pub decode-encode_matching :
    (f : ℕ → ℕ × Bool) (g : ℕ → ℕ) (s : Bytes)
    → AreBytes s
    → All (Matches f g) s
    → decode g (encode f s) ≡ ok s
unfolding decode encode
decode-encode_matching f g [] b m = refl
decode-encode_matching f g (c ∷ s) b m =
    decode-encode_byte f g c s (b.0) (m.0)
    ∙ ap (add_decoded c) (decode-encode_matching f g s (b.1) (m.1))
