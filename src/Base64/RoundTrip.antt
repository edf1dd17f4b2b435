-- ===== src/Base64/RoundTrip.antt =====
-- `base64_decode` undoes `base64_encode` (libbutl/base64.cxx).
use libbutl.Prelude.{
  ℕ, ◌+◌, ◌%◌, ◌<◌, Bool, true, false, not, ◌&&◌, [], ◌∷◌, ◌++◌, ◌≡◌, refl, ◌∙◌, arith, ◌==◌,
  if◌then◌else◌, Bytes, All, ok, ◌>>=◌,
}
use libbutl.Base64.{
  code_at, newline, pad, un, first_index, second_index_base, second_index, third_index_base,
  third_index, fourth_index, first_byte, second_byte, third_byte, write_group, write, encode_from,
  encode, read_group, and_then, decode,
}
use libbutl.Base64.Alphabet.{
  index-code_at, code_at-ne, first_index_lem, second_index_base_lem, second_index_lem,
  third_index_base_lem, third_index_lem, fourth_index_lem, first_byte_lem, second_byte_lem,
  third_byte_lem,
}

-- Every element is a byte.
abbrev pub AreBytes : Bytes → Type 0
AreBytes = All (λ c. c < 256)

module _ (i1 i2 i3 : ℕ) (h1 : i1 < 64) (h2 : i2 < 64) (h3 : i3 < 64) where
  read_three :
      (i4 : ℕ) (s : Bytes)
      → i4 < 64
      → read_group (code_at i1) (code_at i2) (code_at i3) (code_at i4) s
        ≡ ok (first_byte i1 i2 ∷ second_byte i2 i3 ∷ third_byte i3 i4 ∷ [], true)
  unfolding read_group
  read_three i4 s h4 = rw (
    index-code_at i1 h1,
    index-code_at i2 h2,
    (code_at-ne i3 h3).1,
    index-code_at i3 h3,
    (code_at-ne i4 h4).1,
    index-code_at i4 h4,
  )

  read_two :
      read_group (code_at i1) (code_at i2) (code_at i3) pad []
      ≡ ok (first_byte i1 i2 ∷ second_byte i2 i3 ∷ [], false)
  unfolding read_group
  read_two =
      rw (index-code_at i1 h1, index-code_at i2 h2, (code_at-ne i3 h3).1, index-code_at i3 h3)

read_one :
    (i1 i2 : ℕ)
    → i1 < 64
    → i2 < 64
    → read_group (code_at i1) (code_at i2) pad pad [] ≡ ok (first_byte i1 i2 ∷ [], false)
unfolding read_group
read_one i1 i2 h1 h2 = rw (index-code_at i1 h1, index-code_at i2 h2)

-- A round of the decoder over a group, with the line break that may stand before it.
decode_group :
    (brk : Bool) (i1 c2 c3 c4 : ℕ) (s : Bytes)
    → i1 < 64
    → decode ((if brk then newline ∷ [] else []) ++ (code_at i1 ∷ c2 ∷ c3 ∷ c4 ∷ s))
      ≡ (read_group (code_at i1) c2 c3 c4 s >>= λ r. and_then r (decode s))
unfolding decode
decode_group true i1 c2 c3 c4 s h = rw (code_at-ne i1 h).0
decode_group false i1 c2 c3 c4 s h = rw (code_at-ne i1 h).0

-- The three bytes come back from the four indices.
three_bytes :
    (a b c : ℕ)
    → a < 256
    → b < 256
    → c < 256
    → (first_byte (first_index a) (second_index a b) ≡ a)
      × (second_byte (second_index a b) (third_index b c) ≡ b)
      × (third_byte (third_index b c) (fourth_index c) ≡ c)
three_bytes a b c ha hb hc =
    rw
      (
        first_index_lem a ha,
        second_index_lem a b ha hb,
        third_index_lem b c hb hc,
        fourth_index_lem c hc,
      )
      (
        first_byte_lem _ _ (omega arith) (omega arith) ∙ omega arith,
        second_byte_lem _ _ (omega arith) (omega arith) ∙ omega arith,
        third_byte_lem _ _ (omega arith) (omega arith) ∙ omega arith,
      )

abbrev breaks : ℕ → Bool
breaks n = not (n == 0) && n % 19 == 0

module _ (n i1 i2 : ℕ) where
  write_three :
      (i3 i4 : ℕ) (s : Bytes)
      → i3 < 64
      → i4 < 64
      → write false n i1 i2 i3 i4 ++ s
        ≡ (if breaks n then newline ∷ [] else [])
          ++ (code_at i1 ∷ code_at i2 ∷ code_at i3 ∷ code_at i4 ∷ s)
  unfolding write write_group
  write_three i3 i4 s h3 h4 = ground arith

  write_two :
      (i3 : ℕ)
      → i3 < 64
      → write false n i1 i2 i3 un
        ≡ (if breaks n then newline ∷ [] else [])
          ++ (code_at i1 ∷ code_at i2 ∷ code_at i3 ∷ pad ∷ [])
  unfolding write write_group
  write_two i3 h3 = ground arith

  write_one :
      write false n i1 i2 un un
      ≡ (if breaks n then newline ∷ [] else []) ++ (code_at i1 ∷ code_at i2 ∷ pad ∷ pad ∷ [])
  unfolding write write_group
  write_one = refl

module _ (a : ℕ) (ha : a < 256) where
  pub first_index_lt : first_index a < 64
  first_index_lt = omega (arith, first_index_lem a ha)

  pub second_index_base_lt : second_index_base a < 64
  second_index_base_lt = omega (arith, second_index_base_lem a ha)

  pub third_index_base_lt : third_index_base a < 64
  third_index_base_lt = omega (arith, third_index_base_lem a ha)

  pub fourth_index_lt : fourth_index a < 64
  fourth_index_lt = omega (arith, fourth_index_lem a ha)

  pub second_index_lt : (b : ℕ) → b < 256 → second_index a b < 64
  second_index_lt b hb = omega (arith, second_index_lem a b ha hb)

  pub third_index_lt : (b : ℕ) → b < 256 → third_index a b < 64
  third_index_lt b hb = omega (arith, third_index_lem a b ha hb)

  one_byte : first_byte (first_index a) (second_index_base a) ≡ a
  one_byte =
      rw (first_index_lem a ha, second_index_base_lem a ha)
        (first_byte_lem _ _ (omega arith) (omega arith) ∙ omega arith)

  two_bytes : (b : ℕ) → b < 256 → second_byte (second_index a b) (third_index_base b) ≡ b
  two_bytes b hb =
      rw (second_index_lem a b ha hb, third_index_base_lem b hb)
        (second_byte_lem _ _ (omega arith) (omega arith) ∙ omega arith)

  two_bytes_first : (b : ℕ) → b < 256 → first_byte (first_index a) (second_index a b) ≡ a
  two_bytes_first b hb =
      rw (first_index_lem a ha, second_index_lem a b ha hb)
        (first_byte_lem _ _ (omega arith) (omega arith) ∙ omega arith)

decode-encode_from : (n : ℕ) (v : Bytes) → AreBytes v → decode (encode_from false n v) ≡ ok v
unfolding encode_from and_then
decode-encode_from n [] h = unfold decode in refl
decode-encode_from n (a ∷ []) h =
    let ha = first_index_lt a h.0 in
    rw (
      write_one n (first_index a) (second_index_base a),
      decode_group (breaks n) (first_index a) _ _ _ [] ha,
      read_one _ _ ha (second_index_base_lt a h.0),
      one_byte a h.0,
    )
decode-encode_from n (a ∷ b ∷ []) h =
    let ha = first_index_lt a h.0 in
    let hb = third_index_base_lt b h.1.0 in
    rw (
      write_two n (first_index a) (second_index a b) _ hb,
      decode_group (breaks n) (first_index a) _ _ _ [] ha,
      read_two _ _ _ ha (second_index_lt a h.0 b h.1.0) hb,
      two_bytes_first a h.0 b h.1.0,
      two_bytes a h.0 b h.1.0,
    )
decode-encode_from n (a ∷ b ∷ c ∷ v) h =
    let ha = first_index_lt a h.0 in
    let hb = third_index_lt b h.1.0 c h.1.1.0 in
    let hc = fourth_index_lt c h.1.1.0 in
    let back = three_bytes a b c h.0 h.1.0 h.1.1.0 in
    rw (
      write_three n (first_index a) (second_index a b) _ _ (encode_from false (n + 1) v) hb hc,
      decode_group (breaks n) (first_index a) _ _ _ _ ha,
      read_three _ _ _ ha (second_index_lt a h.0 b h.1.0) hb _ _ hc,
      decode-encode_from (n + 1) v h.1.1.1,
      back.0,
      back.1,
      back.2,
    )

-- Decoding the encoding of any sequence of bytes, line breaks and padding included, gives the
-- sequence back.
pub decode-encode : (v : Bytes) → AreBytes v → decode (encode v) ≡ ok v
unfolding encode
decode-encode v h = decode-encode_from 0 v h
