-- ===== src/Base64.antt =====
-- libbutl/base64.cxx: the two alphabets, `base64_encode`, `base64url_encode` and `base64_decode`
-- over iterators, a sequence of bytes being the list of them.
pub mod Alphabet
pub mod RoundTrip
pub mod Url
pub mod Lines
mod Tests
use libbutl.Prelude.{
  ℕ, zero, suc, ◌+◌, ◌-◌, ◌%◌, Bool, true, false, not, ◌&&◌, ◌||◌, List, [], ◌∷◌, ◌++◌, Bytes,
  codes, get_or, is_empty, ltb, leb, ◌==◌, if◌then◌else◌, bit_and, bit_or, shl, shr, Result, ok,
  err, ◌>>=◌, ◌>>◌, throw_if,
}

-- The array `codes`.
abbrev pub alphabet : Bytes
alphabet = codes "ABCDEFGHIJKLMNOPQRSTUVWXYZabcdefghijklmnopqrstuvwxyz0123456789+/"

-- The array `codes_url`.
abbrev pub alphabet_url : Bytes
alphabet_url = codes "ABCDEFGHIJKLMNOPQRSTUVWXYZabcdefghijklmnopqrstuvwxyz0123456789-_"

-- `un`: the index of no character.
abbrev pub un : ℕ
un = 65

abbrev pub newline : ℕ
newline = b'\n'

abbrev pub pad : ℕ
pad = b'='

-- `codes[i]` and `codes_url[i]`.
pub code_at : ℕ → ℕ
code_at i = get_or alphabet i 0

pub code_url_at : ℕ → ℕ
code_url_at i = get_or alphabet_url i 0

-- What one round writes, in each of the two forms: `n` is the number of the round.
pub write_group : ℕ → ℕ → ℕ → ℕ → ℕ → Bytes
write_group n i1 i2 i3 i4 =
    (if not (n == 0) && n % 19 == 0 then newline ∷ [] else [])
    ++ (code_at i1
        ∷ code_at i2
        ∷ (if i3 == un then pad else code_at i3)
        ∷ (if i4 == un then pad else code_at i4)
        ∷ [])

pub write_group_url : ℕ → ℕ → ℕ → ℕ → Bytes
write_group_url i1 i2 i3 i4 =
    (code_url_at i1 ∷ code_url_at i2 ∷ [])
    ++ ((if not (i3 == un) then code_url_at i3 ∷ [] else [])
        ++ (if not (i4 == un) then code_url_at i4 ∷ [] else []))

pub write : Bool → ℕ → ℕ → ℕ → ℕ → ℕ → Bytes
write false n i1 i2 i3 i4 = write_group n i1 i2 i3 i4
write true n i1 i2 i3 i4 = write_group_url i1 i2 i3 i4

-- The six-bit indices that a round computes from the bytes that it reads.
pub first_index : ℕ → ℕ
first_index a = bit_and (shr a 2) 0x3F

pub second_index_base : ℕ → ℕ
second_index_base a = bit_and (shl a 4) 0x30

pub second_index : ℕ → ℕ → ℕ
second_index a b = bit_or (second_index_base a) (bit_and (shr b 4) 0xF)

pub third_index_base : ℕ → ℕ
third_index_base b = bit_and (shl b 2) 0x3C

pub third_index : ℕ → ℕ → ℕ
third_index b c = bit_or (third_index_base b) (bit_and (shr c 6) 0x3)

pub fourth_index : ℕ → ℕ
fourth_index c = bit_and c 0x3F

-- The loop of the iterator overload: a round reads up to three bytes.
pub encode_from : Bool → ℕ → Bytes → Bytes
encode_from url n [] = []
encode_from url n (a ∷ []) = write url n (first_index a) (second_index_base a) un un
encode_from url n (a ∷ b ∷ []) =
    write url n (first_index a) (second_index a b) (third_index_base b) un
encode_from url n (a ∷ b ∷ c ∷ rest) =
    write url n (first_index a) (second_index a b) (third_index b c) (fourth_index c)
    ++ encode_from url (n + 1) rest

-- `base64_encode (const vector<char>&)` and `base64url_encode (const vector<char>&)`.
unfoldable pub encode : Bytes → Bytes
unfolding encode_from write write_group write_group_url code_at code_url_at first_index second_index
    second_index_base third_index third_index_base fourth_index
encode v = encode_from false 0 v

unfoldable pub encode_url : Bytes → Bytes
unfolding encode_from write write_group write_group_url code_at code_url_at first_index second_index
    second_index_base third_index third_index_base fourth_index
encode_url v = encode_from true 0 v

abbrev bad {ℓ} : {A : Type ℓ} → Result A
bad = err "invalid input"

-- `index`, the inverse of `codes`.
pub index : ℕ → Result ℕ
index c =
    if c == b'/'
    then ok 63
    else if c == b'+'
    then ok 62
    else if leb b'A' c && leb c b'Z'
    then ok (c - b'A')
    else if leb b'a' c && leb c b'z'
    then ok (c - b'a' + 26)
    else if leb b'0' c && leb c b'9'
    then ok (c - b'0' + 52)
    else bad

-- The bytes that the decoder puts together; a `char` keeps the low eight bits.
pub first_byte : ℕ → ℕ → ℕ
first_byte i1 i2 = bit_or (shl i1 2) (shr i2 4) % 256

pub second_byte : ℕ → ℕ → ℕ
second_byte i2 i3 = bit_or (shl i2 4) (shr i3 2) % 256

pub third_byte : ℕ → ℕ → ℕ
third_byte i3 i4 = bit_or (shl i3 6) i4 % 256

-- The round behind the newline test, for four characters with `s` behind them: the bytes that it
-- writes, and whether the loop goes on.
pub read_group : ℕ → ℕ → ℕ → ℕ → Bytes → Result (Bytes × Bool)
read_group c1 c2 c3 c4 s = do
  i1 ← index c1
  i2 ← index c2
  if c3 == pad
      then (do
        throw_if (not (c4 == pad) || not (is_empty s)) "invalid input"
        ok (first_byte i1 i2 ∷ [], false))
      else (do
        i3 ← index c3
        if c4 == pad
            then (do
              throw_if (not (is_empty s)) "invalid input"
              ok (first_byte i1 i2 ∷ second_byte i2 i3 ∷ [], false))
            else (do
              i4 ← index c4
              ok (first_byte i1 i2 ∷ second_byte i2 i3 ∷ third_byte i3 i4 ∷ [], true)))

-- What the loop returns, with the rest of the loop as `later`.
pub and_then : Bytes × Bool → Result Bytes → Result Bytes
and_then (out, false) later = ok out
and_then (out, true) later = later >>= λ more. ok (out ++ more)

-- The loop of `base64_decode`. `next` throws at the end of the input, so that a round which starts
-- with a character other than a newline and has fewer than four of them fails.
pub decode : Bytes → Result Bytes
decode [] = ok []
decode (a ∷ []) = if a == newline then ok [] else bad
decode (a ∷ b ∷ []) = let skip = decode (b ∷ []) in if a == newline then skip else bad
decode (a ∷ b ∷ c ∷ []) = let skip = decode (b ∷ c ∷ []) in if a == newline then skip else bad
decode (a ∷ b ∷ c ∷ d ∷ s) =
    let skip = decode (b ∷ c ∷ d ∷ s) in
    let round = read_group a b c d s >>= λ r. and_then r (decode s) in
    if a == newline then skip else round
