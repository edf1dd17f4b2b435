-- ===== src/Url/Codec.antt =====
-- The character classes of basic_url in libbutl/url.hxx, and encode and decode of
-- libbutl/url.txx.
use libbutl.Prelude.{
  ℕ, ◌+◌, ◌*◌, ◌-◌, Bool, not, ◌&&◌, ◌||◌, [], ◌∷◌, ◌==◌, leb, if◌then◌else◌, Bytes, codes,
  has_byte, get_or, bit_and, shr, Result, ok, err, ◌>>=◌,
}
use libbutl.ProjectName.{alnum, digit}

abbrev pub gen_delim : ℕ → Bool
gen_delim c = has_byte c (codes ":/?#[]@")

abbrev pub sub_delim : ℕ → Bool
sub_delim c = has_byte c (codes "!$&=()*+,;'")

abbrev pub reserved : ℕ → Bool
reserved c = sub_delim c || gen_delim c

abbrev pub unreserved : ℕ → Bool
unreserved c = alnum c || has_byte c (codes "-._~")

abbrev pub path_char : ℕ → Bool
path_char c = c == b'/' || c == b':' || unreserved c || c == b'@' || sub_delim c

-- `xdigit`, in the C locale, and the value of such a character.
abbrev pub xdigit : ℕ → Bool
xdigit c = digit c || (leb b'A' c && leb c b'F') || (leb b'a' c && leb c b'f')

abbrev pub xdigit_value : ℕ → ℕ
xdigit_value c = if digit c then c - b'0' else if leb c b'F' then c - b'A' + 10 else c - b'a' + 10

abbrev pub digit_at : ℕ → ℕ
digit_at i = get_or (codes "0123456789ABCDEF") i 0

-- The callback of `encode` gives the character to write and whether it is to be encoded.
unfoldable pub encode : (ℕ → ℕ × Bool) → Bytes → Bytes
encode f [] = []
encode f (c ∷ s) =
    let rest = encode f s in
    let d = if c == b'%' then c else (f c).0 in
    if c == b'%' || (f c).1
    then b'%' ∷ digit_at (bit_and (shr d 4) 0xF) ∷ digit_at (bit_and d 0xF) ∷ rest
    else d ∷ rest

abbrev pub add_decoded : ℕ → Result Bytes → Result Bytes
add_decoded c r = r >>= λ s. ok (c ∷ s)

-- The callback of `decode` gives the character in place of one that is not encoded.
unfoldable pub decode : (ℕ → ℕ) → Bytes → Result Bytes
decode f [] = ok []
decode f (c ∷ []) = if c == b'%' then err "invalid URL-encoding" else ok (f c ∷ [])
decode f (c ∷ a ∷ []) =
    let rest = decode f (a ∷ []) in
    if c == b'%' then err "invalid URL-encoding" else add_decoded (f c) rest
decode f (c ∷ a ∷ b ∷ s) =
    let rest = decode f (a ∷ b ∷ s) in
    let after = decode f s in
    if not (c == b'%')
    then add_decoded (f c) rest
    else if xdigit a && xdigit b
    then add_decoded (xdigit_value a * 16 + xdigit_value b) after
    else err "invalid URL-encoding"
