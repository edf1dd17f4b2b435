-- ===== src/Base64/Tests.antt =====
-- Runs of libbutl/base64.cxx on the inputs of tests/base64, and the theorems at concrete inputs.
use libbutl.Prelude.{◌≡◌, refl, arith, codes, Bytes, ok, err, length}
use libbutl.Base64.{
  encode, encode_url, decode, read_group, and_then, index, first_byte, second_byte, third_byte,
}
use libbutl.Base64.RoundTrip.{decode-encode}
use libbutl.Base64.Url.{to_url}
use libbutl.Base64.Lines.{wrap, without_newlines, encode_url-encode}

encode_hello : encode (codes "hello") ≡ codes "aGVsbG8="
unfolding encode
encode_hello = refl

encode_url_hello : encode_url (codes "hell") ≡ codes "aGVsbA"
unfolding encode_url
encode_url_hello = refl

decode_broken_lines : decode (codes "aGVs\nbG8=") ≡ ok (codes "hello")
unfolding decode read_group and_then index first_byte second_byte third_byte
decode_broken_lines = refl

decode_junk_after_padding : decode (codes "aGVsbG8=aGVs") ≡ err "invalid input"
unfolding decode read_group and_then index first_byte second_byte third_byte
decode_junk_after_padding = refl

decode-encode_example : decode (encode (codes "hello")) ≡ ok (codes "hello")
decode-encode_example = decode-encode (codes "hello") (omega arith)

-- Sixty bytes, which are twenty groups.
abbrev sixty : Bytes
sixty = codes "~~~?01234567890123456789012345678901234567890123456789012345"

encode_url-encode_example :
    (encode sixty ≡ wrap 0 (without_newlines (encode sixty)))
    × (length (without_newlines (encode sixty)) ≡ 80)
    × (length (encode sixty) ≡ 81)
    × (encode_url sixty ≡ to_url (encode sixty))
encode_url-encode_example = encode_url-encode sixty (omega arith)

two_lines :
    encode sixty
    ≡ codes "fn5+PzAxMjM0NTY3ODkwMTIzNDU2Nzg5MDEyMzQ1Njc4OTAxMjM0NTY3ODkwMTIzNDU2Nzg5MDEy\nMzQ1"
unfolding encode
two_lines = refl
