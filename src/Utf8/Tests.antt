-- ===== src/Utf8/Tests.antt =====
-- Runs of the UTF-8 validator.
use libbutl.Prelude.{
  ℕ, ◌≡◌, ◌↔◌, inl, inr, refl, true, false, none, some, List, [], ◌∷◌, Bytes, codes, All, length,
  arith,
}
use libbutl.Unicode.{
  graphic, any_type, codepoint_type, codepoint_type_lookup, lookup_type, lower_bound,
}
use libbutl.Utf8.{
  utf8_length, utf8, length_loop, validate, validate_first, validate_next, first_bits, second_range,
  finish_byte, allowed, byte_error, first_error, type_name, recover, validator, encode, encode_all,
  IsAllowed, utf8_length-encode_all,
}

-- The euro sign.
abbrev euro : Bytes
euro = 0xE2 ∷ 0x82 ∷ 0xAC ∷ []

one_codepoint : utf8_length euro any_type none ≡ inr 1
unfolding utf8_length length_loop validate validate_first validate_next first_bits second_range
    finish_byte allowed
one_codepoint = refl

euro_code : encode 0x20AC ≡ euro
unfolding encode
euro_code = refl

-- A surrogate is refused at its second byte.
surrogate :
    utf8_length (0xED ∷ 0xA0 ∷ 0x80 ∷ []) any_type none
    ≡ inl (codes "invalid UTF-8 sequence second byte (0xA0)")
unfolding utf8_length length_loop validate validate_first validate_next first_bits second_range
    finish_byte byte_error
surrogate = refl

incomplete : utf8_length (0xE2 ∷ 0x82 ∷ []) any_type none ≡ inl (codes "incomplete UTF-8 sequence")
unfolding utf8_length length_loop validate validate_first validate_next first_bits second_range
    finish_byte
incomplete = refl

six_bytes : utf8_length (0xFC ∷ []) any_type none ≡ inl (codes "6-byte length UTF-8 sequence")
unfolding utf8_length length_loop validate validate_first first_bits first_error
six_bytes = refl

control_character :
    utf8_length (b'a' ∷ 7 ∷ []) graphic (some (10 ∷ []))
    ≡ inl (codes "invalid Unicode codepoint (control)")
unfolding utf8_length length_loop validate validate_first validate_next first_bits second_range
    finish_byte allowed codepoint_type codepoint_type_lookup lookup_type lower_bound type_name
control_character = refl

whitelisted : utf8 (codes "a\nb") graphic (some (10 ∷ [])) ≡ true
unfolding utf8 utf8_length length_loop validate validate_first validate_next first_bits second_range
    finish_byte allowed codepoint_type codepoint_type_lookup lookup_type lower_bound
whitelisted = refl

format_character : codepoint_type 0x200D ≡ 2
unfolding codepoint_type codepoint_type_lookup lookup_type lower_bound
format_character = refl

recovered : (recover (validator any_type none) 0x82).0.valid ≡ false
unfolding recover
recovered = refl

utf8_length-encode_all_example :
    (utf8_length euro any_type none ≡ inr 1)
    ↔ ((cs : List ℕ) × (euro ≡ encode_all cs) × All (IsAllowed any_type none) cs × (length cs ≡ 1))
utf8_length-encode_all_example = utf8_length-encode_all any_type none euro 1 (omega arith)
