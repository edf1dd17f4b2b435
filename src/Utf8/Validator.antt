-- ===== src/Utf8/Validator.antt =====
-- The validator as a state machine over bytes.
use libbutl.Prelude.{
  ℕ, suc, Bool, true, false, ◌&&◌, ◌||◌, not, Option, none, some, List, [], ◌∷◌, ◌++◌, ◌==◌, ltb,
  leb, ◌⊎◌, inl, inr, if◌then◌else◌, bit_and, bit_or, shl, shr, Bytes, codes, get_or, has_byte,
}
use libbutl.Unicode.{
  CodepointTypes, codepoint_type, any_type, no_type, graphic, format_type, control, private_use,
  non_character, reserved,
}

-- `to_string` of a single codepoint type.
unfoldable pub type_name : CodepointTypes → Bytes
type_name t =
    if t == graphic
    then codes "graphic"
    else if t == format_type
    then codes "format"
    else if t == control
    then codes "control"
    else if t == private_use
    then codes "private-use"
    else if t == non_character
    then codes "noncharacter"
    else if t == reserved
    then codes "reserved"
    else []

-- `utf8_validator`, with the whitelist as a list of codepoints if there is one.
pub record Utf8Validator : Type 0 where
  pub types : CodepointTypes
  pub whitelist : Option (List ℕ)
  pub seq_size : ℕ
  pub seq_index : ℕ
  pub codepoint : ℕ
  pub byte2_first : ℕ
  pub byte2_last : ℕ

-- The constructor; the members that it leaves unset are 0 here, and are set before they are read.
abbrev pub validator : CodepointTypes → Option (List ℕ) → Utf8Validator
validator ts wl = record {
  types = ts;
  whitelist = wl;
  seq_size = 0;
  seq_index = 0;
  codepoint = 0;
  byte2_first = 0;
  byte2_last = 0;
}

-- What `validate` returns: whether the byte is valid, whether it is the last of a codepoint, and
-- the description in `*what`.
pub record Verdict : Type 0 where
  pub valid : Bool
  pub last : Bool
  pub what : Bytes

abbrev pub verdict : Bool → Bool → Bytes → Verdict
verdict v l w = record { valid = v; last = l; what = w }

abbrev pub hex_digit : ℕ → ℕ
hex_digit n = get_or (codes "0123456789ABCDEF") n 0

abbrev pub byte_name : ℕ → Bytes
byte_name i =
    if i == 0
    then codes "first"
    else if i == 1
    then codes "second"
    else if i == 2
    then codes "third"
    else codes "forth"

-- `byte_error`.
unfoldable pub byte_error : ℕ → ℕ → Bytes
byte_error i b =
    codes "invalid UTF-8 sequence "
    ++ byte_name i
    ++ codes " byte (0x"
    ++ hex_digit (bit_and (shr b 4) 0xF) ∷ hex_digit (bit_and b 0xF) ∷ []
    ++ (if leb 0x20 b && leb b 0x7E then codes " '" ++ b ∷ codes "'" else [])
    ++ codes ")"

-- The length of the sequence and the first bits of the codepoint, by the first byte.
unfoldable pub first_bits : ℕ → Option (ℕ × ℕ)
first_bits b =
    if ltb b 0x80
    then some (1, b)
    else if ltb b 0xE0
    then some (2, bit_and b 0x1F)
    else if ltb b 0xF0
    then some (3, bit_and b 0xF)
    else if ltb b 0xF8
    then some (4, bit_and b 0x7)
    else none

-- The error for a byte that starts no sequence.
unfoldable pub first_error : ℕ → Bytes
first_error b =
    if ltb b 0xFE
    then (if ltb b 0xFC then codes "5" else codes "6") ++ codes "-byte length UTF-8 sequence"
    else byte_error 0 b

abbrev pub belongs : ℕ → ℕ → ℕ → Bool
belongs c l r = leb l c && leb c r

-- The range of the second byte by the first, if the first byte is well-formed. A sequence of one
-- byte leaves the range as it is.
unfoldable pub second_range : ℕ → ℕ → ℕ × ℕ → Option (ℕ × ℕ)
second_range size b range =
    if size == 1
    then some range
    else if size == 2
    then (if belongs b 0xC2 0xDF then some (0x80, 0xBF) else none)
    else if size == 3
    then (if b == 0xE0
        then some (0xA0, 0xBF)
        else if belongs b 0xE1 0xEC
        then some (0x80, 0xBF)
        else if b == 0xED
        then some (0x80, 0x9F)
        else if belongs b 0xEE 0xEF
        then some (0x80, 0xBF)
        else none)
    else if b == 0xF0
    then some (0x90, 0xBF)
    else if belongs b 0xF1 0xF3
    then some (0x80, 0xBF)
    else if b == 0xF4
    then some (0x80, 0x8F)
    else none

-- A codepoint that is decoded: is it whitelisted, or of one of the types?
unfoldable pub allowed : CodepointTypes → Option (List ℕ) → ℕ → Bool
allowed ts wl c =
    ts == any_type
    || elim wl [ none ↦ false | some w ↦ has_byte c w ]
    || not (bit_and (codepoint_type c) ts == no_type)

-- The end of `validate`, at a byte of a well-formed sequence that is counted already.
unfoldable pub finish_byte : Utf8Validator → Verdict × Utf8Validator
finish_byte v = if not (v.seq_index == v.seq_size) then (verdict true false [], v) else (
  if allowed v.types v.whitelist v.codepoint
      then verdict true true []
      else verdict false true (
          codes "invalid Unicode codepoint ("
          ++ type_name (codepoint_type v.codepoint)
          ++ codes ")"),
  record v { seq_index = 0 },
)

-- The first byte of a sequence.
unfoldable pub validate_first : Utf8Validator → ℕ → Verdict × Utf8Validator
validate_first v b = elim (first_bits b) [
  | none ↦ (verdict false false (first_error b), v)
  | some f ↦ elim (second_range f.0 b (v.byte2_first, v.byte2_last)) [
    | none ↦ (verdict false false (byte_error 0 b), record v { seq_size = f.0; codepoint = f.1 })
    | some r ↦ finish_byte (record v {
      seq_size = f.0;
      codepoint = f.1;
      byte2_first = r.0;
      byte2_last = r.1;
      seq_index = 1;
    })
  ]
]

-- Another byte.
unfoldable pub validate_next : Utf8Validator → ℕ → Verdict × Utf8Validator
validate_next v b =
    if (if v.seq_index == 1 then belongs b v.byte2_first v.byte2_last else belongs b 0x80 0xBF)
    then finish_byte (record v {
      codepoint = bit_or (shl v.codepoint 6) (bit_and b 0x3F);
      seq_index = suc v.seq_index;
    })
    else (verdict false false (byte_error v.seq_index b), v)

unfoldable pub validate : Utf8Validator → ℕ → Verdict × Utf8Validator
validate v b = if v.seq_index == 0 then validate_first v b else validate_next v b

-- `recover`.
unfoldable pub recover : Utf8Validator → ℕ → Verdict × Utf8Validator
recover v b =
    if bit_and b 0xC0 == 0x80
    then (verdict false false [], v)
    else validate (record v { seq_index = 0 }) b

-- The loop of `utf8_length_impl`, with the count and the last verdict's second part.
unfoldable pub length_loop : Utf8Validator → ℕ → Bool → Bytes → Bytes ⊎ ℕ
length_loop v r last [] = if last then inr r else inl (codes "incomplete UTF-8 sequence")
length_loop v r last (c ∷ s) =
    let p = validate v c in
    let rest = length_loop p.1 (if p.0.last then suc r else r) p.0.last s in
    if p.0.valid then rest else inl p.0.what

-- `utf8_length_impl`: the error's description or the number of codepoints.
unfoldable pub utf8_length : Bytes → CodepointTypes → Option (List ℕ) → Bytes ⊎ ℕ
utf8_length [] ts wl = inr 0
utf8_length (c ∷ s) ts wl = length_loop (validator ts wl) 0 false (c ∷ s)

-- `utf8`.
unfoldable pub utf8 : Bytes → CodepointTypes → Option (List ℕ) → Bool
utf8 s ts wl = elim (utf8_length s ts wl) [ inl e ↦ false | inr n ↦ true ]
