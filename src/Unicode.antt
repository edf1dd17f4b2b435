-- ===== src/Unicode.antt =====
-- libbutl/unicode.{hxx,ixx,cxx}: the types of Unicode codepoints.
use libbutl.Prelude.{
  ℕ, Bool, false, ◌&&◌, ◌||◌, Option, none, some, List, [], ◌∷◌, ltb, leb, if◌then◌else◌, bit_and,
}

-- `codepoint_types`, a set of bits.
abbrev pub CodepointTypes : Type 0
CodepointTypes = ℕ

abbrev pub no_type : CodepointTypes
no_type = 0x00

abbrev pub graphic : CodepointTypes
graphic = 0x01

abbrev pub format_type : CodepointTypes
format_type = 0x02

abbrev pub control : CodepointTypes
control = 0x04

abbrev pub private_use : CodepointTypes
private_use = 0x08

abbrev pub non_character : CodepointTypes
non_character = 0x10

abbrev pub reserved : CodepointTypes
reserved = 0x20

abbrev pub any_type : CodepointTypes
any_type = 0x3F

-- `codepoint_range`.
abbrev pub CodepointRange : Type 0
CodepointRange = ℕ × ℕ

abbrev pub cn_rs : List CodepointRange
cn_rs = (0x00, 0x1F) ∷ (0x7F, 0x9F) ∷ []

abbrev pub fr_rs : List CodepointRange
fr_rs =
    (0x000AD, 0x000AD)
    ∷ (0x00600, 0x00605)
    ∷ (0x0061C, 0x0061C)
    ∷ (0x006DD, 0x006DD)
    ∷ (0x0070F, 0x0070F)
    ∷ (0x008E2, 0x008E2)
    ∷ (0x0180E, 0x0180E)
    ∷ (0x0200B, 0x0200F)
    ∷ (0x0202A, 0x0202E)
    ∷ (0x02060, 0x02064)
    ∷ (0x02066, 0x0206F)
    ∷ (0x0FEFF, 0x0FEFF)
    ∷ (0x0FFF9, 0x0FFFB)
    ∷ (0x110BD, 0x110BD)
    ∷ (0x110CD, 0x110CD)
    ∷ (0x13430, 0x13438)
    ∷ (0x1BCA0, 0x1BCA3)
    ∷ (0x1D173, 0x1D17A)
    ∷ (0xE0001, 0xE0001)
    ∷ (0xE0020, 0xE007F)
    ∷ []

abbrev pub pr_rs : List CodepointRange
pr_rs = (0x00E000, 0x00F8FF) ∷ (0x0F0000, 0x10FFFF) ∷ []

abbrev pub nc_rs : List CodepointRange
nc_rs = (0xFDD0, 0xFDEF) ∷ []

abbrev pub rs_rs : List CodepointRange
rs_rs = (0x30000, 0xE0000) ∷ (0xE0002, 0xE001F) ∷ (0xE0080, 0xE00FF) ∷ (0xE01F0, 0xEFFFF) ∷ []

-- `ct_ranges`.
abbrev pub ct_ranges : List (CodepointTypes × List CodepointRange)
ct_ranges =
    (control, cn_rs)
    ∷ (format_type, fr_rs)
    ∷ (private_use, pr_rs)
    ∷ (non_character, nc_rs)
    ∷ (reserved, rs_rs)
    ∷ []

-- `lower_bound`: the first range that does not lie to the left of the codepoint.
unfoldable pub lower_bound : List CodepointRange → ℕ → Option CodepointRange
lower_bound [] c = none
lower_bound (r ∷ rs) c = let rest = lower_bound rs c in if ltb r.1 c then rest else some r

-- `r != rs.end && r->first <= c`.
abbrev pub contains : Option CodepointRange → ℕ → Bool
contains none c = false
contains (some r) c = leb r.0 c

-- The loop of `codepoint_type_lookup`.
unfoldable pub lookup_type : List (CodepointTypes × List CodepointRange) → ℕ → CodepointTypes
lookup_type [] c = graphic
lookup_type (t ∷ ts) c =
    let rest = lookup_type ts c in if contains (lower_bound t.1 c) c then t.0 else rest

unfoldable pub codepoint_type_lookup : ℕ → CodepointTypes
codepoint_type_lookup c = lookup_type ct_ranges c

unfoldable pub codepoint_type : ℕ → CodepointTypes
codepoint_type c =
    if leb 0x20 c && leb c 0x7E
    then graphic
    else if ltb 0x10FFFF c || (leb 0xD800 c && leb c 0xDFFF)
    then no_type
    else if leb 0xFFFE (bit_and c 0xFFFF)
    then non_character
    else codepoint_type_lookup c
