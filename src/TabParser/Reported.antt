-- ===== src/TabParser/Reported.antt =====
-- What libbutl/tab-parser.hxx promises for one line, as an independent description of it: which
-- lines are skipped, and what a line is reported as.
use libbutl.Prelude.{
  ℕ, suc, ◌≡◌, ◌≢◌, refl, ap, Bool, true, false, ◌||◌, List, [], ◌∷◌, Bytes, length, map, codes,
  ◌==◌, if◌then◌else◌, Bool-cases, inl, inr,
}
use libbutl.StringParser.{
  Parse, strings, invalid_string, out_of_fuel, parse_quoted_position, parse_quoted_position-ends,
}
use libbutl.TabParser.Reader.{
  TabField, Next, end_of_stream, next_fields, throw, empty_line, field_of, line_result,
}

-- The text behind the leading spaces and tabs.
abbrev pub trim_left : Bytes → Bytes
trim_left [] = []
trim_left (c ∷ s) = let rest = trim_left s in if c == b' ' || c == b'\t' then rest else c ∷ s

-- A blank line or a comment.
abbrev pub starts_comment : Bytes → Bool
starts_comment [] = true
starts_comment (c ∷ s) = c == b'#'

abbrev pub is_skipped : Bytes → Bool
is_skipped l = starts_comment (trim_left l)

-- Columns are counted from one.
abbrev pub fields_of : List (Bytes × ℕ) → List TabField
fields_of [] = []
fields_of (s ∷ sp) = record { value = s.0; column = suc s.1 } ∷ fields_of sp

-- The fields of a line or its error. The parser of quoted strings never ends in the last way.
abbrev pub report : Bytes → ℕ → Bytes → Parse (Bytes × ℕ) → Next
report name line l (strings sp) =
    next_fields (record { fields = fields_of sp; line = line; end_column = suc (length l) })
report name line l (invalid_string p) = throw (record {
  name = name;
  line = line;
  column = suc p;
  description = codes "unterminated quoted string";
})
report name line l out_of_fuel = end_of_stream

abbrev pub reported : Bytes → ℕ → Bytes → Next
reported name line l = report name line l (parse_quoted_position l false false)

pub empty_line-is_skipped : (l : Bytes) → empty_line l ≡ is_skipped l
unfolding empty_line
empty_line-is_skipped [] = refl
empty_line-is_skipped (c ∷ s) = elim (Bool-cases (c == 32 || c == 9)) [
  | inl e ↦ rw e (empty_line-is_skipped s)
  | inr e ↦ rw e refl
]

map-field_of : (sp : List (Bytes × ℕ)) → map field_of sp ≡ fields_of sp
unfolding field_of
map-field_of [] = refl
map-field_of (s ∷ sp) = ap (λ fs. record { value = s.0; column = suc s.1 } ∷ fs) (map-field_of sp)

line_result-report :
    (name : Bytes) (line : ℕ) (l : Bytes) (p : Parse (Bytes × ℕ))
    → p ≢ out_of_fuel
    → line_result name line l p ≡ report name line l p
unfolding line_result
line_result-report name line l (strings sp) h =
    ap (λ fs. next_fields (record { fields = fs; line = line; end_column = suc (length l) }))
      (map-field_of sp)
line_result-report name line l (invalid_string p) h = refl
line_result-report name line l out_of_fuel h = absurd (h refl)

pub line_result-reported :
    (name : Bytes) (line : ℕ) (l : Bytes)
    → line_result name line l (parse_quoted_position l false false) ≡ reported name line l
line_result-reported name line l =
    line_result-report name line l (parse_quoted_position l false false)
      (parse_quoted_position-ends l false false)
