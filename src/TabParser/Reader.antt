-- ===== src/TabParser/Reader.antt =====
-- The operations of libbutl/tab-parser.cxx.
use libbutl.Prelude.{
  ℕ, zero, suc, Bool, true, false, ◌||◌, List, [], ◌∷◌, ◌++◌, map, ◌==◌, if◌then◌else◌, Bytes,
  length, codes, is_empty,
}
use libbutl.Number.{to_string}
use libbutl.StringParser.{Parse, strings, invalid_string, out_of_fuel, parse_quoted_position}

-- `tab_field`.
pub record TabField : Type 0 where
  pub value : Bytes
  pub column : ℕ

-- `tab_fields`, a vector with two members more.
pub record TabFields : Type 0 where
  pub fields : List TabField
  pub line : ℕ
  pub end_column : ℕ

-- `tab_parsing`, the exception.
pub record TabParsing : Type 0 where
  pub name : Bytes
  pub line : ℕ
  pub column : ℕ
  pub description : Bytes

-- What `next` produces. At the end of the stream the members of the empty result are not set.
pub data Next : Type 0 where
  end_of_stream unfinished : Next
  next_fields : TabFields → Next
  throw : TabParsing → Next

-- `tab_parser`: the stream, the name and the line number.
pub record TabParser : Type 0 where
  pub input : Bytes
  pub name : Bytes
  pub line : ℕ

-- The message of the exception, `format`.
unfoldable pub format : Bytes → ℕ → ℕ → Bytes → Bytes
format n l c d =
    (if is_empty n then [] else n ++ codes ":")
    ++ to_string l
    ++ codes ":"
    ++ to_string c
    ++ codes ": error: "
    ++ d

-- `getline`: the line without its newline, and the text after it.
unfoldable pub getline : Bytes → Bytes × Bytes
getline [] = ([], [])
getline (c ∷ s) = let r = getline s in if c == 10 then ([], s) else (c ∷ r.0, r.1)

-- Skip spaces, then `i == e || *i == '#'`.
unfoldable pub empty_line : Bytes → Bool
empty_line [] = true
empty_line (c ∷ s) = let rest = empty_line s in if c == 32 || c == 9 then rest else c == 35

-- A field from its string and position.
unfoldable pub field_of : Bytes × ℕ → TabField
field_of s = record { value = s.0; column = suc s.1 }

-- The result for a line that is not empty.
unfoldable pub line_result : Bytes → ℕ → Bytes → Parse (Bytes × ℕ) → Next
line_result name line s (strings sp) =
    next_fields (record { fields = map field_of sp; line = line; end_column = suc (length s) })
line_result name line s (invalid_string p) = throw (record {
  name = name;
  line = line;
  column = suc p;
  description = codes "unterminated quoted string";
})
line_result name line s out_of_fuel = unfinished

-- Read lines until one is not empty.
unfoldable pub next_loop : ℕ → Bytes → ℕ → Bytes → Next × TabParser
next_loop n name line [] = (end_of_stream, record { input = []; name = name; line = line })
next_loop zero name line (c ∷ s) = (unfinished, record { input = c ∷ s; name = name; line = line })
next_loop (suc n) name line (c ∷ s) =
    let r = getline (c ∷ s) in
    let rest = next_loop n name (suc line) r.1 in
    if empty_line r.0 then rest else (
      line_result name (suc line) r.0 (parse_quoted_position r.0 false false),
      record { input = r.1; name = name; line = suc line },
    )

-- `tab_parser::next`.
unfoldable pub next : TabParser → Next × TabParser
next p = next_loop (suc (length p.input)) p.name p.line p.input
