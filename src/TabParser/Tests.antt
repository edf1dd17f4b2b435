-- ===== src/TabParser/Tests.antt =====
-- Runs of libbutl/tab-parser.cxx.
use libbutl.Prelude.{◌≡◌, refl, List, [], ◌∷◌, Bytes, codes}
use libbutl.Number.{to_string}
use libbutl.StringParser.{
  parse_quoted_position, parse_loop, parse_next, skip_spaces, read_string, finish,
}
use libbutl.TabParser.{
  format, next_fields, next, unlines, first_fields, parser_at, next-unlines, next_carriage_return,
}

-- A blank line, a comment and a line of two fields.
abbrev table : List Bytes
table = codes "  " ∷ codes "# x" ∷ codes "a 'b c'" ∷ []

next-unlines_example :
    next (record { input = unlines table; name = codes "tab"; line = 0 })
    ≡ parser_at (codes "tab") (first_fields (codes "tab") 0 table)
next-unlines_example = next-unlines (codes "tab") 0 table (refl, (refl, (refl, tt)))

next_carriage_return_example :
    next (record { input = codes "\r\na b\n"; name = codes "tab"; line = 0 }) ≡ (
      next_fields (record { fields = []; line = 1; end_column = 2 }),
      record { input = codes "a b\n"; name = codes "tab"; line = 1 },
    )
next_carriage_return_example = next_carriage_return (codes "tab") (codes "a b\n") 0

message : format (codes "tab") 3 10 (codes "x") ≡ codes "tab:3:10: error: x"
unfolding format to_string
message = refl

-- The third line, with its two fields.
reported_table : first_fields (codes "tab") 0 table ≡ (
  next_fields (record {
    fields =
        record { value = codes "a"; column = 1 }
        ∷ record { value = codes "'b c'"; column = 3 }
        ∷ [];
    line = 3;
    end_column = 8;
  }),
  [],
  3,
)
unfolding first_fields parse_quoted_position parse_loop parse_next skip_spaces read_string finish
reported_table = refl
