-- ===== src/StringParser/Tests.antt =====
-- Runs of libbutl/string-parser.cxx.
use libbutl.Prelude.{◌≡◌, ◌≢◌, refl, true, false, List, [], ◌∷◌, Bytes, codes}
use libbutl.StringParser.{
  strings, invalid_string, out_of_fuel, map_strings, parse_quoted_position, parse_quoted,
  parse_loop, parse_next, skip_spaces, skip_comment, read_string, finish, unquote, unquote_from,
  unquote_all, quote_all, parse_quoted_position-unquote, parse_quoted_position-ends,
  parse_quoted-quote_all,
}

-- Three strings, two of them with a quoted part.
abbrev command_line : Bytes
command_line = codes "cxx -D'A B' \"x y\""

command_line_strings :
    parse_quoted_position command_line true false
    ≡ strings ((codes "cxx", 0) ∷ (codes "-DA B", 4) ∷ (codes "x y", 12) ∷ [])
unfolding parse_quoted_position parse_loop parse_next skip_spaces read_string finish
command_line_strings = refl

-- A comment line between two strings.
commented : parse_quoted (codes "a\n # b 'c\nd") true true ≡ strings (codes "a" ∷ codes "d" ∷ [])
unfolding parse_quoted parse_quoted_position parse_loop parse_next skip_spaces skip_comment
    read_string finish
commented = refl

-- An open quote is reported at the end of the text.
open_quote : parse_quoted_position (codes "a 'b") true false ≡ invalid_string 4
unfolding parse_quoted_position parse_loop parse_next skip_spaces read_string finish
open_quote = refl

unquoted : unquote_all (codes "-D'A B'" ∷ codes "x" ∷ []) ≡ codes "-DA B" ∷ codes "x" ∷ []
unfolding unquote_all unquote unquote_from
unquoted = refl

parse_quoted_position-unquote_example :
    parse_quoted_position command_line true false
    ≡ map_strings (λ sp. (unquote sp.0, sp.1)) (parse_quoted_position command_line false false)
parse_quoted_position-unquote_example = parse_quoted_position-unquote command_line false

parse_quoted_position-ends_example : parse_quoted_position command_line true false ≢ out_of_fuel
parse_quoted_position-ends_example = parse_quoted_position-ends command_line true false

abbrev words : List Bytes
words = codes "a b" ∷ codes "#'c" ∷ [] ∷ []

parse_quoted-quote_all_example : parse_quoted (quote_all words) true true ≡ strings words
parse_quoted-quote_all_example = parse_quoted-quote_all words true (refl, (refl, (refl, tt)))
