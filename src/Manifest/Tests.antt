-- ===== src/Manifest/Tests.antt =====
-- Runs of the manifest code.
use libbutl.Prelude.{◌≡◌, refl, inl, inr, List, [], ◌∷◌, ◌++◌, true, false, Bytes, codes, map}
use libbutl.Manifest.Comment.{
  merge_comment, split_comment, escape_chars, escape_lines, escape_line, separator_form, find_line,
  read_lines, read_line, read_single, split_single, skip_blanks, pop_back,
}
use libbutl.Manifest.Comment.RoundTrip.{split_comment-merge_comment}
use libbutl.Manifest.Pairs.{NameValue, pair, Stage, start, body, end}
use libbutl.Manifest.PairText.{normal_pair}
use libbutl.Manifest.RoundTrip.{after_manifest, parse_manifest-serialize_manifest}
use libbutl.Manifest.Serializer.{
  Serializer, serialize_manifest, write_pairs, write_next, write_at, write_start, write_body,
  check_name, name_loop, comment,
}
use libbutl.Manifest.Parser.{
  parser, parse_next, parse_manifest, parse_pair, parse_rest, parse_name, check_pair,
}
use libbutl.Manifest.Spaces.{skip_spaces, skip_spaces_loop}
use libbutl.Manifest.Value.{
  parse_value, introducer, value_loop, write_value, chunks, write_chunks, write_chunk, write_chars,
  break_here, next_blank,
}
use libbutl.Manifest.Value.Newlines.{newlines}
use libbutl.Manifest.Value.RoundTrip.{parse_value-write_value}
use libbutl.Unicode.{codepoint_type, codepoint_type_lookup, lookup_type, lower_bound}
use libbutl.Utf8.{
  validate, validate_first, first_bits, second_range, finish_byte, allowed, utf8_length,
  length_loop,
}

merged : merge_comment (codes "a;b\\") (codes "c") ≡ codes "a\\;b\\\\; c"
unfolding merge_comment escape_chars
merged = refl

-- A line that is only a semicolon is escaped.
merged_lines : merge_comment (codes "a\n;") (codes "c\nd") ≡ codes "a\n\\;\n;\nc\nd"
unfolding merge_comment escape_lines escape_line separator_form find_line
merged_lines = refl

split_lines : split_comment (codes "\\\\\\;\n;\nc") ≡ (codes "\\;", codes "c")
unfolding split_comment read_lines read_line find_line separator_form pop_back
split_lines = refl

split_spaces : split_comment (codes "a \\; b  ; c") ≡ (codes "a ; b", codes "c")
unfolding split_comment split_single read_single skip_blanks
split_spaces = refl

split_comment-merge_comment_example :
    split_comment (merge_comment (codes "a\n;\nb\n") (codes " c")) ≡ (codes "a\n;\nb\n", codes " c")
split_comment-merge_comment_example =
    split_comment-merge_comment (codes "a\n;\nb\n") (codes " c") (inl refl)

-- A value with a carriage return, a slash at the end of a line and one alone.
parsed_value :
    parse_value (codes "\n\\\na\\\\\n\\\\\nb\\\nc\n\\\nd") ≡ (codes "a\\\n\\\nbc", codes "\nd")
unfolding parse_value introducer value_loop
parsed_value = refl

written_value : write_value false (codes "a\r\nb\\") 3 ≡ inr (codes "\n\\\na\nb\\\\\n\\")
unfolding write_value chunks write_chunks write_chunk write_chars break_here next_blank validate
    validate_first first_bits second_range finish_byte allowed codepoint_type codepoint_type_lookup
    lookup_type lower_bound
written_value = refl

read_pair :
    parse_next (parser (codes "# c\n\n  a : b c \nd: e\n") body (codes "1"))
    ≡ inr (pair (codes "a") (codes "b c"), parser (codes "d: e\n") body (codes "1"))
unfolding parse_next parse_pair parse_rest parse_name check_pair skip_spaces_loop parse_value
    introducer value_loop
read_pair = refl

parse_value-write_value_example :
    parse_value (skip_spaces false (codes "\n\\\na\nb\\\\\n\\" ++ codes "\nd: e\n"))
    ≡ (codes "a\nb\\", codes "\nd: e\n")
unfolding newlines
parse_value-write_value_example =
    parse_value-write_value false b'a' (codes "\r\nb\\") 3 (codes "\n\\\na\nb\\\\\n\\")
      (codes "d: e\n") written_value

abbrev two_pairs : List NameValue
two_pairs = pair (codes "a") (codes "b\nc\\") ∷ pair (codes "d") [] ∷ []

abbrev two_pairs_text : Bytes
two_pairs_text = codes ": 1\na:\n\\\nb\nc\\\\\n\\\nd:\n"

abbrev empty_serializer : Bytes → Stage → Bytes → Serializer
empty_serializer o s v = record { output = o; stage = s; version = v; long_lines = false }

written_pairs :
    serialize_manifest (empty_serializer [] start []) two_pairs true
    ≡ inr (empty_serializer two_pairs_text end (codes "1"))
unfolding serialize_manifest write_pairs write_next write_at write_start write_body check_name
    name_loop write_value chunks write_chunks write_chunk write_chars break_here next_blank validate
    validate_first first_bits second_range finish_byte allowed codepoint_type codepoint_type_lookup
    lookup_type lower_bound
written_pairs = refl

commented :
    comment (empty_serializer [] start []) (codes "x")
    ≡ inr (empty_serializer (codes "# x\n") start [])
unfolding comment utf8_length length_loop validate validate_first first_bits second_range
    finish_byte allowed codepoint_type codepoint_type_lookup lookup_type lower_bound
commented = refl

parse_manifest-serialize_manifest_example :
    (w : Bytes) × (two_pairs_text ≡ w)
    × (parse_manifest (parser (w ++ codes ":\nx: y\n") start [])
        ≡ inr (map normal_pair two_pairs, after_manifest (codes ":\nx: y\n")))
parse_manifest-serialize_manifest_example =
    parse_manifest-serialize_manifest (empty_serializer [] start [])
      (empty_serializer two_pairs_text end (codes "1")) two_pairs true (codes ":\nx: y\n") refl
      (refl, (refl, tt)) refl written_pairs
