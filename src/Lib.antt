-- ===== src/Lib.antt =====
-- libbutl, the utility library of the build2 toolchain: a model of parts of its code with
-- theorems.
--
-- The library is a set of components that mostly stand alone. Modelled here are those that read
-- and write texts: versions and version constraints, Base64, paths, wildcard patterns, project
-- names, the parsers of quoted strings and of tables, UTF-8, target triplets, the hosts of URLs,
-- maps with keys that are prefixes, and the parser and the serializer of manifests. The standard
-- version's parser calls the number parser, a version constraint calls the parser, the printer and
-- the comparison of versions, and the table parser calls the string parser for each line. The
-- manifest's serializer calls the UTF-8 validator, which calls the Unicode tables.
--
-- - Prelude: lists of bytes measured by native numbers, Boolean tests, results with exceptions
--   (`Result`, `throw_if`), the three-way comparison, and facts on bits and bytes from tables.
-- - Base64 (libbutl/base64.cxx): `encode` and `encode_url` are base64_encode and base64url_encode
--   of a vector, with the line break after every 76 characters; `decode` is base64_decode. The
--   shifts and masks of a group are the source's. Lines has a text in lines of 76 characters,
--   `wrap`, for comparison.
-- - Number (libbutl/standard-version.cxx): parse_uint64, parse_uint16 and parse_uint32 over a
--   model of the C library's strtoull in base 10 (white space, sign, overflow), and
--   std::to_string.
-- - SemanticVersion (libbutl/semantic-version.hxx, .ixx and .cxx): `parse` is
--   parse_semantic_version_impl, `print` is string, `numeric` and `of_numeric` convert from and to
--   the number AAAAABBBBBCCCCC0000, and `compare`.
-- - StandardVersion (libbutl/standard-version.hxx, .ixx and .cxx): Parser is parse_snapshot and
--   parse_version, Printer is string_pre_release, string_version, string_snapshot and string,
--   Check holds the invariants that check_version and the constructors keep, Components the
--   constructor from the components of a snapshot, Fields the accessors, Order the comparison.
--   Constraint is standard_version_constraint, with its parser, its printer and satisfies. A
--   parsing iterator is the text that it points to.
-- - PathPattern (libbutl/path-pattern.hxx, .ixx and .cxx): Terms is path_pattern_iterator and
--   match_bracket, Matcher is match_no_brackets, match and path_match of a name. Reference is the
--   straightforward matcher that they are compared with.
-- - Path (libbutl/path.hxx, .ixx and .txx): Traits is path_traits, with a position in a text as
--   the two texts around it, Data is path_data (`BasicPath`), any_path_kind and dir_path_kind,
--   Operations is leaf, directory, base, extension, combine_impl, both operator/=, combine,
--   try_relative and relative, Normalize is normalize, and Iterator the iterator over components.
--   Resolve says what a path denotes in a tree without links, and Refused which paths normalize
--   refuses. The loop of try_relative gives no result when it runs out of fuel.
-- - PrefixMap (libbutl/prefix-map.hxx and .txx): Keys is compare_prefix for strings, Search is
--   find_sup and find_sup_if. A map is its list of entries, past the end is none.
-- - ProjectName (libbutl/project-name.cxx): the constructor of project_name, base and extension,
--   with find_extension of libbutl/path.hxx and the character classes of libbutl/utility.ixx.
-- - StringParser (libbutl/string-parser.cxx): parse_quoted_position, parse_quoted and unquote.
-- - TabParser (libbutl/tab-parser.hxx and .cxx): tab_parser::next on the text that the stream has
--   left, in Reader. Reported describes independently which lines are skipped and what a line is
--   reported as.
-- - Unicode (libbutl/unicode.hxx, .ixx and .cxx): the tables of codepoint types and
--   codepoint_type.
-- - Utf8 (libbutl/utf8.hxx and .ixx, libbutl/utility.ixx): Validator is utf8_validator with its
--   messages and recover, and utf8_length and utf8. Encoding is UTF-8 as the Unicode standard
--   defines it, by arithmetic on scalar values.
-- - Manifest (libbutl/manifest-types.hxx, libbutl/manifest-parser.{hxx,cxx} and
--   libbutl/manifest-serializer.{hxx,cxx}): Parser is parse_next with its three stages, parse_name
--   and parse_manifest, Spaces is skip_spaces, Serializer is write_next, write_name, comment and
--   serialize_manifest, Value is parse_value and both write_value (its Newlines is what they keep
--   of line separators), and Comment is split_comment and merge_comment. The parser's text is what
--   its character scanner gives, with newlines only at the ends of lines; lines, columns and
--   positions are left out, and no filter is set.
-- - TargetTriplet (libbutl/target-triplet.hxx and .cxx): the constructor, string, representation
--   and compare. A position in the string is the text that follows it.
-- - Url (libbutl/url.hxx and .txx, for char): Codec is the character classes, encode and decode
--   with their callbacks, Host the constructor and string of basic_url_host, and Normalize its
--   normalize.
--
-- A std::string is the list of its bytes. A number of w bits is a natural number; where the code
-- relies on its width, the bound is a hypothesis or the wrap-around is written out. An exception
-- is a value: the error of a `Result`, or a constructor of the component's own type where it
-- carries a position. `char` is signed, `/` is the only directory separator and names are case
-- sensitive.
--
-- Loops are structural recursion where they can be. The recursions on fuel are those of the path
-- matcher and of the term iterator, which start with one more than the length of the pattern, of
-- parse_quoted_position, which starts with one more than the length of the text, of
-- tab_parser::next, likewise, of merge_comment and split_comment over the lines of a text, of
-- parse_manifest over its pairs, and of try_relative and of find_sup and find_sup_if, which start
-- with one more than the length of the directory and of the key. Each turn of theirs makes the
-- pattern, the text, the directory or the key shorter, so the fuel suffices.
--
-- Not modelled are the stream overloads of Base64, path search and the match of paths against a
-- directory tree, and the components that are calls of the system or of other programs, wrappers
-- of third-party code or generated: files, processes, streams, builtins, checksums, compression
-- and regular expressions. The manifest rewriter and the character scanner, validate_value_utf8,
-- and the uuid component are not modelled, and neither are the authority and the rest of a URL,
-- and of paths the current, home and temporary directories, the operations that read the file
-- system and the Windows variants, and of prefix maps find_sub and the multimap.
pub mod Path
pub mod PathPattern
pub mod Prelude
pub mod Base64
pub mod Manifest
pub mod Number
pub mod PrefixMap
pub mod ProjectName
pub mod SemanticVersion
pub mod StandardVersion
pub mod StringParser
pub mod TabParser
pub mod TargetTriplet
pub mod Unicode
pub mod Url
pub mod Utf8
