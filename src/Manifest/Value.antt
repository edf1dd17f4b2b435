-- ===== src/Manifest/Value.antt =====
-- `parse_value` of libbutl/manifest-parser.cxx and the two `write_value` of
-- libbutl/manifest-serializer.cxx.
--
-- The parser's text is what its scanner gives, where each line ends with a newline only. Lines and
-- columns are left out. What `unget` gives back stays at the front of the text.
use libbutl.Prelude.{
  ℕ, zero, suc, ◌+◌, Bool, true, false, not, ◌&&◌, ◌||◌, ◌⊎◌, inl, inr, Option, none, some, List,
  [], ◌∷◌, ◌++◌, ◌==◌, ltb, leb, if◌then◌else◌, Bytes, length, take, is_empty, codes,
}
use libbutl.Manifest.Spaces.{blank, starts_with_blank, ends_with_blank}
use libbutl.Unicode.{graphic}
use libbutl.Utf8.{Utf8Validator, validate, validator}
pub mod Written
pub mod Reading
pub mod Chunks
pub mod Newlines
pub mod RoundTrip

abbrev pub at_newline : Bytes → Bool
at_newline [] = false
at_newline (c ∷ s) = c == b'\n'

-- The next character is a newline or the end of the stream.
abbrev pub at_end : Bytes → Bool
at_end s = is_empty s || at_newline s

-- `get ()`, if there is a character.
abbrev pub rest_of : Bytes → Bytes
rest_of [] = []
rest_of (c ∷ s) = s

-- The loop of `parse_value`: whether in the multi-line mode, whether after a special newline, the
-- text, the value and the size up to its last character that is no space. The result has the value,
-- the size and the text that is left.
unfoldable pub value_loop : Bool → Bool → Bytes → Bytes → ℕ → Bytes × ℕ × Bytes
value_loop ml nl [] v n = (v, n, [])
value_loop ml nl (c ∷ []) v n =
    let literal_newline : Bytes × ℕ × Bytes = (v ++ b'\n' ∷ [], length (v ++ b'\n' ∷ []), []) in
    let character : Bytes × ℕ × Bytes =
      (v ++ c ∷ [], if not ml && not (blank c) then length (v ++ c ∷ []) else n, []) in
    if c == b'\\'
    then (if nl && not ml then literal_newline else (v, n, []))
    else if c == b'\n' && not ml
    then (v, n, c ∷ [])
    else character
value_loop ml nl (c ∷ d ∷ s) v n =
    let literal_newline = value_loop ml false s (v ++ b'\n' ∷ []) (length (v ++ b'\n' ∷ [])) in
    let newline = value_loop ml false (d ∷ s) (v ++ b'\n' ∷ []) n in
    let special = value_loop ml true s v n in
    let slash_end = value_loop ml false s (v ++ b'\\' ∷ []) (length (v ++ b'\\' ∷ [])) in
    let slash = value_loop ml false (d ∷ s) (v ++ b'\\' ∷ []) (length (v ++ b'\\' ∷ [])) in
    let character =
      value_loop ml false (d ∷ s) (v ++ c ∷ [])
        (if not ml && not (blank c) then length (v ++ c ∷ []) else n) in
    if nl && c == b'\\' && d == b'\n'
    then (if ml then (v, n, d ∷ s) else literal_newline)
    else if c == b'\n'
    then (if not ml
        then (v, n, c ∷ d ∷ s)
        else if d == b'\\'
        then (if at_end s then (v, n, s) else newline)
        else character)
    else if c == b'\\'
    then (if d == b'\n'
        then special
        else if d == b'\\'
        then (if at_newline s then slash_end else slash)
        else character)
    else character

-- The multi-line mode introducer at the start of a value, old-fashioned or new-fashioned: the text
-- after it.
unfoldable pub introducer : Bytes → Option Bytes
introducer [] = none
introducer (c ∷ s) =
    if c == b'\\'
    then (if at_end s then some (rest_of s) else none)
    else if c == b'\n'
    then elim s [ [] ↦ none | d ∷ t ↦ if d == b'\\' && at_end t then some (rest_of t) else none ]
    else none

-- `parse_value`: the value and the text that is left.
unfoldable pub parse_value : Bytes → Bytes × Bytes
parse_value s = elim (introducer s) [
  | none ↦ (let r = value_loop false false s [] 0 in (take r.1 r.0, r.2))
  | some t ↦ (let r = value_loop true true t [] 0 in (r.0, r.2))
]

-- The distance `w - s` from a space to the next one or to the end, and whether it is the end.
unfoldable pub next_blank : Bytes → ℕ × Bool
next_blank [] = (1, true)
next_blank (c ∷ s) = let r = next_blank s in if blank c then (1, false) else (suc r.0, r.1)

-- `br`: break the line before this character.
unfoldable pub break_here : ℕ → ℕ → Bytes → Bool
break_here cl c s =
    let w = next_blank s in
    (blank c && ltb (if w.1 then 78 else 77) (cl + w.0) && ltb 57 cl)
    || leb (if is_empty s then 78 else 77) cl

abbrev pub with_text : Bytes → Bytes ⊎ Bytes → Bytes ⊎ Bytes
with_text t (inl e) = inl e
with_text t (inr s) = inr (t ++ s)

-- `write_value (const char*, size_t, size_t)`: the error's description or the text that is written.
-- The arguments are `long_lines_`, the validator, the previous character, whether a UTF-8 sequence
-- begins here, the column and the value.
unfoldable pub write_chars : Bool → Utf8Validator → ℕ → Bool → ℕ → Bytes → Bytes ⊎ Bytes
write_chars long val pc b cl [] =
    if not b
    then inl (codes "invalid value: incomplete UTF-8 sequence")
    else inr (if pc == b'\\' then b'\\' ∷ [] else [])
write_chars long val pc b cl (c ∷ s) =
    let p = validate val c in
    let br = not (pc == b'\\') && b && not long && break_here cl c s in
    let column = if br then 0 else cl in
    let rest = write_chars long p.1 c p.0.last (if p.0.last then suc column else column) s in
    if not p.0.valid
    then inl (codes "invalid value: " ++ p.0.what)
    else with_text ((if br then b'\\' ∷ b'\n' ∷ [] else []) ++ c ∷ []) rest

-- The validator of names and values.
abbrev pub graphic_validator : Utf8Validator
graphic_validator = validator graphic (some (b'\n' ∷ b'\r' ∷ b'\t' ∷ []))

unfoldable pub write_chunk : Bool → Bytes → ℕ → Bytes ⊎ Bytes
write_chunk long s cl = write_chars long graphic_validator 0 true cl s

-- The fragments of a value between its line separators `\r`, `\n` and `\r\n`.
abbrev pub cons_first : ℕ → List Bytes → List Bytes
cons_first c [] = (c ∷ []) ∷ []
cons_first c (l ∷ ls) = (c ∷ l) ∷ ls

unfoldable pub chunks : Bytes → List Bytes
chunks [] = [] ∷ []
chunks (c ∷ s) =
    let r = chunks s in
    if c == b'\r' && at_newline s
    then r
    else if c == b'\r' || c == b'\n'
    then [] ∷ r
    else cons_first c r

abbrev pub then_text : Bytes ⊎ Bytes → Bytes ⊎ Bytes → Bytes ⊎ Bytes
then_text (inl e) r = inl e
then_text (inr t) r = with_text t r

-- The loop over the chunks; there is always one.
unfoldable pub write_chunks : Bool → List Bytes → Bytes ⊎ Bytes
write_chunks long [] = inr []
write_chunks long (l ∷ []) = write_chunk long l 0
write_chunks long (l ∷ m ∷ ls) =
    then_text (write_chunk long l 0) (with_text (b'\n' ∷ []) (write_chunks long (m ∷ ls)))

abbrev pub has_newline : Bytes → Bool
has_newline [] = false
has_newline (c ∷ s) = c == b'\r' || c == b'\n' || has_newline s

-- `write_value (const string&, size_t)`.
unfoldable pub write_value : Bool → Bytes → ℕ → Bytes ⊎ Bytes
write_value long v cl =
    if ltb 39 (cl + 1) || has_newline v || starts_with_blank v || ends_with_blank v
    then with_text (b'\n' ∷ b'\\' ∷ b'\n' ∷ [])
        (then_text (write_chunks long (chunks v)) (inr (b'\n' ∷ b'\\' ∷ [])))
    else with_text (b' ' ∷ []) (write_chunk long v (cl + 1))
