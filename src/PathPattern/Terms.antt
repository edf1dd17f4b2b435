-- ===== src/PathPattern/Terms.antt =====
-- The terms of a pattern: `path_pattern_iterator`, `match_bracket` and the predicates.
use libbutl.Prelude.{
  ℕ, zero, suc, ◌+◌, ◌%◌, Bool, true, false, not, ◌&&◌, ◌||◌, Option, none, some, [], ◌∷◌, ◌++◌,
  ◌==◌, ltb, if◌then◌else◌, Bytes, length,
}

-- `path_pattern_term_type`.
pub data TermType : Type 0 where
  literal question star bracket : TermType

-- `path_pattern_term`, with the text of the term.
pub record PathPatternTerm : Type 0 where
  pub kind : TermType
  pub text : Bytes

abbrev pub is_star : TermType → Bool
is_star star = true
is_star literal = false
is_star question = false
is_star bracket = false

abbrev pub is_literal : TermType → Bool
is_literal literal = true
is_literal star = false
is_literal question = false
is_literal bracket = false

-- Find the end of a bracket expression: the text up to and with `]`, and the text after it.
unfoldable pub find_close : Bytes → Option (Bytes × Bytes)
find_close [] = none
find_close (c ∷ s) =
    let rest = find_close s in
    if c == 93 then some (c ∷ [], s) else elim rest [ none ↦ none | some r ↦ some (c ∷ r.0, r.1) ]

abbrev prepend : Bytes → Option (Bytes × Bytes) → Option (Bytes × Bytes)
prepend s none = none
prepend s (some r) = some (s ++ r.0, r.1)

-- The text of a bracket expression after its `[`, if it is one, and the text after it. The first
-- character after `[` or `[!` is not its end.
unfoldable pub bracket_end : Bytes → Option (Bytes × Bytes)
bracket_end [] = none
bracket_end (c ∷ []) = none
bracket_end (c ∷ d ∷ s) =
    if c == 33 then prepend (c ∷ d ∷ []) (find_close s) else prepend (c ∷ []) (find_close (d ∷ s))

abbrev of_bracket : Bytes → Option (Bytes × Bytes) → PathPatternTerm × Bytes
of_bracket s none = (record { kind = literal; text = 91 ∷ [] }, s)
of_bracket s (some r) = (record { kind = bracket; text = 91 ∷ r.0 }, r.1)

-- `path_pattern_iterator::next`: the term at the start of the text, and the text after it.
unfoldable pub next : Bytes → Option (PathPatternTerm × Bytes)
next [] = none
next (c ∷ s) =
    if c == 63
    then some (record { kind = question; text = c ∷ [] }, s)
    else if c == 42
    then some (record { kind = star; text = c ∷ [] }, s)
    else if c == 91
    then some (of_bracket s (bracket_end s))
    else some (record { kind = literal; text = c ∷ [] }, s)

-- `match (char, char)`.
abbrev pub match_char : ℕ → ℕ → Bool
match_char c pc = c == pc

-- The order of signed characters.
abbrev char_less : ℕ → ℕ → Bool
char_less a b = ltb ((a + 128) % 256) ((b + 128) % 256)

-- The loop of `match_bracket`, from the character before, if there is one, to the `]`.
unfoldable pub match_items : Option ℕ → ℕ → Bytes → Bool
match_items before c [] = false
match_items before c (bc ∷ []) = match_char c bc
match_items none c (bc ∷ d ∷ s) =
    let rest = match_items (some bc) c (d ∷ s) in match_char c bc || rest
match_items (some b) c (bc ∷ d ∷ s) =
    let after_range = match_items (some d) c s in
    let rest = match_items (some bc) c (d ∷ s) in
    if bc == 45
    then (char_less b c && not (char_less d c)) || after_range
    else match_char c bc || rest

-- The text without its last character, up to position `pt.end - 1`.
unfoldable pub without_last : Bytes → Bytes
without_last [] = []
without_last (c ∷ []) = []
without_last (c ∷ d ∷ s) = c ∷ without_last (d ∷ s)

-- The expression between the brackets, with `invert` in front.
unfoldable pub match_inner : ℕ → Bytes → Bool
match_inner c [] = false
match_inner c (d ∷ s) = if d == 33 then not (match_items none c s) else match_items none c (d ∷ s)

-- `match_bracket` at the text of a bracket expression.
unfoldable pub match_bracket : ℕ → Bytes → Bool
match_bracket c [] = false
match_bracket c (b ∷ s) = match_inner c (without_last s)

-- `get_literal`; the text of a literal has one character.
unfoldable pub get_literal : Bytes → ℕ
get_literal [] = 0
get_literal (c ∷ s) = c

-- `match (char, const path_pattern_term&)`.
unfoldable pub match_term : ℕ → PathPatternTerm → Bool
match_term c pt = elim pt.kind [
  | star ↦ true
  | question ↦ true
  | bracket ↦ match_bracket c pt.text
  | literal ↦ match_char c (get_literal pt.text)
]

-- The loop of `path_pattern`: some term is not literal.
unfoldable pub some_wildcard : ℕ → Bytes → Bool
some_wildcard zero s = false
some_wildcard (suc n) s = elim (next s) [
  | none ↦ false
  | some r ↦ not (is_literal r.0.kind) || some_wildcard n r.1
]

unfoldable pub path_pattern : Bytes → Bool
path_pattern s = some_wildcard (suc (length s)) s

-- The loop of `path_pattern_recursive`: `sn` stars in a row, `n` of which have been seen.
unfoldable pub consecutive_stars : ℕ → ℕ → ℕ → Bytes → Bool
consecutive_stars zero sn n s = false
consecutive_stars (suc f) sn n s = elim (next s) [
  | none ↦ false
  | some r ↦
      if is_star r.0.kind
      then suc n == sn || consecutive_stars f sn (suc n) r.1
      else consecutive_stars f sn 0 r.1
]

unfoldable pub path_pattern_recursive : Bytes → Bool
path_pattern_recursive s = consecutive_stars (suc (length s)) 2 0 s

unfoldable pub path_pattern_self_matching : Bytes → Bool
path_pattern_self_matching s = consecutive_stars (suc (length s)) 3 0 s
