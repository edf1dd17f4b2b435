-- ===== src/Manifest/Comment.antt =====
-- `merge_comment` of libbutl/manifest-serializer.cxx and `split_comment` of
-- libbutl/manifest-parser.cxx: a comment in the text of a value.
--
-- A pair of iterators is the text between them. The loops over the lines of a text are on fuel,
-- one more than the length of the text.
use libbutl.Prelude.{
  ℕ, zero, suc, ◌+◌, ◌/◌, Bool, true, false, not, ◌&&◌, ◌||◌, Option, none, some, List, [], ◌∷◌,
  ◌++◌, ◌==◌, if◌then◌else◌, Bytes, length, take, drop, is_empty, has_byte, codes, replicate,
}
use libbutl.Manifest.Spaces.{blank}
pub mod Escaped
pub mod Lines
pub mod Single
pub mod RoundTrip

-- `nb - i` for a line `[i, le)` whose first character other than a backslash is its last one and a
-- semicolon.
unfoldable pub separator_form : Bytes → Option ℕ
separator_form [] = none
separator_form (c ∷ s) =
    let rest = separator_form s in
    if c == b'\\'
    then elim rest [ none ↦ none | some n ↦ some (suc n) ]
    else if c == b';' && is_empty s
    then some 0
    else none

-- The line `[i, le)` and what follows from `le` on.
unfoldable pub find_line : Bytes → Bytes × Bytes
find_line [] = ([], [])
find_line (c ∷ s) = let r = find_line s in if c == b'\n' then ([], c ∷ s) else (c ∷ r.0, r.1)

-- The newline at `le`, if it is not the end.
abbrev pub newline_at : Bytes → Bytes
newline_at [] = []
newline_at (c ∷ s) = b'\n' ∷ []

-- `le != e ? le + 1 : e`.
abbrev pub next_line : Bytes → Bytes
next_line [] = []
next_line (c ∷ s) = s

-- The backslashes that a line is given.
abbrev pub escape_of : Option ℕ → Bytes
escape_of none = []
escape_of (some zero) = b'\\' ∷ []
escape_of (some (suc n)) = replicate (suc n) b'\\'

unfoldable pub escape_line : Bytes → Bytes
escape_line l = escape_of (separator_form l) ++ l

unfoldable pub escape_lines : ℕ → Bytes → Bytes
escape_lines zero s = []
escape_lines (suc f) [] = []
escape_lines (suc f) (c ∷ s) =
    let p = find_line (c ∷ s) in escape_line p.0 ++ newline_at p.1 ++ escape_lines f (next_line p.1)

-- A value in the single-line mode.
unfoldable pub escape_chars : Bytes → Bytes
escape_chars [] = []
escape_chars (c ∷ s) =
    (if c == b';' || c == b'\\' then b'\\' ∷ c ∷ [] else c ∷ []) ++ escape_chars s

-- `merge_comment`.
unfoldable pub merge_comment : Bytes → Bytes → Bytes
merge_comment value comment =
    if not (has_byte b'\n' value) && not (has_byte b'\n' comment)
    then escape_chars value ++ (if is_empty comment then [] else codes "; " ++ comment)
    else (let r = escape_lines (suc (length value)) value in
        r
        ++ (if is_empty comment
            then []
            else (if is_empty r then [] else b'\n' ∷ []) ++ b';' ∷ b'\n' ∷ comment))

-- The loop of the single-line mode: what is left, the value and the size `n`.
unfoldable pub read_single : Bytes → ℕ → Bytes → Bytes × ℕ × Bytes
read_single r n [] = (r, n, [])
read_single r n (c ∷ []) =
    if c == b';'
    then (r, n, c ∷ [])
    else (r ++ c ∷ [], if blank c then n else length (r ++ c ∷ []), [])
read_single r n (c ∷ d ∷ s) =
    let escaped = read_single (r ++ d ∷ []) (if blank d then n else length (r ++ d ∷ [])) s in
    let plain = read_single (r ++ c ∷ []) (if blank c then n else length (r ++ c ∷ [])) (d ∷ s) in
    if c == b';'
    then (r, n, c ∷ d ∷ s)
    else if c == b'\\' && (d == b';' || d == b'\\')
    then escaped
    else plain

unfoldable pub skip_blanks : Bytes → Bytes
skip_blanks [] = []
skip_blanks (c ∷ s) = let rest = skip_blanks s in if blank c then rest else c ∷ s

-- The comment from the semicolon on.
abbrev pub comment_at : Bytes → Bytes
comment_at [] = []
comment_at (c ∷ s) = skip_blanks s

unfoldable pub split_single : Bytes → Bytes × Bytes
split_single v = let p = read_single [] 0 v in (take p.1 p.0, comment_at p.2)

-- `r.pop_back ()`, if there is a character.
unfoldable pub pop_back : Bytes → Bytes
pop_back [] = []
pop_back (c ∷ []) = []
pop_back (c ∷ d ∷ s) = c ∷ pop_back (d ∷ s)

-- An iteration of the loop over the lines, at the line and what follows it; `loop` is the rest.
unfoldable pub read_line :
    (Bytes → Bytes → Bytes × Bytes) → Bytes → Option ℕ → Bytes × Bytes → Bytes × Bytes
read_line loop r none p = loop (r ++ p.0 ++ newline_at p.1) (next_line p.1)
read_line loop r (some zero) p = (pop_back r, next_line p.1)
read_line loop r (some (suc k)) p =
    loop (r ++ drop (length p.0 / 2) p.0 ++ newline_at p.1) (next_line p.1)

-- The loop over the lines: the value, and the text after the separator.
unfoldable pub read_lines : ℕ → Bytes → Bytes → Bytes × Bytes
read_lines zero r s = (r, [])
read_lines (suc f) r [] = (r, [])
read_lines (suc f) r (c ∷ s) =
    let p = find_line (c ∷ s) in read_line (read_lines f) r (separator_form p.0) p

-- `split_comment`.
unfoldable pub split_comment : Bytes → Bytes × Bytes
split_comment v =
    if not (has_byte b'\n' v) then split_single v else read_lines (suc (length v)) [] v
