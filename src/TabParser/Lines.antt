-- ===== src/TabParser/Lines.antt =====
-- Reading a text line by line.
use libbutl.Prelude.{
  ℕ, zero, suc, ◌<◌, ◌≡◌, refl, ◌∙◌, true, false, List, [], ◌∷◌, ◌++◌, arith, Bytes, length,
  length-append, if◌then◌else◌, All, has_byte,
}
use libbutl.StringParser.{parse_quoted_position, parse_loop, skip_spaces, parse_next}
use libbutl.TabParser.Reported.{is_skipped, reported, empty_line-is_skipped, line_result-reported}
use libbutl.TabParser.Reader.{
  Next, end_of_stream, next_fields, TabParser, getline, empty_line, line_result, next_loop, next,
}

-- The text of lines, each with its newline.
unfoldable pub unlines : List Bytes → Bytes
unlines [] = []
unlines (l ∷ ls) = l ++ 10 ∷ unlines ls

-- What is reported for the first line that is not skipped, with the lines after it and its number;
-- the end of the stream if all lines are skipped.
unfoldable pub first_fields : Bytes → ℕ → List Bytes → Next × List Bytes × ℕ
first_fields name line [] = (end_of_stream, [], line)
first_fields name line (l ∷ ls) =
    let rest = first_fields name (suc line) ls in
    if is_skipped l then rest else (reported name (suc line) l, ls, suc line)

abbrev pub parser_at : Bytes → Next × List Bytes × ℕ → Next × TabParser
parser_at name r = (r.0, record { input = unlines r.1; name = name; line = r.2 })

getline-line : (l s : Bytes) → has_byte 10 l ≡ false → getline (l ++ 10 ∷ s) ≡ (l, s)
unfolding getline
getline-line [] s h = refl
getline-line (c ∷ l) s h = ground (arith, getline-line l s)

next_loop-getline :
    (n : ℕ) (name : Bytes) (line : ℕ) (s : Bytes) {l t : Bytes}
    → getline s ≡ (l, t)
    → 0 < length s
    → next_loop (suc n) name line s ≡ (
        if is_skipped l
        then next_loop n name (suc line) t
        else (reported name (suc line) l, record { input = t; name = name; line = suc line }))
unfolding next_loop
next_loop-getline n name line [] h len = absurd (omega arith)
next_loop-getline n name line (c ∷ s) {l = l} h len =
    rw (h, empty_line-is_skipped l, line_result-reported name (suc line) l) refl

next_loop-unlines :
    (n : ℕ) (name : Bytes) (line : ℕ) (ls : List Bytes)
    → All (λ l. has_byte 10 l ≡ false) ls
    → length (unlines ls) < n
    → next_loop n name line (unlines ls) ≡ parser_at name (first_fields name line ls)
unfolding unlines first_fields next_loop
next_loop-unlines zero name line ls h len = absurd (omega arith)
next_loop-unlines (suc n) name line [] h len = refl
next_loop-unlines (suc n) name line (l ∷ ls) h len =
    let shorter = length-append l (10 ∷ unlines ls) in
    let step =
      next_loop-getline n name line (l ++ 10 ∷ unlines ls) (getline-line l (unlines ls) h.0)
        (omega (arith, shorter)) in
    let rest = next_loop-unlines n name (suc line) ls h.1 (omega (arith, shorter)) in
    step
    ∙ elim (is_skipped l)
        as (λ b.
          (if b then next_loop n name (suc line) (unlines ls) else (
            reported name (suc line) l,
            record { input = unlines ls; name = name; line = suc line },
          ))
          ≡ parser_at name (
              if b
              then first_fields name (suc line) ls
              else (reported name (suc line) l, ls, suc line))) [ true ↦ rest | false ↦ refl ]

-- From a text of whole lines, `next` skips the blank lines and the comments, those whose first
-- character other than a space or a tab is `#`. For the first other line it gives the strings that
-- the parser of quoted strings finds in it, each with its position plus one as its column, and with
-- the line's number and its length plus one; or, for an unterminated quoted string, the error at
-- its position plus one. It leaves the lines after it. If there is no such line, it gives the end of
-- the stream.
pub next-unlines :
    (name : Bytes) (line : ℕ) (ls : List Bytes)
    → All (λ l. has_byte 10 l ≡ false) ls
    → next (record { input = unlines ls; name = name; line = line })
      ≡ parser_at name (first_fields name line ls)
unfolding next
next-unlines name line ls h =
    next_loop-unlines (suc (length (unlines ls))) name line ls h (omega arith)

-- A line that holds nothing but a carriage return, as a blank line of a text with the line ends
-- of Windows does, gives the empty list of fields, which denotes the end of the stream, whatever
-- follows it.
pub next_carriage_return :
    (name s : Bytes) (line : ℕ)
    → next (record { input = 13 ∷ 10 ∷ s; name = name; line = line }) ≡ (
      next_fields (record { fields = []; line = suc line; end_column = 2 }),
      record { input = s; name = name; line = suc line },
    )
unfolding next next_loop getline empty_line line_result parse_quoted_position parse_loop skip_spaces
    parse_next
next_carriage_return name s line = refl
