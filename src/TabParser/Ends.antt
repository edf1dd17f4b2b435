-- ===== src/TabParser/Ends.antt =====
-- The loop over the lines ends.
use libbutl.Prelude.{
  ℕ, zero, suc, ◌<◌, ◌≤◌, ◌≢◌, refl, true, false, [], ◌∷◌, arith, Bytes, length, if◌then◌else◌,
}
use libbutl.StringParser.{
  Parse, strings, invalid_string, out_of_fuel, parse_quoted_position, parse_quoted_position-ends,
}
use libbutl.TabParser.Reader.{
  unfinished, TabParser, getline, empty_line, line_result, next_loop, next,
}

length-getline : (s : Bytes) → length (getline s).1 ≤ length s
unfolding getline
length-getline [] = omega arith
length-getline (c ∷ s) = ground (arith, length-getline s)

getline_shorter : (c : ℕ) (s : Bytes) → length (getline (c ∷ s)).1 ≤ length s
unfolding getline
getline_shorter c s = ground (arith, length-getline s)

line_result_ends :
    (name : Bytes) (line : ℕ) (s : Bytes) (p : Parse (Bytes × ℕ))
    → p ≢ out_of_fuel
    → line_result name line s p ≢ unfinished
unfolding line_result
line_result_ends name line s (strings sp) h = cc
line_result_ends name line s (invalid_string i) h = cc
line_result_ends name line s out_of_fuel h = absurd (h refl)

next_loop_ends :
    (n : ℕ) (name : Bytes) (line : ℕ) (s : Bytes)
    → length s < n
    → (next_loop n name line s).0 ≢ unfinished
unfolding next_loop
next_loop_ends n name line [] len = cc
next_loop_ends zero name line (c ∷ s) len = absurd (omega arith)
next_loop_ends (suc n) name line (c ∷ s) len =
    let r = getline (c ∷ s) in
    let parsed = parse_quoted_position r.0 false false in
    let rest = next_loop_ends n name (suc line) r.1 (omega (arith, getline_shorter c s)) in
    elim (empty_line r.0)
      as (λ b.
        (if b then next_loop n name (suc line) r.1 else (
          line_result name (suc line) r.0 parsed,
          record { input = r.1; name = name; line = suc line },
        )).0
        ≢ unfinished) [
          | true ↦ rest
          | false ↦
              line_result_ends name (suc line) r.0 parsed
                (parse_quoted_position-ends r.0 false false)
        ]

-- For every text that is left, `next` ends with fields, an error or the end of the stream: the
-- fuel that it gives its loop and that of the parser of a line suffices.
pub next-ends : (p : TabParser) → (next p).0 ≢ unfinished
unfolding next
next-ends p = next_loop_ends (suc (length p.input)) p.name p.line p.input (omega arith)
