-- ===== src/StringParser/Quote.antt =====
-- Quoting strings and parsing them back.
use libbutl.Prelude.{
  ℕ, zero, suc, ◌<◌, ◌≡◌, refl, Bool, true, false, List, [], ◌∷◌, ◌++◌, arith, Bytes, length,
  length-append, All, has_byte,
}
use libbutl.StringParser.Pieces.{
  Parse, strings, invalid_string, out_of_fuel, emplace, map_strings, skip_spaces, read_string,
  finish, parse_next, parse_loop, parse_quoted_position, parse_quoted,
}

-- Each string in double quotes and followed by a space.
unfoldable pub quote_all : List Bytes → Bytes
quote_all [] = []
quote_all (w ∷ ws) = 34 ∷ w ++ 34 ∷ 32 ∷ quote_all ws

read_string_quoted :
    (i : ℕ) (w t : Bytes)
    → has_byte 34 w ≡ false
    → (j : ℕ) × (read_string true 34 i (w ++ 34 ∷ 32 ∷ t)
        ≡ record { text = w; quoting = 0; position = j; left = 32 ∷ t })
unfolding read_string
read_string_quoted i [] t h = (suc i, refl)
read_string_quoted i (c ∷ w) t h =
    let r = read_string_quoted (suc i) w t (ground arith) in (r.0, ground (arith, h, r.1))

firsts : Parse (Bytes × ℕ) → Parse Bytes
firsts p = map_strings (λ sp. sp.0) p

firsts-emplace :
    (x : Bytes × ℕ) (p : Parse (Bytes × ℕ)) {ws : List Bytes}
    → firsts p ≡ strings ws
    → firsts (emplace x p) ≡ strings (x.0 ∷ ws)
unfolding firsts
firsts-emplace x (strings xs) h = cc
firsts-emplace x (invalid_string i) h = cc
firsts-emplace x out_of_fuel h = cc

read_string_quotation :
    (i : ℕ) (w t : Bytes)
    → has_byte 34 w ≡ false
    → (j : ℕ) × (read_string true 0 i (34 ∷ w ++ 34 ∷ 32 ∷ t)
        ≡ record { text = w; quoting = 0; position = j; left = 32 ∷ t })
unfolding read_string
read_string_quotation i w t h = read_string_quoted (suc i) w t h

quoted_next :
    (f : Bool → ℕ → Bytes → Parse (Bytes × ℕ)) (comments newline : Bool) (i : ℕ) (w t : Bytes)
    {ws : List Bytes}
    → has_byte 34 w ≡ false
    → ((j : ℕ) → firsts (f false j (32 ∷ t)) ≡ strings ws)
    → firsts (parse_next f true comments newline i (34 ∷ w ++ 34 ∷ 32 ∷ t)) ≡ strings (w ∷ ws)
unfolding parse_next finish
quoted_next f false newline i w t hw h =
    let r = read_string_quotation i w t hw in
    rw (r.1) (firsts-emplace (w, i) (f false r.0 (32 ∷ t)) (h r.0))
quoted_next f true false i w t hw h =
    let r = read_string_quotation i w t hw in
    rw (r.1) (firsts-emplace (w, i) (f false r.0 (32 ∷ t)) (h r.0))
quoted_next f true true i w t hw h =
    let r = read_string_quotation i w t hw in
    rw (r.1) (firsts-emplace (w, i) (f false r.0 (32 ∷ t)) (h r.0))

parse_loop_quoted :
    (n : ℕ) (comments newline : Bool) (i : ℕ) (ws : List Bytes)
    → All (λ w. has_byte 34 w ≡ false) ws
    → length (quote_all ws) < n
    → firsts (parse_loop n true comments newline i (quote_all ws)) ≡ strings ws
unfolding parse_loop quote_all skip_spaces parse_next firsts
parse_loop_quoted zero comments newline i ws h len = absurd (omega arith)
parse_loop_quoted (suc n) comments newline i [] h len = refl
parse_loop_quoted (suc zero) comments newline i (w ∷ ws) h len = absurd (omega arith)
parse_loop_quoted (suc (suc n)) comments newline i (w ∷ ws) h len =
    quoted_next (parse_loop (suc n) true comments) comments newline i w (quote_all ws) h.0 (λ j.
      parse_loop_quoted (suc n) comments false (suc j) ws h.1
        (omega (arith, length-append w (34 ∷ 32 ∷ quote_all ws))))

-- Strings without a double quote, each put in double quotes and followed by a space, parse back
-- to themselves, whatever spaces, single quotes and comment signs they hold.
pub parse_quoted-quote_all :
    (ws : List Bytes) (comments : Bool)
    → All (λ w. has_byte 34 w ≡ false) ws
    → parse_quoted (quote_all ws) true comments ≡ strings ws
unfolding parse_quoted parse_quoted_position firsts
parse_quoted-quote_all ws comments h =
    parse_loop_quoted (suc (length (quote_all ws))) comments true 0 ws h (omega arith)
