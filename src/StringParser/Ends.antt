-- ===== src/StringParser/Ends.antt =====
-- The loop over the text ends.
use libbutl.Prelude.{
  ℕ, zero, suc, ◌≤◌, ◌<◌, ◌≡◌, ◌≢◌, refl, Bool, true, false, [], ◌∷◌, arith, Bytes, length, ◌==◌,
  if◌then◌else◌, ◌&&◌, ◌||◌,
}
use libbutl.StringParser.Pieces.{
  Parse, strings, invalid_string, out_of_fuel, space, skip_spaces, skip_comment, Scan, read_string,
  finish, parse_next, parse_loop, parse_quoted_position,
}

-- Nothing that is read grows.
pub length-skip_spaces :
    (newline : Bool) (i : ℕ) (s : Bytes) → length (skip_spaces newline i s).2 ≤ length s
unfolding skip_spaces
length-skip_spaces newline i [] = omega arith
length-skip_spaces newline i (c ∷ s) =
    ground (arith, length-skip_spaces (newline || c == 10) (suc i) s)

pub length-skip_comment : (i : ℕ) (s : Bytes) → length (skip_comment i s).1 ≤ length s
unfolding skip_comment
length-skip_comment i [] = omega arith
length-skip_comment i (c ∷ s) = ground (arith, length-skip_comment (suc i) s)

pub length-read_string :
    (u : Bool) (q i : ℕ) (s : Bytes) → length (read_string u q i s).left ≤ length s
unfolding read_string
length-read_string u q i [] = omega arith
length-read_string true q i (c ∷ s) = ground (
  arith,
  length-read_string true q (suc i) s,
  length-read_string true 0 (suc i) s,
  length-read_string true c (suc i) s,
)
length-read_string false q i (c ∷ s) = ground (
  arith,
  length-read_string false q (suc i) s,
  length-read_string false 0 (suc i) s,
  length-read_string false c (suc i) s,
)

abbrev starts_with_space : Bytes → Bool
starts_with_space [] = false
starts_with_space (c ∷ s) = space c

-- What is left after the spaces starts with another character.
skip_spaces_first :
    (newline : Bool) (i : ℕ) (s : Bytes) → starts_with_space (skip_spaces newline i s).2 ≡ false
unfolding skip_spaces
skip_spaces_first newline i [] = refl
skip_spaces_first newline i (d ∷ s) =
    ground (arith, skip_spaces_first (newline || d == 10) (suc i) s)

-- A string has at least its first character.
read_string_shorter :
    (u : Bool) (i c : ℕ) (s : Bytes)
    → space c ≡ false
    → length (read_string u 0 i (c ∷ s)).left ≤ length s
unfolding read_string
read_string_shorter true i c s h =
    ground (arith, length-read_string true 0 (suc i) s, length-read_string true c (suc i) s)
read_string_shorter false i c s h =
    ground (arith, length-read_string false 0 (suc i) s, length-read_string false c (suc i) s)

abbrev Loop : Type 0
Loop = Bool → ℕ → Bytes → Parse (Bytes × ℕ)

finish_ends :
    (pos : ℕ) (r : Scan) (x : Parse (Bytes × ℕ)) → x ≢ out_of_fuel → finish pos r x ≢ out_of_fuel
unfolding finish
finish_ends pos r (strings xs) h = ground arith
finish_ends pos r (invalid_string i) h = ground arith
finish_ends pos r out_of_fuel h = absurd (h refl)

parse_next_ends :
    (f : Loop) (n : ℕ) (u comments : Bool)
    → ((newline : Bool) (i : ℕ) (s : Bytes) → length s < n → f newline i s ≢ out_of_fuel)
    → (newline : Bool) (i : ℕ) (s : Bytes) → starts_with_space s ≡ false
    → length s < suc n
    → parse_next f u comments newline i s ≢ out_of_fuel
unfolding parse_next
parse_next_ends f n u comments ends newline i [] first len = cc
parse_next_ends f n u comments ends newline i (c ∷ s) first len =
    let k = skip_comment (suc i) s in
    let r = read_string u 0 i (c ∷ s) in
    let commented = ends newline k.0 k.1 (omega (arith, length-skip_comment (suc i) s)) in
    let after =
      finish_ends i r (f false r.position r.left)
        (ends false r.position r.left (omega (arith, read_string_shorter u i c s first))) in
    elim (comments && newline && c == 35)
      as (λ b.
        (if b then f newline k.0 k.1 else finish i r (f false r.position r.left)) ≢ out_of_fuel) [
          | true ↦ commented
          | false ↦ after
        ]

parse_loop_ends :
    (n : ℕ) (u comments newline : Bool) (i : ℕ) (s : Bytes)
    → length s < n
    → parse_loop n u comments newline i s ≢ out_of_fuel
unfolding parse_loop
parse_loop_ends zero u comments newline i s len = absurd (omega arith)
parse_loop_ends (suc n) u comments newline i s len =
    let r = skip_spaces newline i s in
    parse_next_ends (parse_loop n u comments) n u comments (parse_loop_ends n u comments) r.0 r.1
      r.2 (skip_spaces_first newline i s) (omega (arith, length-skip_spaces newline i s))

-- The loop over the text ends: the fuel that `parse_quoted_position` gives it suffices for every
-- text.
pub parse_quoted_position-ends :
    (s : Bytes) (u comments : Bool) → parse_quoted_position s u comments ≢ out_of_fuel
unfolding parse_quoted_position
parse_quoted_position-ends s u comments =
    parse_loop_ends (suc (length s)) u comments true 0 s (omega arith)
