-- ===== src/StringParser/Unquote.antt =====
-- Parsing with the quotes removed against parsing with the quotes kept.
use libbutl.Prelude.{
  ℕ, zero, suc, ◌≡◌, refl, Bool, true, false, [], ◌∷◌, arith, Bytes, length, ◌==◌, if◌then◌else◌,
  ◌&&◌,
}
use libbutl.StringParser.Pieces.{
  Parse, strings, invalid_string, out_of_fuel, map_strings, skip_spaces, skip_comment, Scan,
  read_string, finish, parse_next, parse_loop, parse_quoted_position, unquote_from, unquote,
}

-- The two scans of one string end at the same place, in the same mode.
pub read_string_same :
    (q i : ℕ) (s : Bytes)
    → ((read_string true q i s).quoting ≡ (read_string false q i s).quoting)
      × ((read_string true q i s).position ≡ (read_string false q i s).position)
      × ((read_string true q i s).left ≡ (read_string false q i s).left)
      × ((read_string true q i s).text ≡ unquote_from q (read_string false q i s).text)
unfolding read_string unquote_from
read_string_same q i [] = (refl, refl, refl, refl)
read_string_same q i (c ∷ s) = ground (
  arith,
  read_string_same q (suc i) s,
  read_string_same 0 (suc i) s,
  read_string_same c (suc i) s,
)

map_unquote : Parse (Bytes × ℕ) → Parse (Bytes × ℕ)
map_unquote p = map_strings (λ sp. (unquote sp.0, sp.1)) p

finish_same :
    (pos : ℕ) (r t : Scan) (x y : Parse (Bytes × ℕ))
    → r.quoting ≡ t.quoting
    → r.position ≡ t.position
    → r.text ≡ unquote_from 0 t.text
    → x ≡ map_unquote y
    → finish pos r x ≡ map_unquote (finish pos t y)
unfolding finish unquote map_unquote
finish_same pos r t x (strings ys) q p e h = ground arith
finish_same pos r t x (invalid_string i) q p e h = ground arith
finish_same pos r t x out_of_fuel q p e h = ground arith

abbrev Loop : Type 0
Loop = Bool → ℕ → Bytes → Parse (Bytes × ℕ)

parse_next_same :
    (f g : Loop) (comments : Bool)
    → ((newline : Bool) (i : ℕ) (s : Bytes) → f newline i s ≡ map_unquote (g newline i s))
    → (newline : Bool) (i : ℕ) (s : Bytes)
    → parse_next f true comments newline i s ≡ map_unquote (parse_next g false comments newline i s)
unfolding parse_next map_unquote
parse_next_same f g comments same newline i [] = refl
parse_next_same f g comments same newline i (c ∷ s) =
    let k = skip_comment (suc i) s in
    let r = read_string true 0 i (c ∷ s) in
    let t = read_string false 0 i (c ∷ s) in
    let e = read_string_same 0 i (c ∷ s) in
    let after =
      finish_same i r t (f false r.position r.left) (g false t.position t.left) e.0 e.1 e.3
        (rw (e.1, e.2) (same false t.position t.left)) in
    elim (comments && newline && c == 35)
      as (λ b.
        (if b then f newline k.0 k.1 else finish i r (f false r.position r.left))
        ≡ map_unquote (if b then g newline k.0 k.1 else finish i t (g false t.position t.left))) [
          | true ↦ same newline k.0 k.1
          | false ↦ after
        ]

parse_loop_same :
    (n : ℕ) (comments newline : Bool) (i : ℕ) (s : Bytes)
    → parse_loop n true comments newline i s ≡ map_unquote (parse_loop n false comments newline i s)
unfolding parse_loop map_unquote
parse_loop_same zero comments newline i s = refl
parse_loop_same (suc n) comments newline i s =
    let r = skip_spaces newline i s in
    parse_next_same (parse_loop n true comments) (parse_loop n false comments) comments
      (parse_loop_same n comments) r.0 r.1 r.2

-- Parsing with the quotes removed finds the same strings at the same positions as parsing with
-- the quotes kept, each of them unquoted, and fails at the same position.
pub parse_quoted_position-unquote :
    (s : Bytes) (comments : Bool)
    → parse_quoted_position s true comments
      ≡ map_strings (λ sp. (unquote sp.0, sp.1)) (parse_quoted_position s false comments)
unfolding parse_quoted_position map_unquote
parse_quoted_position-unquote s comments = parse_loop_same (suc (length s)) comments true 0 s
