-- ===== src/StringParser/Positions.antt =====
-- Where the strings stand in the text.
use libbutl.Prelude.{
  ℕ, zero, suc, ◌≡◌, refl, ap, sym, Bool, true, false, [], ◌∷◌, ◌++◌, arith, Bytes, length, ◌==◌,
  if◌then◌else◌, ◌&&◌, ◌||◌, drop, take, All,
}
use libbutl.StringParser.Pieces.{
  Parse, strings, invalid_string, out_of_fuel, quoted, skip_spaces, skip_comment, Scan, read_string,
  finish, parse_next, parse_loop, parse_quoted_position,
}

abbrev Loop : Type 0
Loop = Bool → ℕ → Bytes → Parse (Bytes × ℕ)

-- Each of the strings satisfies a predicate.
abbrev pub AllStrings : (Bytes × ℕ → Type 0) → Parse (Bytes × ℕ) → Type 0
AllStrings P (strings xs) = All P xs
AllStrings P (invalid_string i) = Unit
AllStrings P out_of_fuel = Unit

-- The string stands in the text at its position.
abbrev pub StandsIn : Bytes → Bytes × ℕ → Type 0
StandsIn whole sp = take (length sp.0) (drop sp.1 whole) ≡ sp.0

drop_next : (i : ℕ) (w : Bytes) {c : ℕ} {s : Bytes} → drop i w ≡ c ∷ s → drop (suc i) w ≡ s
drop_next zero [] h = cc
drop_next (suc i) [] h = cc
drop_next zero (x ∷ w) h = cc
drop_next (suc i) (x ∷ w) h = drop_next i w h

take-append : (xs ys : Bytes) → take (length xs) (xs ++ ys) ≡ xs
take-append [] ys = refl
take-append (x ∷ xs) ys = ap (λ r. x ∷ r) (take-append xs ys)

take-start : (xs ys : Bytes) {s : Bytes} → xs ++ ys ≡ s → take (length xs) s ≡ xs
take-start xs ys h = rw (sym h) (take-append xs ys)

module _ (whole : Bytes) where
  At : ℕ → Bytes → Type 0
  At i s = drop i whole ≡ s

  skip_spaces-At :
      (newline : Bool) (i : ℕ) (s : Bytes)
      → At i s
      → At (skip_spaces newline i s).1 (skip_spaces newline i s).2
  unfolding skip_spaces At
  skip_spaces-At newline i [] h = h
  skip_spaces-At newline i (c ∷ s) h =
      ground (arith, h, skip_spaces-At (newline || c == 10) (suc i) s (drop_next i whole h))

  skip_comment-At : (i : ℕ) (s : Bytes) → At i s → At (skip_comment i s).0 (skip_comment i s).1
  unfolding skip_comment At
  skip_comment-At i [] h = h
  skip_comment-At i (c ∷ s) h = ground (arith, h, skip_comment-At (suc i) s (drop_next i whole h))

  read_string-At :
      (q i : ℕ) (s : Bytes)
      → At i s
      → At (read_string false q i s).position (read_string false q i s).left
  unfolding read_string At
  read_string-At q i [] h = h
  read_string-At q i (c ∷ s) h =
      let t = drop_next i whole h in
      ground (
        arith,
        h,
        read_string-At q (suc i) s t,
        read_string-At 0 (suc i) s t,
        read_string-At c (suc i) s t,
      )

read_string_text :
    (q i : ℕ) (s : Bytes) → (read_string false q i s).text ++ (read_string false q i s).left ≡ s
unfolding read_string
read_string_text q i [] = refl
read_string_text q i (c ∷ s) = ground (
  arith,
  read_string_text q (suc i) s,
  read_string_text 0 (suc i) s,
  read_string_text c (suc i) s,
)

module _ (whole : Bytes) where
  finish_stands :
      (pos : ℕ) (r : Scan) (x : Parse (Bytes × ℕ))
      → StandsIn whole (r.text, pos)
      → AllStrings (StandsIn whole) x
      → AllStrings (StandsIn whole) (finish pos r x)
  unfolding finish
  finish_stands pos r (strings xs) h hx =
      elim (quoted r.quoting)
        as (λ b.
          AllStrings (StandsIn whole)
            (if b then invalid_string r.position else strings ((r.text, pos) ∷ xs))) [
              | true ↦ tt
              | false ↦ (h, hx)
            ]
  finish_stands pos r (invalid_string i) h hx =
      elim (quoted r.quoting)
        as (λ b.
          AllStrings (StandsIn whole) (if b then invalid_string r.position else invalid_string i)) [
            | true ↦ tt
            | false ↦ tt
          ]
  finish_stands pos r out_of_fuel h hx =
      elim (quoted r.quoting)
        as (λ b.
          AllStrings (StandsIn whole) (if b then invalid_string r.position else out_of_fuel)) [
            | true ↦ tt
            | false ↦ tt
          ]

  parse_next_stands :
      (f : Loop) (comments : Bool)
      → ((newline : Bool) (i : ℕ) (s : Bytes)
          → At whole i s
          → AllStrings (StandsIn whole) (f newline i s))
      → (newline : Bool) (i : ℕ) (s : Bytes) → At whole i s
      → AllStrings (StandsIn whole) (parse_next f false comments newline i s)
  unfolding parse_next At
  parse_next_stands f comments stands newline i [] h = tt
  parse_next_stands f comments stands newline i (c ∷ s) h =
      let k = skip_comment (suc i) s in
      let r = read_string false 0 i (c ∷ s) in
      let commented =
        stands newline k.0 k.1 (skip_comment-At whole (suc i) s (drop_next i whole h)) in
      let here : StandsIn whole (r.text, i) =
        rw h (take-start r.text r.left (read_string_text 0 i (c ∷ s))) in
      let after =
        finish_stands i r (f false r.position r.left) here
          (stands false r.position r.left (read_string-At whole 0 i (c ∷ s) h)) in
      elim (comments && newline && c == 35)
        as (λ b.
          AllStrings (StandsIn whole)
            (if b then f newline k.0 k.1 else finish i r (f false r.position r.left))) [
              | true ↦ commented
              | false ↦ after
            ]

  parse_loop_stands :
      (n : ℕ) (comments newline : Bool) (i : ℕ) (s : Bytes)
      → At whole i s
      → AllStrings (StandsIn whole) (parse_loop n false comments newline i s)
  unfolding parse_loop
  parse_loop_stands zero comments newline i s h = tt
  parse_loop_stands (suc n) comments newline i s h =
      let r = skip_spaces newline i s in
      parse_next_stands (parse_loop n false comments) comments (parse_loop_stands n comments) r.0
        r.1 r.2 (skip_spaces-At whole newline i s h)

-- With the quotes kept, each string stands in the text at the position that comes with it.
pub parse_quoted_position-StandsIn :
    (s : Bytes) (comments : Bool) → AllStrings (StandsIn s) (parse_quoted_position s false comments)
unfolding parse_quoted_position At
parse_quoted_position-StandsIn s comments =
    parse_loop_stands s (suc (length s)) comments true 0 s refl
