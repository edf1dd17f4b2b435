-- ===== src/StringParser/Pieces.antt =====
-- The operations of libbutl/string-parser.cxx.
use libbutl.Prelude.{
  ℕ, zero, suc, Bool, true, false, not, ◌&&◌, ◌||◌, List, [], ◌∷◌, map, ◌==◌, if◌then◌else◌, Bytes,
  length,
}

-- What the call produces: the strings with their positions, the position that an
-- `invalid_string` carries, or nothing when the fuel does not suffice.
pub data Parse {ℓ} (A : Type ℓ) : Type ℓ where
  strings : List A → Parse A
  invalid_string : ℕ → Parse A
  out_of_fuel : Parse A

module _ {ℓ} {A : Type ℓ} where
  abbrev pub emplace : A → Parse A → Parse A
  emplace x (strings xs) = strings (x ∷ xs)
  emplace x (invalid_string p) = invalid_string p
  emplace x out_of_fuel = out_of_fuel

  abbrev pub map_strings {κ} : {B : Type κ} → (A → B) → Parse A → Parse B
  map_strings f (strings xs) = strings (map f xs)
  map_strings f (invalid_string p) = invalid_string p
  map_strings f out_of_fuel = out_of_fuel

-- `space`.
abbrev pub space : ℕ → Bool
space c = c == 32 || c == 9 || c == 10 || c == 13

-- '"' and '\''.
abbrev pub quotation : ℕ → Bool
quotation c = c == 34 || c == 39

-- The quoting mode is the quotation mark that is open, or 0.
abbrev pub quoted : ℕ → Bool
quoted quoting = not (quoting == 0)

-- Skip spaces: whether a newline has been seen, the position and the text that is left.
unfoldable pub skip_spaces : Bool → ℕ → Bytes → Bool × ℕ × Bytes
skip_spaces newline i [] = (newline, i, [])
skip_spaces newline i (c ∷ s) =
    let rest = skip_spaces (newline || c == 10) (suc i) s in
    if space c then rest else (newline, i, c ∷ s)

-- Skip a comment up to its newline.
unfoldable pub skip_comment : ℕ → Bytes → ℕ × Bytes
skip_comment i [] = (i, [])
skip_comment i (c ∷ s) = let rest = skip_comment (suc i) s in if c == 10 then (i, c ∷ s) else rest

-- The loop over one string: the string, the quoting mode at its end, the position and the text
-- that is left.
pub record Scan : Type 0 where
  pub text : Bytes
  pub quoting : ℕ
  pub position : ℕ
  pub left : Bytes

-- `s += c` for the character just read, if it is kept.
abbrev pub keep : Bool → ℕ → Scan → Scan
keep true c r = record {
  text = c ∷ r.text;
  quoting = r.quoting;
  position = r.position;
  left = r.left;
}
keep false c r = r

unfoldable pub read_string : Bool → ℕ → ℕ → Bytes → Scan
read_string unquote quoting i [] = record { text = []; quoting = quoting; position = i; left = [] }
read_string unquote quoting i (c ∷ s) =
    let begin = read_string unquote c (suc i) s in
    let end = read_string unquote 0 (suc i) s in
    let same = read_string unquote quoting (suc i) s in
    if not (quoted quoting)
    then (if space c
        then record { text = []; quoting = quoting; position = i; left = c ∷ s }
        else if quotation c
        then keep (not unquote) c begin
        else keep true c same)
    else if c == quoting
    then keep (not unquote) c end
    else keep true c same

-- The end of an iteration: the error, or the string followed by those of the rest.
unfoldable pub finish : ℕ → Scan → Parse (Bytes × ℕ) → Parse (Bytes × ℕ)
finish pos r rest =
    if quoted r.quoting then invalid_string r.position else emplace (r.text, pos) rest

-- An iteration of the loop over the text once the spaces are skipped; `loop` is what follows.
unfoldable pub parse_next :
    (Bool → ℕ → Bytes → Parse (Bytes × ℕ)) → Bool → Bool → Bool → ℕ → Bytes → Parse (Bytes × ℕ)
parse_next loop unquote comments newline i [] = strings []
parse_next loop unquote comments newline i (c ∷ s) =
    let k = skip_comment (suc i) s in
    let r = read_string unquote 0 i (c ∷ s) in
    if comments && newline && c == 35
    then loop newline k.0 k.1
    else finish i r (loop false r.position r.left)

-- The loop over the text.
unfoldable pub parse_loop : ℕ → Bool → Bool → Bool → ℕ → Bytes → Parse (Bytes × ℕ)
parse_loop zero unquote comments newline i s = out_of_fuel
parse_loop (suc n) unquote comments newline i s =
    let r = skip_spaces newline i s in
    parse_next (parse_loop n unquote comments) unquote comments r.0 r.1 r.2

-- `parse_quoted_position`.
unfoldable pub parse_quoted_position : Bytes → Bool → Bool → Parse (Bytes × ℕ)
parse_quoted_position s unquote comments = parse_loop (suc (length s)) unquote comments true 0 s

-- `parse_quoted`.
unfoldable pub parse_quoted : Bytes → Bool → Bool → Parse Bytes
parse_quoted s unquote comments =
    map_strings (λ sp. sp.0) (parse_quoted_position s unquote comments)

-- `unquote`, from a quoting mode.
unfoldable pub unquote_from : ℕ → Bytes → Bytes
unquote_from quoting [] = []
unquote_from quoting (c ∷ s) =
    let begin = unquote_from c s in
    let end = unquote_from 0 s in
    let same = unquote_from quoting s in
    if not (quoted quoting)
    then (if quotation c then begin else c ∷ same)
    else if c == quoting
    then end
    else c ∷ same

unfoldable pub unquote : Bytes → Bytes
unquote s = unquote_from 0 s

-- `unquote` of a vector.
unfoldable pub unquote_all : List Bytes → List Bytes
unquote_all v = map unquote v
