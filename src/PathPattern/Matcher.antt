-- ===== src/PathPattern/Matcher.antt =====
-- The matcher: `match_no_brackets`, `match` and `path_match` of libbutl/path-pattern.cxx.
use libbutl.Prelude.{
  ℕ, zero, suc, Bool, true, false, not, ◌&&◌, ◌||◌, Option, none, some, [], ◌∷◌, reverse, ◌==◌,
  if◌then◌else◌, Bytes, length, is_empty, has_byte,
}
use libbutl.PathPattern.Terms.{PathPatternTerm, is_star, match_char, match_term, next}

-- How a loop over the pattern and the name ends: with the answer, or at a star, with what is left
-- of the two.
pub data Scan : Type 0 where
  answer : Bool → Scan
  at_star : Bytes → Bytes → Scan

-- `match (*ni, pc) || pc == '?'`.
abbrev pub match_one : ℕ → ℕ → Bool
match_one c pc = match_char c pc || pc == 63

-- Match the pattern suffix that follows the last star, on the reversed pattern and name. The star
-- stays.
unfoldable pub match_suffix : Bytes → Bytes → Scan
match_suffix [] rn = answer (is_empty rn)
match_suffix (pc ∷ rp) [] = if pc == 42 then at_star (pc ∷ rp) [] else answer false
match_suffix (pc ∷ rp) (c ∷ rn) =
    let rest = match_suffix rp rn in
    if pc == 42 then at_star (pc ∷ rp) (c ∷ rn) else if match_one c pc then rest else answer false

-- Match the pattern prefix that ends with the first star; the star is passed over. The source
-- reads on until there is one, and there is one.
unfoldable pub match_prefix : Bytes → Bytes → Scan
match_prefix [] n = answer false
match_prefix (pc ∷ p) [] = if pc == 42 then at_star p [] else answer false
match_prefix (pc ∷ p) (c ∷ n) =
    let rest = match_prefix p n in
    if pc == 42 then at_star p (c ∷ n) else if match_one c pc then rest else answer false

-- The backtracking loop: the star matches more and more of the name.
unfoldable pub backtrack : (Bytes → Bool) → Bytes → Bool
backtrack m [] = m []
backtrack m (c ∷ n) = m (c ∷ n) || backtrack m n

-- What is matched against a pattern after a star.
unfoldable pub after_star : (Bytes → Bytes → Bool) → Scan → Bool
after_star m (answer b) = b
after_star m (at_star [] n) = true
after_star m (at_star (pc ∷ p) n) = backtrack (m (pc ∷ p)) n

-- The prefix, where the suffix left a star.
unfoldable pub after_suffix : (Bytes → Bytes → Bool) → Scan → Bool
after_suffix m (answer b) = b
after_suffix m (at_star rp rn) = after_star m (match_prefix (reverse rp) (reverse rn))

unfoldable pub match_no_brackets : ℕ → Bytes → Bytes → Bool
match_no_brackets zero p n = false
match_no_brackets (suc f) p n =
    after_suffix (match_no_brackets f) (match_suffix (reverse p) (reverse n))

-- Match the terms before the first star to the leading characters.
unfoldable pub match_next : (Bytes → Bytes → Scan) → Option (PathPatternTerm × Bytes) → Bytes → Scan
match_next rest none n = answer (is_empty n)
match_next rest (some r) [] = if is_star r.0.kind then at_star r.1 [] else answer false
match_next rest (some r) (c ∷ n) =
    if is_star r.0.kind
    then at_star r.1 (c ∷ n)
    else if match_term c r.0
    then rest r.1 n
    else answer false

unfoldable pub match_terms : ℕ → Bytes → Bytes → Scan
match_terms zero p n = answer false
match_terms (suc f) p n = match_next (match_terms f) (next p) n

unfoldable pub match : ℕ → Bytes → Bytes → Bool
match zero p n = false
match (suc f) p n =
    if not (has_byte 91 p)
    then match_no_brackets (suc (length p)) p n
    else after_star (match f) (match_terms (suc (length p)) p n)

-- Whether the last character is a directory separator, and the text without it then.
unfoldable pub trailing_separator : Bytes → Bool × Bytes
trailing_separator [] = (false, [])
trailing_separator (c ∷ []) = if c == 47 then (true, []) else (false, c ∷ [])
trailing_separator (c ∷ d ∷ s) = let r = trailing_separator (d ∷ s) in (r.0, c ∷ r.1)

-- `path_match` of a name and a pattern.
unfoldable pub path_match : Bytes → Bytes → Bool
path_match name pattern =
    let n = trailing_separator name in
    let p = trailing_separator pattern in
    if p.0
    then n.0 && match (suc (length p.1)) p.1 n.1
    else not n.0 && match (suc (length p.1)) p.1 n.1
