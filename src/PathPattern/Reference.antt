-- ===== src/PathPattern/Reference.antt =====
-- The straightforward matcher: the terms of a pattern from left to right.
use libbutl.Prelude.{
  ℕ, zero, suc, ◌<◌, ◌≡◌, refl, Bool, true, false, ◌&&◌, none, some, List, [], ◌∷◌, ◌==◌,
  if◌then◌else◌, Bytes, length, is_empty, arith, Option-cases, inl, inr,
}
use libbutl.PathPattern.Terms.{PathPatternTerm, is_star, match_term, next, find_close, bracket_end}
use libbutl.PathPattern.Matcher.{backtrack, match_one}

-- The terms of a pattern, on fuel.
unfoldable pub terms : ℕ → Bytes → List PathPatternTerm
terms zero p = []
terms (suc f) p = elim (next p) [ none ↦ [] | some r ↦ r.0 ∷ terms f r.1 ]

-- A star matches any text, another term one character.
unfoldable pub accepts_term : PathPatternTerm → (Bytes → Bool) → Bytes → Bool
accepts_term t rest [] = false
accepts_term t rest (c ∷ n) = match_term c t && rest n

unfoldable pub accepts_terms : List PathPatternTerm → Bytes → Bool
accepts_terms [] n = is_empty n
accepts_terms (t ∷ ts) n =
    if is_star t.kind then backtrack (accepts_terms ts) n else accepts_term t (accepts_terms ts) n

-- The same for a pattern without brackets, each of whose characters is a term.
unfoldable pub accepts_one : ℕ → (Bytes → Bool) → Bytes → Bool
accepts_one pc rest [] = false
accepts_one pc rest (c ∷ n) = match_one c pc && rest n

unfoldable pub accepts : Bytes → Bytes → Bool
accepts [] n = is_empty n
accepts (pc ∷ p) n = if pc == 42 then backtrack (accepts p) n else accepts_one pc (accepts p) n

pub backtrack_same :
    (f g : Bytes → Bool) → ((n : Bytes) → f n ≡ g n) → (n : Bytes) → backtrack f n ≡ backtrack g n
unfolding backtrack
backtrack_same f g h [] = h []
backtrack_same f g h (c ∷ n) = rw (h (c ∷ n), backtrack_same f g h n) refl

pub backtrack_empty : (n : Bytes) → backtrack is_empty n ≡ true
unfolding backtrack
backtrack_empty [] = refl
backtrack_empty (c ∷ n) = backtrack_empty n

find_close_shorter : (s : Bytes) {r : Bytes × Bytes} → find_close s ≡ some r → length r.1 < length s
unfolding find_close
find_close_shorter [] h = cc
find_close_shorter (c ∷ s) h = elim (Option-cases (find_close s)) [
  | inl e ↦ ground (arith, h, e)
  | inr e ↦ ground (arith, h, e.1, find_close_shorter s (e.1))
]

bracket_end_shorter :
    (s : Bytes) {r : Bytes × Bytes} → bracket_end s ≡ some r → length r.1 < length s
unfolding bracket_end
bracket_end_shorter [] h = cc
bracket_end_shorter (c ∷ []) h = cc
bracket_end_shorter (c ∷ d ∷ s) h = elim (Option-cases (find_close s)) [
  | inl e ↦ elim (Option-cases (find_close (d ∷ s))) [
    | inl e' ↦ ground (arith, h, e, e')
    | inr e' ↦ ground (arith, h, e, e'.1, find_close_shorter (d ∷ s) (e'.1))
  ]
  | inr e ↦ elim (Option-cases (find_close (d ∷ s))) [
    | inl e' ↦ ground (arith, h, e.1, e', find_close_shorter s (e.1))
    | inr e' ↦
        ground (arith, h, e.1, e'.1, find_close_shorter (d ∷ s) (e'.1), find_close_shorter s (e.1))
  ]
]

-- The text after a term is shorter.
pub next_shorter :
    (p : Bytes) {r : PathPatternTerm × Bytes} → next p ≡ some r → length r.1 < length p
unfolding next
next_shorter [] h = cc
next_shorter (c ∷ s) h = elim (Option-cases (bracket_end s)) [
  | inl e ↦ ground (arith, h, e)
  | inr e ↦ ground (arith, h, e.1, bracket_end_shorter s (e.1))
]
