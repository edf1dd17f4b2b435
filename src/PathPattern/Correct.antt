-- ===== src/PathPattern/Correct.antt =====
-- `match`, which goes over to `match_no_brackets` where it can, against the straightforward matcher.
use libbutl.Prelude.{
  ℕ, zero, suc, ◌<◌, ◌≡◌, refl, sym, ◌∙◌, Bool, true, false, ◌&&◌, none, some, [], ◌∷◌, ◌==◌,
  if◌then◌else◌, Bytes, length, is_empty, has_byte, arith, Option-cases, Bool-cases, inl, inr,
}
use libbutl.PathPattern.Terms.{PathPatternTerm, is_star, match_term, next, get_literal}
use libbutl.PathPattern.Matcher.{
  Scan, answer, at_star, backtrack, after_star, match_next, match_terms, match,
}
use libbutl.PathPattern.Reference.{
  accepts, accepts_one, accepts_terms, accepts_term, terms, backtrack_same, backtrack_empty,
  next_shorter,
}
use libbutl.PathPattern.NoBrackets.{match_no_brackets-accepts}

-- A character that does not start a bracket expression is a term.
accepts_terms_plain :
    (f pc : ℕ) (p n : Bytes)
    → (pc == 91) ≡ false
    → accepts_terms (terms (suc f) (pc ∷ p)) n ≡ (
        if pc == 42
        then backtrack (accepts_terms (terms f p)) n
        else accepts_one pc (accepts_terms (terms f p)) n)
unfolding terms accepts_terms accepts_term accepts_one next match_term get_literal
accepts_terms_plain f pc p [] h = ground (arith, h)
accepts_terms_plain f pc p (c ∷ n) h = ground (arith, h)

accepts_one_same :
    (pc : ℕ) (f g : Bytes → Bool)
    → ((n : Bytes) → f n ≡ g n)
    → (n : Bytes) → accepts_one pc f n ≡ accepts_one pc g n
unfolding accepts_one
accepts_one_same pc f g h [] = refl
accepts_one_same pc f g h (c ∷ n) = rw (h n) refl

accepts_terms_nil : (f : ℕ) (n : Bytes) → accepts_terms (terms f []) n ≡ is_empty n
unfolding terms accepts_terms next
accepts_terms_nil zero n = refl
accepts_terms_nil (suc f) n = refl

accepts_terms-accepts :
    (f : ℕ) (p : Bytes)
    → has_byte 91 p ≡ false
    → length p < f
    → (n : Bytes) → accepts_terms (terms f p) n ≡ accepts p n
unfolding accepts
accepts_terms-accepts zero p h len n = absurd (omega arith)
accepts_terms-accepts (suc f) [] h len n = accepts_terms_nil (suc f) n
accepts_terms-accepts (suc f) (pc ∷ p) h len n =
    let rest = accepts_terms-accepts f p (ground (arith, h)) (omega arith) in
    accepts_terms_plain f pc p n (ground (arith, h))
    ∙ elim (pc == 42)
        as (λ b.
          (if b
            then backtrack (accepts_terms (terms f p)) n
            else accepts_one pc (accepts_terms (terms f p)) n)
          ≡ (if b then backtrack (accepts p) n else accepts_one pc (accepts p) n)) [
            | true ↦ backtrack_same (accepts_terms (terms f p)) (accepts p) rest n
            | false ↦ accepts_one_same pc (accepts_terms (terms f p)) (accepts p) rest n
          ]

-- Matching after a star, if the recursive call agrees with the reference on the rest.
after_star-at_star :
    (m : Bytes → Bytes → Bool) (f : ℕ) (q n : Bytes)
    → ((k : Bytes) → m q k ≡ accepts_terms (terms f q) k)
    → after_star m (at_star q n) ≡ backtrack (accepts_terms (terms f q)) n
unfolding after_star
after_star-at_star m f [] n h = sym (
    backtrack_same (accepts_terms (terms f [])) is_empty (accepts_terms_nil f) n
    ∙ backtrack_empty n)
after_star-at_star m f (pc ∷ p) n h =
    backtrack_same (m (pc ∷ p)) (accepts_terms (terms f (pc ∷ p))) h n

-- `m` agrees with the reference, on fuel `f`, for patterns shorter than `k`.
abbrev Agrees : (Bytes → Bytes → Bool) → ℕ → Type 0
Agrees m k =
    (f : ℕ) (q : Bytes)
    → length q < k
    → length q < f
    → (n : Bytes) → m q n ≡ accepts_terms (terms f q) n

match_next_star :
    (scan : Bytes → Bytes → Scan) (r : PathPatternTerm × Bytes) (n : Bytes)
    → is_star r.0.kind ≡ true
    → match_next scan (some r) n ≡ at_star r.1 n
unfolding match_next
match_next_star scan r [] e = rw e refl
match_next_star scan r (c ∷ n) e = rw e refl

match_next_one :
    (m : Bytes → Bytes → Bool) (scan : Bytes → Bytes → Scan) (f : ℕ) (r : PathPatternTerm × Bytes)
    → is_star r.0.kind ≡ false
    → ((n : Bytes) → after_star m (scan r.1 n) ≡ accepts_terms (terms f r.1) n)
    → (n : Bytes)
    → after_star m (match_next scan (some r) n) ≡ accepts_term r.0 (accepts_terms (terms f r.1)) n
unfolding match_next accepts_term after_star
match_next_one m scan f r e h [] = rw e refl
match_next_one m scan f r e h (c ∷ n) =
    rw e
      (elim (match_term c r.0)
        as (λ b.
          after_star m (if b then scan r.1 n else answer false)
          ≡ (b && accepts_terms (terms f r.1) n)) [ true ↦ h n | false ↦ refl ])

match_next-accepts_terms :
    (m : Bytes → Bytes → Bool) (scan : Bytes → Bytes → Scan) (f k : ℕ) (r : PathPatternTerm × Bytes)
    → length r.1 < k
    → length r.1 < f
    → Agrees m k
    → ((n : Bytes) → after_star m (scan r.1 n) ≡ accepts_terms (terms f r.1) n)
    → (n : Bytes) → after_star m (match_next scan (some r) n) ≡ accepts_terms (r.0 ∷ terms f r.1) n
unfolding accepts_terms
match_next-accepts_terms m scan f k r lk lf agrees h n = elim (Bool-cases (is_star r.0.kind)) [
  | inl e ↦ rw (e, match_next_star scan r n e) (after_star-at_star m f r.1 n (agrees f r.1 lk lf))
  | inr e ↦ rw e (match_next_one m scan f r e h n)
]

terms-none : (f : ℕ) (p : Bytes) → next p ≡ none → terms (suc f) p ≡ []
unfolding terms
terms-none f p e = rw (e, terms) refl

terms-some :
    (f : ℕ) (p : Bytes) (r : PathPatternTerm × Bytes)
    → next p ≡ some r
    → terms (suc f) p ≡ r.0 ∷ terms f r.1
unfolding terms
terms-some f p r e = rw (e, terms) refl

match_next-none :
    (m : Bytes → Bytes → Bool) (scan : Bytes → Bytes → Scan) (n : Bytes)
    → after_star m (match_next scan none n) ≡ accepts_terms [] n
unfolding match_next after_star accepts_terms
match_next-none m scan n = refl

match_terms-accepts_terms :
    (m : Bytes → Bytes → Bool) (g f k : ℕ) (p : Bytes)
    → length p < suc k
    → length p < g
    → length p < f
    → Agrees m k
    → (n : Bytes) → after_star m (match_terms g p n) ≡ accepts_terms (terms f p) n
unfolding match_terms
match_terms-accepts_terms m zero f k p lk lg lf agrees n = absurd (omega arith)
match_terms-accepts_terms m (suc g) zero k p lk lg lf agrees n = absurd (omega arith)
match_terms-accepts_terms m (suc g) (suc f) k p lk lg lf agrees n = elim (Option-cases (next p)) [
  | inl e ↦ rw (e, terms-none f p e) (match_next-none m (match_terms g) n)
  | inr e ↦
      let shorter = next_shorter p (e.1) in
      rw (e.1, terms-some f p (e.0) (e.1))
        (match_next-accepts_terms m (match_terms g) f k (e.0) (omega (arith, shorter))
          (omega (arith, shorter)) agrees
          (match_terms-accepts_terms m g f k (e.0).1 (omega (arith, shorter))
            (omega (arith, shorter)) (omega (arith, shorter)) agrees)
          n)
]

match_fuel :
    (k f : ℕ) (p : Bytes)
    → length p < k
    → length p < f
    → (n : Bytes) → match k p n ≡ accepts_terms (terms f p) n
unfolding match
match_fuel zero f p lk lf n = absurd (omega arith)
match_fuel (suc k) f p lk lf n = elim (Bool-cases (has_byte 91 p)) [
  | inl e ↦ rw e (
      match_terms-accepts_terms (match k) (suc (length p)) f k p lk (omega arith) lf
        (λ g q lq lg. match_fuel k g q lq lg) n)
  | inr e ↦ rw e (match_no_brackets-accepts p n ∙ sym (accepts_terms-accepts f p e lf n))
]

-- Matching a name to a pattern, with the shortcut for patterns without brackets, agrees with
-- matching the terms of the pattern from left to right, where a star matches any text and another
-- term one character that it stands for; the fuel that it is given suffices.
pub match-accepts_terms :
    (p n : Bytes) → match (suc (length p)) p n ≡ accepts_terms (terms (suc (length p)) p) n
match-accepts_terms p n =
    match_fuel (suc (length p)) (suc (length p)) p (omega arith) (omega arith) n
