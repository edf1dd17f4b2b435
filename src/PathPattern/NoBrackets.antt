-- ===== src/PathPattern/NoBrackets.antt =====
-- `match_no_brackets`, which anchors the pattern at the end and at the start of the name before
-- it backtracks, against the straightforward matcher.
use libbutl.Prelude.{
  ℕ, zero, suc, ◌<◌, ◌≡◌, refl, sym, ap, ◌∙◌, Bool, true, false, ◌&&◌, [], ◌∷◌, ◌++◌, ◌==◌,
  if◌then◌else◌, Bytes, length, length-append, is_empty, has_byte, arith, reverse, Bool-cases, inl,
  inr, ==_iff,
}
use mathlib.Core.List.{reverse-cons, reverse-reverse}
use libbutl.PathPattern.Matcher.{
  Scan, answer, at_star, match_one, match_suffix, match_prefix, backtrack, after_star, after_suffix,
  match_no_brackets,
}
use libbutl.PathPattern.Reference.{accepts, accepts_one, backtrack_same, backtrack_empty}

-- A pattern that ends with another character than a star asks for one character more.
accepts_last_empty : (p : Bytes) (pc : ℕ) → (pc == 42) ≡ false → accepts (p ++ pc ∷ []) [] ≡ false
unfolding accepts accepts_one backtrack
accepts_last_empty [] pc h = rw h refl
accepts_last_empty (q ∷ p) pc h = ground (arith, accepts_last_empty p pc h)

backtrack_last :
    (f g : Bytes → Bool) (b : Bool) (c : ℕ)
    → f [] ≡ false
    → ((n : Bytes) → f (n ++ c ∷ []) ≡ (b && g n))
    → (n : Bytes) → backtrack f (n ++ c ∷ []) ≡ (b && backtrack g n)
unfolding backtrack
backtrack_last f g b c e h [] = rw (h [], e) (ground arith)
backtrack_last f g b c e h (d ∷ n) = ground (arith, h (d ∷ n), backtrack_last f g b c e h n)

accepts_one_last :
    (f g : Bytes → Bool) (b : Bool) (q c : ℕ)
    → f [] ≡ false
    → ((n : Bytes) → f (n ++ c ∷ []) ≡ (b && g n))
    → (n : Bytes) → accepts_one q f (n ++ c ∷ []) ≡ (b && accepts_one q g n)
unfolding accepts_one
accepts_one_last f g b q c e h [] = rw e (ground arith)
accepts_one_last f g b q c e h (d ∷ n) = rw (h n) (ground arith)

is_empty-last : (n : Bytes) (c : ℕ) → is_empty (n ++ c ∷ []) ≡ false
is_empty-last [] c = refl
is_empty-last (d ∷ n) c = refl

accepts_last :
    (p : Bytes) (pc c : ℕ)
    → (pc == 42) ≡ false
    → (n : Bytes) → accepts (p ++ pc ∷ []) (n ++ c ∷ []) ≡ (match_one c pc && accepts p n)
unfolding accepts accepts_one
accepts_last [] pc c h [] = ground arith
accepts_last [] pc c h (d ∷ n) = rw (h, is_empty-last n c) (ground arith)
accepts_last (q ∷ p) pc c h n =
    let f = accepts (p ++ pc ∷ []) in
    let g = accepts p in
    let b = match_one c pc in
    let e = accepts_last_empty p pc h in
    let step = accepts_last p pc c h in
    elim (q == 42)
      as (λ t.
        (if t then backtrack f (n ++ c ∷ []) else accepts_one q f (n ++ c ∷ []))
        ≡ (b && (if t then backtrack g n else accepts_one q g n))) [
          | true ↦ backtrack_last f g b c e step n
          | false ↦ accepts_one_last f g b q c e step n
        ]

-- What a scan leaves, read backwards, is accepted as before.
SuffixLeaves : Bool → Scan → Type 0
SuffixLeaves before (answer b) = b ≡ before
SuffixLeaves before (at_star rp rn) =
    (q : Bytes) × (rp ≡ 42 ∷ q) × (accepts (reverse rp) (reverse rn) ≡ before)

match_suffix-SuffixLeaves :
    (rp rn : Bytes) → SuffixLeaves (accepts (reverse rp) (reverse rn)) (match_suffix rp rn)
unfolding match_suffix accepts SuffixLeaves
match_suffix-SuffixLeaves [] [] = refl
match_suffix-SuffixLeaves [] (c ∷ rn) = rw (reverse-cons c rn) (sym (is_empty-last (reverse rn) c))
match_suffix-SuffixLeaves (pc ∷ rp) [] = elim (Bool-cases (pc == 42)) [
  | inl e ↦ rw e (rp, ap (λ x. x ∷ rp) ((==_iff pc 42).0 e), refl)
  | inr e ↦ rw (e, reverse-cons pc rp) (sym (accepts_last_empty (reverse rp) pc e))
]
match_suffix-SuffixLeaves (pc ∷ rp) (c ∷ rn) = elim (Bool-cases (pc == 42)) [
  | inl e ↦ rw e (rp, ap (λ x. x ∷ rp) ((==_iff pc 42).0 e), refl)
  | inr e ↦
      rw (e, reverse-cons pc rp, reverse-cons c rn, accepts_last (reverse rp) pc c e (reverse rn))
        (elim (match_one c pc)
          as (λ b.
            SuffixLeaves (b && accepts (reverse rp) (reverse rn))
              (if b then match_suffix rp rn else answer false)) [
                | true ↦ match_suffix-SuffixLeaves rp rn
                | false ↦ refl
              ])
]

-- A pattern with a star, once the part before its first star has been matched.
PrefixLeaves : Bool → Scan → Type 0
PrefixLeaves before (answer b) = b ≡ before
PrefixLeaves before (at_star p n) = backtrack (accepts p) n ≡ before

match_prefix-PrefixLeaves :
    (p n : Bytes) → has_byte 42 p ≡ true → PrefixLeaves (accepts p n) (match_prefix p n)
unfolding match_prefix accepts accepts_one PrefixLeaves
match_prefix-PrefixLeaves [] n h = cc
match_prefix-PrefixLeaves (pc ∷ p) [] h = elim (Bool-cases (pc == 42)) [
  | inl e ↦ rw e refl
  | inr e ↦ rw e refl
]
match_prefix-PrefixLeaves (pc ∷ p) (c ∷ n) h = elim (Bool-cases (pc == 42)) [
  | inl e ↦ rw e refl
  | inr e ↦
      let rest = match_prefix-PrefixLeaves p n (ground (arith, h, e)) in
      rw e
        (elim (match_one c pc)
          as (λ b. PrefixLeaves (b && accepts p n) (if b then match_prefix p n else answer false)) [
            | true ↦ rest
            | false ↦ refl
          ])
]

match_prefix_shorter : (p n q m : Bytes) → match_prefix p n ≡ at_star q m → length q < length p
unfolding match_prefix
match_prefix_shorter [] n q m h = cc
match_prefix_shorter (pc ∷ p) [] q m h = ground (arith, h)
match_prefix_shorter (pc ∷ p) (c ∷ n) q m h = elim (Bool-cases (match_one c pc)) [
  | inl e ↦ ground (arith, h, e, match_prefix_shorter p n q m)
  | inr e ↦ ground (arith, h, e)
]

match_suffix_shorter :
    (rp rn rq rm : Bytes) → match_suffix rp rn ≡ at_star rq rm → length rq < suc (length rp)
unfolding match_suffix
match_suffix_shorter [] rn rq rm h = cc
match_suffix_shorter (pc ∷ rp) [] rq rm h = ground (arith, h)
match_suffix_shorter (pc ∷ rp) (c ∷ rn) rq rm h = elim (Bool-cases (match_one c pc)) [
  | inl e ↦ ground (arith, h, e, match_suffix_shorter rp rn rq rm)
  | inr e ↦ ground (arith, h, e)
]

length-reverse : (s : Bytes) → length (reverse s) ≡ length s
length-reverse [] = refl
length-reverse (c ∷ s) =
    rw (reverse-cons c s) (omega (arith, length-append (reverse s) (c ∷ []), length-reverse s))

has_star_last : (s : Bytes) → has_byte 42 (s ++ 42 ∷ []) ≡ true
has_star_last [] = refl
has_star_last (c ∷ s) = ground (arith, has_star_last s)

after_star_lem :
    (m : Bytes → Bytes → Bool) (s : Scan) {b : Bool}
    → PrefixLeaves b s
    → ((q n : Bytes) → s ≡ at_star q n → (k : Bytes) → m q k ≡ accepts q k)
    → after_star m s ≡ b
unfolding after_star PrefixLeaves accepts
after_star_lem m (answer b) h same = h
after_star_lem m (at_star [] n) h same = sym (backtrack_empty n) ∙ h
after_star_lem m (at_star (pc ∷ p) n) h same =
    backtrack_same (m (pc ∷ p)) (accepts (pc ∷ p)) (same (pc ∷ p) n refl) n ∙ h

after_suffix_lem :
    (m : Bytes → Bytes → Bool) (s : Scan) {b : Bool}
    → SuffixLeaves b s
    → ((rq rn : Bytes)
        → s ≡ at_star rq rn
        → (q : Bytes) → length q < length rq
        → (k : Bytes) → m q k ≡ accepts q k)
    → after_suffix m s ≡ b
unfolding after_suffix SuffixLeaves
after_suffix_lem m (answer b) h same = h
after_suffix_lem m (at_star rq rn) {b} h same =
    let has_star : has_byte 42 (reverse rq) ≡ true =
      rw (h.1, reverse-cons 42 h.0) (has_star_last (reverse h.0)) in
    after_star_lem m (match_prefix (reverse rq) (reverse rn))
      (match_prefix-PrefixLeaves (reverse rq) (reverse rn) has_star)
      (λ q n e.
        same rq rn refl q
          (omega (arith, match_prefix_shorter (reverse rq) (reverse rn) q n e, length-reverse rq)))
    ∙ h.2

match_no_brackets_fuel :
    (f : ℕ) (p : Bytes) → length p < f → (n : Bytes) → match_no_brackets f p n ≡ accepts p n
unfolding match_no_brackets
match_no_brackets_fuel zero p len n = absurd (omega arith)
match_no_brackets_fuel (suc f) p len n =
    let same_start : accepts p n ≡ accepts (reverse (reverse p)) (reverse (reverse n)) =
      rw (reverse-reverse p, reverse-reverse n) refl in
    let leaves : SuffixLeaves (accepts p n) (match_suffix (reverse p) (reverse n)) =
      rw same_start (match_suffix-SuffixLeaves (reverse p) (reverse n)) in
    after_suffix_lem (match_no_brackets f) (match_suffix (reverse p) (reverse n)) leaves
      (λ rq rn e q shorter k.
        match_no_brackets_fuel f q
          (omega (
            arith,
            shorter,
            match_suffix_shorter (reverse p) (reverse n) rq rn e,
            length-reverse p,
          ))
          k)

-- The matcher that anchors a pattern without brackets at the end and at the start of the name
-- before it backtracks agrees with matching its characters from left to right, where each star
-- matches any text; the fuel that it is given suffices.
pub match_no_brackets-accepts : (p n : Bytes) → match_no_brackets (suc (length p)) p n ≡ accepts p n
match_no_brackets-accepts p n = match_no_brackets_fuel (suc (length p)) p (omega arith) n
