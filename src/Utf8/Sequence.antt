-- ===== src/Utf8/Sequence.antt =====
-- The first byte of a sequence, and whole sequences.
use libbutl.Prelude.{
  ℕ, zero, suc, ◌-◌, ◌<◌, ◌≡◌, inl, inr, refl, ap, ◌∙◌, Bool, true, false, Option, none, some, [],
  ◌∷◌, ltb, ◌==◌, ◌&&◌, if◌then◌else◌, Bytes, arith, passes, passes_at, All, Option-cases,
}
use libbutl.Utf8.Validator.{
  Utf8Validator, first_bits, second_range, allowed, finish_byte, validate_first, validate,
  length_loop,
}
use libbutl.Utf8.Tail.{
  read_tail, count_of, after_sequence, length_loop-refuse, length_loop-continue,
  length_loop_complete, finish_byte-open, length_loop-tail,
}

-- What the first byte says: how many bytes follow, its bits of the codepoint, and the range of the
-- second byte.
unfoldable pub lead : ℕ → Option (ℕ × ℕ × ℕ × ℕ)
lead b =
    if ltb b 0x80
    then some (0, b, 0, 0)
    else if ltb b 0xC2
    then none
    else if ltb b 0xE0
    then some (1, b - 0xC0, 0x80, 0xBF)
    else if b == 0xE0
    then some (2, 0, 0xA0, 0xBF)
    else if b == 0xED
    then some (2, 0xD, 0x80, 0x9F)
    else if ltb b 0xF0
    then some (2, b - 0xE0, 0x80, 0xBF)
    else if b == 0xF0
    then some (3, 0, 0x90, 0xBF)
    else if ltb b 0xF4
    then some (3, b - 0xF0, 0x80, 0xBF)
    else if b == 0xF4
    then some (3, 4, 0x80, 0x8F)
    else none

-- The same from the steps of the code.
with_second : ℕ × ℕ → Option (ℕ × ℕ) → Option (ℕ × ℕ × ℕ × ℕ)
with_second f none = none
with_second f (some r) = some (f.0, f.1, r.0, r.1)

with_first : ℕ → Option (ℕ × ℕ) → Option (ℕ × ℕ × ℕ × ℕ)
with_first b none = none
with_first b (some f) = with_second f (second_range f.0 b (0, 0))

lead_steps : ℕ → Option (ℕ × ℕ × ℕ × ℕ)
lead_steps b = with_first b (first_bits b)

abbrev same_lead : Option (ℕ × ℕ × ℕ × ℕ) → Option (ℕ × ℕ × ℕ × ℕ) → Bool
same_lead none none = true
same_lead none (some y) = false
same_lead (some x) none = false
same_lead (some x) (some y) = (x.0 == suc y.0) && (x.1 == y.1) && (x.2 == y.2) && (x.3 == y.3)

lead_table : passes (λ b. same_lead (lead_steps b) (lead b)) 256 ≡ true
unfolding passes lead first_bits second_range lead_steps with_first with_second
lead_table = refl

-- A validator after the first byte.
abbrev started : Utf8Validator → ℕ × ℕ × ℕ × ℕ → Utf8Validator
started v (zero, c, l, h) = record v { seq_size = 1; codepoint = c; seq_index = 1 }
started v (suc m, c, l, h) = record v {
  seq_size = suc (suc m);
  codepoint = c;
  byte2_first = l;
  byte2_last = h;
  seq_index = 1;
}

second_range_one : (b : ℕ) (range : ℕ × ℕ) → second_range 1 b range ≡ some range
unfolding second_range
second_range_one b range = refl

second_range_more :
    (m b : ℕ) (range : ℕ × ℕ)
    → second_range (suc (suc m)) b range ≡ second_range (suc (suc m)) b (0, 0)
unfolding second_range
second_range_more m b range = ground arith

-- The steps of the code for the first byte.
data Steps (b : ℕ) (f : ℕ × ℕ × ℕ × ℕ) : Type 0 where
  steps :
      first_bits b ≡ some (suc f.0, f.1)
      → second_range (suc f.0) b (0, 0) ≡ some (f.2, f.3)
      → Steps b f

same_lead-Steps :
    (b : ℕ) (f : ℕ × ℕ × ℕ × ℕ) {g r : ℕ × ℕ}
    → same_lead (lead_steps b) (some f) ≡ true
    → first_bits b ≡ some g
    → second_range g.0 b (0, 0) ≡ some r
    → Steps b f
unfolding lead_steps with_first with_second
same_lead-Steps b f {g} {r} t e e' =
    let same : same_lead (some (g.0, g.1, r.0, r.1)) (some f) ≡ true =
      rw (e, with_first, e', with_second) at t in
    steps (ground (arith, e, same)) (ground (arith, e', same))

lead-Steps : (b : ℕ) (f : ℕ × ℕ × ℕ × ℕ) → b < 256 → lead b ≡ some f → Steps b f
unfolding lead_steps with_first with_second
lead-Steps b f hb h =
    let t : same_lead (lead_steps b) (some f) ≡ true =
      rw h at (passes_at (λ b. same_lead (lead_steps b) (lead b)) 256 b hb lead_table) in
    elim (Option-cases (first_bits b)) [
      | inl e ↦ absurd (ground (arith, t, e))
      | inr (g, e) ↦ elim (Option-cases (second_range g.0 b (0, 0))) [
        | inl e' ↦ absurd (ground (arith, t, e, e'))
        | inr (r, e') ↦ same_lead-Steps b f t e e'
      ]
    ]

validate_first-steps :
    (v : Utf8Validator) (b : ℕ) (g r : ℕ × ℕ)
    → first_bits b ≡ some g
    → second_range g.0 b (v.byte2_first, v.byte2_last) ≡ some r
    → validate_first v b
      ≡ finish_byte (record v {
        seq_size = g.0;
        codepoint = g.1;
        byte2_first = r.0;
        byte2_last = r.1;
        seq_index = 1;
      })
unfolding validate_first
validate_first-steps v b g r e e' = rw (e, validate_first, e') refl

validate-started : (v : Utf8Validator) (b : ℕ) → v.seq_index ≡ 0 → validate v b ≡ validate_first v b
unfolding validate
validate-started v b hi = rw hi refl

validate-lead :
    (v : Utf8Validator) (b : ℕ) (f : ℕ × ℕ × ℕ × ℕ)
    → b < 256
    → v.seq_index ≡ 0
    → lead b ≡ some f
    → validate v b ≡ finish_byte (started v f)
validate-lead v b (zero, c, l, h) hb hi e = elim (lead-Steps b (zero, c, l, h) hb e) [
  | steps first second ↦
      validate-started v b hi
      ∙ validate_first-steps v b (1, c) (v.byte2_first, v.byte2_last) first
          (second_range_one b (v.byte2_first, v.byte2_last))
]
validate-lead v b (suc m, c, l, h) hb hi e = elim (lead-Steps b (suc m, c, l, h) hb e) [
  | steps first second ↦
      validate-started v b hi
      ∙ validate_first-steps v b (suc (suc m), c) (l, h) first
          (second_range_more m b (v.byte2_first, v.byte2_last) ∙ second)
]

second_range-none :
    (size b : ℕ) (range : ℕ × ℕ)
    → second_range size b (0, 0) ≡ none
    → second_range size b range ≡ none
unfolding second_range
second_range-none size b range h = ground (arith, h)

no_lead-validate_first :
    (v : Utf8Validator) (b : ℕ) → b < 256 → lead b ≡ none → (validate_first v b).0.valid ≡ false
unfolding validate_first lead_steps with_first with_second
no_lead-validate_first v b hb h =
    let t : same_lead (lead_steps b) none ≡ true =
      rw h at (passes_at (λ b. same_lead (lead_steps b) (lead b)) 256 b hb lead_table) in
    elim (Option-cases (first_bits b)) [
      | inl e ↦ rw (e, validate_first) refl
      | inr (g, e) ↦ elim (Option-cases (second_range g.0 b (0, 0))) [
        | inl e' ↦
            rw (e, validate_first, second_range-none g.0 b (v.byte2_first, v.byte2_last) e') refl
        | inr (r, e') ↦ absurd (ground (arith, t, e, e'))
      ]
    ]

-- A whole sequence: its codepoint and what follows it.
unfoldable pub read_from : Option (ℕ × ℕ × ℕ × ℕ) → Bytes → Option (ℕ × Bytes)
read_from none s = none
read_from (some f) s = read_tail f.0 f.1 f.2 f.3 s

unfoldable pub read_sequence : Bytes → Option (ℕ × Bytes)
read_sequence [] = none
read_sequence (b ∷ s) = read_from (lead b) s

-- The loop over a whole sequence.
pub length_loop-sequence :
    (v : Utf8Validator) (r : ℕ) (last : Bool) (b : ℕ) (s : Bytes)
    → All (λ b. b < 256) (b ∷ s)
    → v.seq_index ≡ 0
    → (w : Utf8Validator) × (w.types ≡ v.types)
      × (w.whitelist ≡ v.whitelist)
      × (count_of (length_loop v r last (b ∷ s)) ≡ after_sequence w r (read_sequence (b ∷ s)))
unfolding read_sequence read_from read_tail allowed
length_loop-sequence v r last b s bytes hi = elim (Option-cases (lead b)) [
  | inl e ↦ (
    v,
    refl,
    refl,
    rw e (
        length_loop-refuse v r last b s
          (rw (validate-started v b hi) (no_lead-validate_first v b bytes.0 e))),
  )
  | inr ((zero, c, l, h), e) ↦
      let w = started v (zero, c, l, h) in
      (
        w,
        refl,
        refl,
        rw e (
            length_loop_complete v w r last b s (validate-lead v b (zero, c, l, h) bytes.0 hi e)
              refl),
      )
  | inr ((suc m, c, l, h), e) ↦
      let w = started v (suc m, c, l, h) in
      (
        w,
        refl,
        refl,
        rw e (
            ap count_of (
              length_loop-continue v w r last b s (
                validate-lead v b (suc m, c, l, h) bytes.0 hi e ∙ finish_byte-open w (omega arith)))
            ∙ length_loop-tail m w r 0 l h s bytes.1 refl (omega arith) (λ b. refl)),
      )
]
