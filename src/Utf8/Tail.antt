-- ===== src/Utf8/Tail.antt =====
-- The bytes of a sequence after its first.
use libbutl.Prelude.{
  ℕ, zero, suc, ◌+◌, ◌*◌, ◌%◌, ◌<◌, ◌≡◌, ◌⊎◌, inl, inr, refl, ap, ◌∙◌, Bool, true, false, Option,
  none, some, [], ◌∷◌, ◌==◌, ◌&&◌, if◌then◌else◌, Bytes, arith, bit_and, bit_or_shl_6_any, passes,
  passes_at, ==_iff, All, Bool-cases,
}
use libbutl.Utf8.Validator.{
  Utf8Validator, verdict, belongs, allowed, finish_byte, validate_next, validate, length_loop,
}

mask_table :
    passes
      (λ b.
        (bit_and b 0x3F == b % 64)
        && (bit_and b 0x1F == b % 32)
        && (bit_and b 0xF == b % 16)
        && (bit_and b 0x7 == b % 8))
      256
    ≡ true
unfolding passes
mask_table = refl

-- A mask of the lowest bits takes the remainder.
pub masks :
    (b : ℕ)
    → b < 256
    → (bit_and b 0x3F ≡ b % 64)
      × (bit_and b 0x1F ≡ b % 32)
      × (bit_and b 0xF ≡ b % 16)
      × (bit_and b 0x7 ≡ b % 8)
masks b h =
    let t =
      passes_at
        (λ b.
          (bit_and b 0x3F == b % 64)
          && (bit_and b 0x1F == b % 32)
          && (bit_and b 0xF == b % 16)
          && (bit_and b 0x7 == b % 8))
        256 b h mask_table in
    ground (arith, t)

-- The bytes that follow the first one: the codepoint and what is left.
unfoldable pub read_tail : ℕ → ℕ → ℕ → ℕ → Bytes → Option (ℕ × Bytes)
read_tail zero c l r s = some (c, s)
read_tail (suc m) c l r [] = none
read_tail (suc m) c l r (b ∷ s) =
    if belongs b l r then read_tail m (c * 64 + b % 64) 0x80 0xBF s else none

-- The count that a loop ends with, if it succeeds.
abbrev pub count_of : Bytes ⊎ ℕ → Option ℕ
count_of (inl e) = none
count_of (inr n) = some n

-- The loop after a whole sequence, at a validator that starts the next one.
abbrev pub after_sequence : Utf8Validator → ℕ → Option (ℕ × Bytes) → Option ℕ
after_sequence v r none = none
after_sequence v r (some (c, s)) =
    if allowed v.types v.whitelist c
    then count_of (length_loop (record v { seq_index = 0; codepoint = c }) (suc r) true s)
    else none

abbrev in_range : Utf8Validator → ℕ → Bool
in_range v b =
    if v.seq_index == 1 then belongs b v.byte2_first v.byte2_last else belongs b 0x80 0xBF

abbrev advance : Utf8Validator → ℕ → Utf8Validator
advance v b = record v { codepoint = v.codepoint * 64 + b % 64; seq_index = suc v.seq_index }

validate-advance :
    (v : Utf8Validator) (b j : ℕ)
    → b < 256
    → v.seq_index ≡ suc j
    → in_range v b ≡ true
    → validate v b ≡ finish_byte (advance v b)
unfolding validate validate_next
validate-advance v b j hb hi hr =
    let started : (v.seq_index == 0) ≡ false = rw hi (ground arith) in
    let low : bit_and b 0x3F ≡ b % 64 = (masks b hb).0 in
    rw (started, hr, low, bit_or_shl_6_any v.codepoint (b % 64) (omega arith)) refl

validate-refuse :
    (v : Utf8Validator) (b j : ℕ)
    → v.seq_index ≡ suc j
    → in_range v b ≡ false
    → (validate v b).0.valid ≡ false
unfolding validate validate_next
validate-refuse v b j hi hr =
    let started : (v.seq_index == 0) ≡ false = rw hi (ground arith) in rw (started, hr) refl

-- One byte of the loop.
pub length_loop-refuse :
    (v : Utf8Validator) (r : ℕ) (last : Bool) (b : ℕ) (s : Bytes)
    → (validate v b).0.valid ≡ false
    → count_of (length_loop v r last (b ∷ s)) ≡ none
unfolding length_loop
length_loop-refuse v r last b s h = rw h refl

pub length_loop-continue :
    (v w : Utf8Validator) (r : ℕ) (last : Bool) (b : ℕ) (s : Bytes)
    → validate v b ≡ (verdict true false [], w)
    → length_loop v r last (b ∷ s) ≡ length_loop w r false s
unfolding length_loop
length_loop-continue v w r last b s h = rw h refl

pub length_loop_complete :
    (v w : Utf8Validator) (r : ℕ) (last : Bool) (b : ℕ) (s : Bytes)
    → validate v b ≡ finish_byte w
    → w.seq_index ≡ w.seq_size
    → count_of (length_loop v r last (b ∷ s)) ≡ after_sequence w r (some (w.codepoint, s))
unfolding length_loop finish_byte
length_loop_complete v w r last b s h e =
    let full : (w.seq_index == w.seq_size) ≡ true = (==_iff w.seq_index w.seq_size).1 e in
    elim (Bool-cases (allowed w.types w.whitelist w.codepoint)) [
      | inl a ↦ rw (h, full, a) refl
      | inr a ↦ rw (h, full, a) refl
    ]

pub finish_byte-open :
    (w : Utf8Validator) → w.seq_index < w.seq_size → finish_byte w ≡ (verdict true false [], w)
unfolding finish_byte
finish_byte-open w h =
    let open_sequence : (w.seq_index == w.seq_size) ≡ false = ground arith in rw open_sequence refl

in_range-later :
    (v : Utf8Validator) (b j : ℕ)
    → v.seq_index ≡ suc j
    → (c : ℕ) → in_range (advance v b) c ≡ belongs c 0x80 0xBF
in_range-later v b j hi c =
    let later : (suc v.seq_index == 1) ≡ false = rw hi (ground arith) in rw later refl

-- From the second byte on, the loop reads the rest of a sequence.
pub length_loop-tail :
    (m : ℕ) (v : Utf8Validator) (r j l h : ℕ) (s : Bytes)
    → All (λ b. b < 256) s
    → v.seq_index ≡ suc j
    → v.seq_size ≡ suc j + suc m
    → ((b : ℕ) → in_range v b ≡ belongs b l h)
    → count_of (length_loop v r false s) ≡ after_sequence v r (read_tail (suc m) v.codepoint l h s)
unfolding read_tail
length_loop-tail m v r j l h [] bytes hi hs hr = unfold length_loop in refl
length_loop-tail zero v r j l h (b ∷ s) bytes hi hs hr = elim (Bool-cases (belongs b l h)) [
  | inl e ↦ rw e (
      length_loop_complete v (advance v b) r false b s
        (validate-advance v b j bytes.0 hi (hr b ∙ e)) (omega (arith, hi, hs)))
  | inr e ↦ rw e (length_loop-refuse v r false b s (validate-refuse v b j hi (hr b ∙ e)))
]
length_loop-tail (suc m) v r j l h (b ∷ s) bytes hi hs hr = elim (Bool-cases (belongs b l h)) [
  | inl e ↦ rw e (
      ap count_of (
        length_loop-continue v (advance v b) r false b s (
          validate-advance v b j bytes.0 hi (hr b ∙ e)
          ∙ finish_byte-open (advance v b) (omega (arith, hi, hs))))
      ∙ length_loop-tail m (advance v b) r (suc j) 0x80 0xBF s bytes.1 (ap suc hi)
          (omega (arith, hs)) (in_range-later v b j hi))
  | inr e ↦ rw e (length_loop-refuse v r false b s (validate-refuse v b j hi (hr b ∙ e)))
]
