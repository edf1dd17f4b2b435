-- ===== src/Utf8/Ascii.antt =====
-- A byte below 128 is a sequence of its own.
use libbutl.Prelude.{
  ℕ, true, false, not, ◌||◌, ◌≡◌, ◌==◌, refl, ap, ◌∙◌, leb, ltb, some, arith, Option-cases,
  Bool-cases, inl, inr, if◌then◌else◌,
}
use libbutl.Utf8.Validator.{
  Utf8Validator, validate, validate_first, validate_next, finish_byte, first_bits, second_range,
  belongs, allowed,
}

-- The range of a second byte that is expected starts at 128.
abbrev pub IsSteady : Utf8Validator → Type 0
IsSteady v = (not (v.seq_index == 1) || leb 128 v.byte2_first) ≡ true

second_range-high :
    (size b : ℕ) (x r : ℕ × ℕ)
    → (size == 1) ≡ false
    → second_range size b x ≡ some r
    → leb 128 (r.0) ≡ true
unfolding second_range
second_range-high size b x r h e = ground (arith, h, e)

finish_byte-IsSteady :
    (v : Utf8Validator)
    → (v.seq_index == v.seq_size || not (v.seq_index == 1) || leb 128 v.byte2_first) ≡ true
    → IsSteady ((finish_byte v).1)
unfolding finish_byte
finish_byte-IsSteady v h = elim (Bool-cases (v.seq_index == v.seq_size)) [
  | inl e ↦ rw e refl
  | inr e ↦ rw e (ground (arith, h, e))
]

validate_first-IsSteady :
    (v : Utf8Validator) (c : ℕ) → IsSteady v → IsSteady ((validate_first v c).1)
unfolding validate_first
validate_first-IsSteady v c h = elim (Option-cases (first_bits c)) [
  | inl e ↦ rw (e, validate_first) h
  | inr (f, e) ↦ elim (Option-cases (second_range f.0 c (v.byte2_first, v.byte2_last))) [
    | inl g ↦ rw (e, validate_first) (rw (g, validate_first) h)
    | inr (r, g) ↦
        rw (e, validate_first)
          (rw (g, validate_first)
            (finish_byte-IsSteady _ (elim (Bool-cases (f.0 == 1)) [
              | inl k ↦ ground (arith, k)
              | inr k ↦ ground (arith, second_range-high (f.0) c _ r k g)
            ])))
  ]
]

validate_next-IsSteady :
    (v : Utf8Validator) (c : ℕ)
    → (v.seq_index == 0) ≡ false
    → IsSteady v
    → IsSteady ((validate_next v c).1)
unfolding validate_next
validate_next-IsSteady v c n h =
    elim (Bool-cases
      (if v.seq_index == 1 then belongs c v.byte2_first v.byte2_last else belongs c 0x80 0xBF)) [
        | inl e ↦ rw e (finish_byte-IsSteady _ (ground (arith, n)))
        | inr e ↦ rw e h
      ]

pub validate-IsSteady : (v : Utf8Validator) (c : ℕ) → IsSteady v → IsSteady ((validate v c).1)
unfolding validate
validate-IsSteady v c h = elim (Bool-cases (v.seq_index == 0)) [
  | inl e ↦ rw e (validate_first-IsSteady v c h)
  | inr e ↦ rw e (validate_next-IsSteady v c e h)
]

first_bits-ascii : (c : ℕ) → ltb c 128 ≡ true → first_bits c ≡ some (1, c)
unfolding first_bits
first_bits-ascii c l = rw l refl

validate_first-last :
    (v : Utf8Validator) (c : ℕ) → ltb c 128 ≡ true → (validate_first v c).0.last ≡ true
unfolding validate_first second_range finish_byte
validate_first-last v c l =
    rw (first_bits-ascii c l, validate_first)
      (elim (Bool-cases (allowed v.types v.whitelist c)) [ inl e ↦ rw e refl | inr e ↦ rw e refl ])

validate_next-high :
    (v : Utf8Validator) (c : ℕ)
    → IsSteady v
    → ltb c 128 ≡ true
    → (validate_next v c).0.valid ≡ false
unfolding validate_next
validate_next-high v c h l =
    let out : (if v.seq_index == 1
          then belongs c v.byte2_first v.byte2_last
          else belongs c 0x80 0xBF)
        ≡ false =
      ground (arith, h, l) in
    rw out refl

pub validate-last :
    (v : Utf8Validator) (c : ℕ)
    → IsSteady v
    → ltb c 128 ≡ true
    → (validate v c).0.valid ≡ true
    → (validate v c).0.last ≡ true
unfolding validate
validate-last v c h l e = elim (Bool-cases (v.seq_index == 0)) [
  | inl f ↦ rw f (validate_first-last v c l)
  | inr f ↦
      let next : validate v c ≡ validate_next v c = rw f refl in
      let bad : (validate v c).0.valid ≡ false =
        ap (λ x. x.0.valid) next ∙ validate_next-high v c h l in
      cc
]
