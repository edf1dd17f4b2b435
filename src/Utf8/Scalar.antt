-- ===== src/Utf8/Scalar.antt =====
-- The sequences are the encodings of the scalar values.
use libbutl.Prelude.{
  ℕ, suc, ◌+◌, ◌-◌, ◌*◌, ◌/◌, ◌%◌, ◌<◌, ◌≤◌, ◌≡◌, ◌≢◌, inl, inr, refl, sym, ap, true, false, none,
  some, [], ◌∷◌, ◌++◌, ltb, ◌==◌, Bytes, arith, ==_iff, ltb→lt, Bool-cases, Option-cases,
}
use libbutl.Utf8.Validator.{belongs}
use libbutl.Utf8.Encoding.{IsScalar, encode}
use libbutl.Utf8.Tail.{read_tail}
use libbutl.Utf8.Sequence.{lead, read_from, read_sequence}

read_tail-one :
    (c l h b : ℕ) (s : Bytes)
    → belongs b l h ≡ true
    → read_tail 1 c l h (b ∷ s) ≡ some (c * 64 + b % 64, s)
unfolding read_tail
read_tail-one c l h b s e = rw e refl

read_tail-more :
    (m c l h b : ℕ) (s : Bytes)
    → belongs b l h ≡ true
    → read_tail (suc m) c l h (b ∷ s) ≡ read_tail m (c * 64 + b % 64) 0x80 0xBF s
unfolding read_tail
read_tail-more m c l h b s e = rw e refl

-- The encoding of a scalar value is read back.
pub read_sequence-encode :
    (c : ℕ) (s : Bytes) → IsScalar c → read_sequence (encode c ++ s) ≡ some (c, s)
unfolding read_sequence read_from encode lead read_tail
read_sequence-encode c s h = ground arith

-- The first bytes.
data Lead (b : ℕ) (f : ℕ × ℕ × ℕ × ℕ) : Type 0 where
  one : b < 0x80 → f ≡ (0, b, 0, 0) → Lead b f
  two : 0xC2 ≤ b → b < 0xE0 → f ≡ (1, b - 0xC0, 0x80, 0xBF) → Lead b f
  three :
      (l h : ℕ)
      → 0xE0 ≤ b
      → b < 0xF0
      → (b ≡ 0xE0 → l ≡ 0xA0)
      → (b ≡ 0xED → h ≡ 0x9F)
      → 0x80 ≤ l
      → h ≤ 0xBF
      → f ≡ (2, b - 0xE0, l, h)
      → Lead b f
  four :
      (l h : ℕ)
      → 0xF0 ≤ b
      → b ≤ 0xF4
      → (b ≡ 0xF0 → l ≡ 0x90)
      → (b ≡ 0xF4 → h ≡ 0x8F)
      → 0x80 ≤ l
      → h ≤ 0xBF
      → f ≡ (3, b - 0xF0, l, h)
      → Lead b f

lead-Lead : (b : ℕ) {f : ℕ × ℕ × ℕ × ℕ} → lead b ≡ some f → Lead b f
unfolding lead
lead-Lead b {f} h = elim (Bool-cases (ltb b 0x80)) [
  | inl e ↦ one (ground (arith, e)) (ground (arith, h, e))
  | inr e ↦ elim (Bool-cases (ltb b 0xE0)) [
    | inl e' ↦ two (ground (arith, h, e, e')) (ground (arith, e')) (ground (arith, h, e, e'))
    | inr e' ↦ elim (Bool-cases (ltb b 0xF0)) [
      | inl d ↦
          three f.2 f.3 (ground (arith, e')) (ground (arith, d)) (ground (arith, h))
            (ground (arith, h)) (ground (arith, h, e, e', d)) (ground (arith, h, e, e', d))
            (ground (arith, h, e, e', d))
      | inr d ↦
          four f.2 f.3 (ground (arith, d)) (ground (arith, h, e, e', d)) (ground (arith, h))
            (ground (arith, h)) (ground (arith, h, e, e', d)) (ground (arith, h, e, e', d))
            (ground (arith, h, e, e', d))
    ]
  ]
]

read_tail-suc :
    (m c l h : ℕ) (s : Bytes) {o : ℕ × Bytes}
    → read_tail (suc m) c l h s ≡ some o
    → (b : ℕ) × (t : Bytes) × (s ≡ b ∷ t)
      × (l ≤ b)
      × (b ≤ h)
      × (read_tail m (c * 64 + b % 64) 0x80 0xBF t ≡ some o)
unfolding read_tail
read_tail-suc m c l h [] e = cc
read_tail-suc m c l h (b ∷ t) {o} e = elim (Bool-cases (belongs b l h)) [
  | inl i ↦ (b, t, refl, ground (arith, i), ground (arith, i), ground (arith, e, i))
  | inr i ↦ absurd (ground (arith, e, i))
]

encode-two :
    (b1 b2 : ℕ)
    → 0xC2 ≤ b1
    → b1 < 0xE0
    → 0x80 ≤ b2
    → b2 ≤ 0xBF
    → (encode ((b1 - 0xC0) * 64 + b2 % 64) ≡ b1 ∷ b2 ∷ []) × IsScalar ((b1 - 0xC0) * 64 + b2 % 64)
unfolding encode
encode-two b1 b2 p q r s = ground arith

above : (b k : ℕ) → k ≤ b → (b == k) ≡ false → k < b
above b k h e = ground (arith, e)

encode-bytes_three :
    (b1 b2 b3 c : ℕ)
    → 0x800 ≤ c
    → c < 0x10000
    → b1 ≡ 0xE0 + c / 4096
    → b2 ≡ 0x80 + c / 64 % 64
    → b3 ≡ 0x80 + c % 64
    → encode c ≡ b1 ∷ b2 ∷ b3 ∷ []
unfolding encode
encode-bytes_three b1 b2 b3 c big small e1 e2 e3 = ground arith

encode-bytes_four :
    (b1 b2 b3 b4 c : ℕ)
    → 0x10000 ≤ c
    → b1 ≡ 0xF0 + c / 262144
    → b2 ≡ 0x80 + c / 4096 % 64
    → b3 ≡ 0x80 + c / 64 % 64
    → b4 ≡ 0x80 + c % 64
    → encode c ≡ b1 ∷ b2 ∷ b3 ∷ b4 ∷ []
unfolding encode
encode-bytes_four b1 b2 b3 b4 c big e1 e2 e3 e4 = ground arith

encode-three :
    (b1 b2 b3 c : ℕ)
    → 0xE0 ≤ b1
    → b1 < 0xF0
    → (b1 ≡ 0xE0 → 0xA0 ≤ b2)
    → (b1 ≡ 0xED → b2 ≤ 0x9F)
    → 0x80 ≤ b2
    → b2 ≤ 0xBF
    → 0x80 ≤ b3
    → b3 ≤ 0xBF
    → c ≡ ((b1 - 0xE0) * 64 + b2 % 64) * 64 + b3 % 64
    → (encode c ≡ b1 ∷ b2 ∷ b3 ∷ []) × IsScalar c
encode-three b1 b2 b3 c p q lo hi r s t u d =
    let big : 0x800 ≤ c = elim (Bool-cases (b1 == 0xE0)) [
      | inl e ↦ omega (arith, lo ((==_iff b1 0xE0).0 e), (==_iff b1 0xE0).0 e)
      | inr e ↦ omega (arith, above b1 0xE0 p e)
    ] in
    let scalar : IsScalar c = elim (Bool-cases (b1 == 0xED)) [
      | inl e ↦ inl (omega (arith, hi ((==_iff b1 0xED).0 e), (==_iff b1 0xED).0 e))
      | inr e ↦ elim (Bool-cases (ltb b1 0xED)) [
        | inl f ↦ inl (omega (arith, ltb→lt b1 0xED f))
        | inr f ↦ inr (omega (arith, above b1 0xED (ground (arith, f)) e), omega arith)
      ]
    ] in
    (
      encode-bytes_three b1 b2 b3 c big (omega arith) (omega arith) (omega arith) (omega arith),
      scalar,
    )

encode-four :
    (b1 b2 b3 b4 c : ℕ)
    → 0xF0 ≤ b1
    → b1 ≤ 0xF4
    → (b1 ≡ 0xF0 → 0x90 ≤ b2)
    → (b1 ≡ 0xF4 → b2 ≤ 0x8F)
    → 0x80 ≤ b2
    → b2 ≤ 0xBF
    → 0x80 ≤ b3
    → b3 ≤ 0xBF
    → 0x80 ≤ b4
    → b4 ≤ 0xBF
    → c ≡ (((b1 - 0xF0) * 64 + b2 % 64) * 64 + b3 % 64) * 64 + b4 % 64
    → (encode c ≡ b1 ∷ b2 ∷ b3 ∷ b4 ∷ []) × IsScalar c
encode-four b1 b2 b3 b4 c p q lo hi r s t u v w d =
    let big : 0x10000 ≤ c = elim (Bool-cases (b1 == 0xF0)) [
      | inl e ↦ omega (arith, lo ((==_iff b1 0xF0).0 e), (==_iff b1 0xF0).0 e)
      | inr e ↦ omega (arith, above b1 0xF0 p e)
    ] in
    let small : c < 0x110000 = elim (Bool-cases (b1 == 0xF4)) [
      | inl e ↦ omega (arith, hi ((==_iff b1 0xF4).0 e), (==_iff b1 0xF4).0 e)
      | inr e ↦ ground (arith, e)
    ] in
    (
      encode-bytes_four b1 b2 b3 b4 c big (omega arith) (omega arith) (omega arith) (omega arith),
      inr (omega arith, small),
    )

-- A first byte with the bytes that are read after it.
read_tail-end :
    (c l h : ℕ) (s : Bytes) {d : ℕ} {t : Bytes}
    → read_tail 0 c l h s ≡ some (d, t)
    → (c ≡ d) × (s ≡ t)
unfolding read_tail
read_tail-end c l h s e = ground (arith, e)

encode-one : (c : ℕ) → c < 0x80 → encode c ≡ c ∷ []
unfolding encode
encode-one c h = ground arith

Lead-sound :
    (b : ℕ) (f : ℕ × ℕ × ℕ × ℕ) (t : Bytes) {c : ℕ} {s : Bytes}
    → Lead b f
    → read_tail f.0 f.1 f.2 f.3 t ≡ some (c, s)
    → (b ∷ t ≡ encode c ++ s) × IsScalar c
Lead-sound b f t {c} {s} (one p e) h =
    let r = read_tail-end b 0 0 t (rw e at h) in
    let same : b ≡ c = r.0 in
    (rw (← same, encode-one b p) (ap (λ x. b ∷ x) (r.1)), inl (omega (arith, same)))
Lead-sound b f t {c} {s} (two p q e) h =
    let (b2, t2, et, lo, hi, rest) = read_tail-suc 0 (b - 0xC0) 0x80 0xBF t (rw e at h) in
    let r = read_tail-end ((b - 0xC0) * 64 + b2 % 64) 0x80 0xBF t2 rest in
    let enc = encode-two b b2 p q lo hi in
    let code : encode c ≡ b ∷ b2 ∷ [] = rw (← r.0) (enc.0) in
    let scalar : IsScalar c = rw (← r.0) (enc.1) in (rw (code, et, r.1) refl, scalar)
Lead-sound b f t {c} {s} (three l h' p q lo hi l2 h2 e) h =
    let (b2, t2, et, lo2, hi2, rest2) = read_tail-suc 1 (b - 0xE0) l h' t (rw e at h) in
    let (b3, t3, et3, lo3, hi3, rest3) =
      read_tail-suc 0 ((b - 0xE0) * 64 + b2 % 64) 0x80 0xBF t2 rest2 in
    let r = read_tail-end (((b - 0xE0) * 64 + b2 % 64) * 64 + b3 % 64) 0x80 0xBF t3 rest3 in
    let enc =
      encode-three b b2 b3 c p q (λ x. omega (arith, lo x)) (λ x. omega (arith, hi x)) (omega arith)
        (omega arith) lo3 hi3 (sym (r.0)) in
    (rw (enc.0, et, et3, r.1) refl, enc.1)
Lead-sound b f t {c} {s} (four l h' p q lo hi l2 h2 e) h =
    let (b2, t2, et, lo2, hi2, rest2) = read_tail-suc 2 (b - 0xF0) l h' t (rw e at h) in
    let (b3, t3, et3, lo3, hi3, rest3) =
      read_tail-suc 1 ((b - 0xF0) * 64 + b2 % 64) 0x80 0xBF t2 rest2 in
    let (b4, t4, et4, lo4, hi4, rest4) =
      read_tail-suc 0 (((b - 0xF0) * 64 + b2 % 64) * 64 + b3 % 64) 0x80 0xBF t3 rest3 in
    let r =
      read_tail-end ((((b - 0xF0) * 64 + b2 % 64) * 64 + b3 % 64) * 64 + b4 % 64) 0x80 0xBF t4
        rest4 in
    let enc =
      encode-four b b2 b3 b4 c p q (λ x. omega (arith, lo x)) (λ x. omega (arith, hi x))
        (omega arith) (omega arith) lo3 hi3 lo4 hi4 (sym (r.0)) in
    (rw (enc.0, et, et3, et4, r.1) refl, enc.1)

none-ne-some : {o : ℕ × Bytes} → none ≢ some o
none-ne-some h = cc

-- What is read from bytes is the encoding of a scalar value, with what follows it.
pub read_sequence_sound :
    (t : Bytes) {c : ℕ} {s : Bytes}
    → read_sequence t ≡ some (c, s)
    → (t ≡ encode c ++ s) × IsScalar c
unfolding read_sequence read_from
read_sequence_sound [] e = cc
read_sequence_sound (b ∷ t) {c} {s} e = elim (Option-cases (lead b)) [
  | inl n ↦ absurd (none-ne-some (rw n at e))
  | inr (f, n) ↦ Lead-sound b f t (lead-Lead b n) (rw n at e)
]
