-- ===== src/Utf8/Decode.antt =====
-- The validator accepts exactly the encodings of allowed codepoints, and counts them.
use libbutl.Prelude.{
  length-append, ℕ, zero, suc, ◌+◌, ◌/◌, ◌%◌, ◌<◌, ◌≡◌, ◌≢◌, ◌⊎◌, ◌↔◌, inl, inr, refl, sym, ap, ◌∙◌,
  true, false, Option, none, some, List, [], ◌∷◌, ◌++◌, ltb, Bytes, arith, ltb→lt, All, All-append,
  length, Bool-cases,
}
use libbutl.Unicode.{CodepointTypes}
use libbutl.Utf8.Validator.{Utf8Validator, allowed, length_loop, utf8_length, validator}
use libbutl.Utf8.Encoding.{IsScalar, encode, encode_all}
use libbutl.Utf8.Tail.{count_of, after_sequence}
use libbutl.Utf8.Sequence.{read_sequence, length_loop-sequence}
use libbutl.Utf8.Scalar.{read_sequence-encode, read_sequence_sound}

-- A codepoint that the validator lets through.
abbrev pub IsAllowed : CodepointTypes → Option (List ℕ) → ℕ → Type 0
IsAllowed ts wl c = IsScalar c × (allowed ts wl c ≡ true)

abbrev IsBytes : Bytes → Type 0
IsBytes s = All (λ b. b < 256) s

encode-shape : (c : ℕ) → IsScalar c → (b : ℕ) × (s : Bytes) × (encode c ≡ b ∷ s) × IsBytes (b ∷ s)
unfolding encode
encode-shape c h = elim (Bool-cases (ltb c 0x80)) [
  | inl e ↦ (c, [], rw e refl, (omega (arith, ltb→lt c 0x80 e), tt))
  | inr e ↦ elim (Bool-cases (ltb c 0x800)) [
    | inl d ↦ (0xC0 + c / 64, (0x80 + c % 64) ∷ [], rw (e, d) refl, omega (arith, ltb→lt c 0x800 d))
    | inr d ↦ elim (Bool-cases (ltb c 0x10000)) [
      | inl f ↦ (
        0xE0 + c / 4096,
        (0x80 + c / 64 % 64) ∷ (0x80 + c % 64) ∷ [],
        rw (e, d, f) refl,
        omega (arith, ltb→lt c 0x10000 f),
      )
      | inr f ↦ (
        0xF0 + c / 262144,
        (0x80 + c / 4096 % 64) ∷ (0x80 + c / 64 % 64) ∷ (0x80 + c % 64) ∷ [],
        rw (e, d, f) refl,
        omega (arith, h),
      )
    ]
  ]
]

encode-IsBytes : (c : ℕ) (s : Bytes) → IsScalar c → IsBytes s → IsBytes (encode c ++ s)
encode-IsBytes c s h bytes =
    let (b, t, e, hb) = encode-shape c h in rw e (All-append (λ b. b < 256) (b ∷ t) s hb bytes)

encode_all-IsBytes : (cs : List ℕ) → All IsScalar cs → IsBytes (encode_all cs)
unfolding encode_all
encode_all-IsBytes [] h = tt
encode_all-IsBytes (c ∷ cs) h = encode-IsBytes c (encode_all cs) h.0 (encode_all-IsBytes cs h.1)

none-ne-some : {k : ℕ} → none ≢ some k
none-ne-some h = cc

after_sequence_sound :
    (v : Utf8Validator) (r : ℕ) (o : Option (ℕ × Bytes)) {k : ℕ}
    → after_sequence v r o ≡ some k
    → (c : ℕ) × (s : Bytes) × (o ≡ some (c, s))
      × (allowed v.types v.whitelist c ≡ true)
      × (count_of (length_loop (record v { seq_index = 0; codepoint = c }) (suc r) true s) ≡ some k)
after_sequence_sound v r none h = cc
after_sequence_sound v r (some (c, s)) h = elim (Bool-cases (allowed v.types v.whitelist c)) [
  | inl e ↦ (c, s, refl, e, rw e at h)
  | inr e ↦ absurd (none-ne-some (rw e at h))
]

after_sequence-allowed :
    (w : Utf8Validator) (r c : ℕ) (s : Bytes)
    → allowed w.types w.whitelist c ≡ true
    → after_sequence w r (some (c, s))
      ≡ count_of (length_loop (record w { seq_index = 0; codepoint = c }) (suc r) true s)
after_sequence-allowed w r c s h = rw h refl

All-after {ℓ κ} : {A : Type ℓ} (P : A → Type κ) (xs ys : List A) → All P (xs ++ ys) → All P ys
All-after P [] ys h = h
All-after P (x ∷ xs) ys h = All-after P xs ys h.1

bytes_after : (t x u : Bytes) → t ≡ x ++ u → IsBytes t → IsBytes u
bytes_after t x u e h = All-after (λ b. b < 256) x u (rw e at h)

sequence_shorter : (c : ℕ) (t s : Bytes) → IsScalar c → s ≡ encode c ++ t → length t < length s
sequence_shorter c t s h e =
    let (b, u, eb, hb) = encode-shape c h in rw e (rw eb (omega (arith, length-append u t)))

counted : (v : Utf8Validator) (r k : ℕ) → count_of (length_loop v r true []) ≡ some k → r + 0 ≡ k
unfolding length_loop
counted v r k h = ground (arith, h)

count_of-inr : (o : Bytes ⊎ ℕ) {n : ℕ} → count_of o ≡ some n → o ≡ inr n
count_of-inr (inl e) h = cc
count_of-inr (inr k) h = cc

length_loop_last :
    (v : Utf8Validator) (r b : ℕ) (s : Bytes)
    → length_loop v r false (b ∷ s) ≡ length_loop v r true (b ∷ s)
unfolding length_loop
length_loop_last v r b s = refl

scalars_of :
    (ts : CodepointTypes) (wl : Option (List ℕ)) (cs : List ℕ)
    → All (IsAllowed ts wl) cs
    → All IsScalar cs
scalars_of ts wl [] h = tt
scalars_of ts wl (c ∷ cs) h = (h.0.0, scalars_of ts wl cs h.1)

encode_all-empty :
    (cs : List ℕ) → All IsScalar cs → ◌≡◌ {A = Bytes} [] (encode_all cs) → length cs ≡ 0
unfolding encode_all
encode_all-empty [] h e = refl
encode_all-empty (c ∷ cs) h e = absurd (omega (arith, sequence_shorter c (encode_all cs) [] h.0 e))

module _ (ts : CodepointTypes) (wl : Option (List ℕ)) where
  -- A validator of the two parameters that starts a sequence.
  IsFresh : Utf8Validator → Type 0
  IsFresh v = (v.types ≡ ts) × (v.whitelist ≡ wl) × (v.seq_index ≡ 0)

  -- The loop counts the codepoints that are encoded.
  length_loop-encode_all :
      (cs : List ℕ) (v : Utf8Validator) (r : ℕ)
      → IsFresh v
      → All IsScalar cs
      → All (IsAllowed ts wl) cs
      → count_of (length_loop v r true (encode_all cs)) ≡ some (r + length cs)
  unfolding IsFresh encode_all
  length_loop-encode_all [] v r hv scalars h = unfold length_loop in ap some (omega arith)
  length_loop-encode_all (c ∷ cs) v r hv scalars h =
      let x = encode_all cs in
      let (b, t, e, hb) = encode-shape c scalars.0 in
      let (w, et, ew, el) =
        length_loop-sequence v r true b (t ++ x)
          (All-append (λ b. b < 256) (b ∷ t) x hb (encode_all-IsBytes cs scalars.1)) hv.2 in
      let read : read_sequence (b ∷ t ++ x) ≡ some (c, x) =
        rw e at (read_sequence-encode c x scalars.0) in
      let good : allowed w.types w.whitelist c ≡ true = rw (et ∙ hv.0, ew ∙ hv.1) (h.0.1) in
      rw e (
        el
        ∙ ap (after_sequence w r) read
        ∙ after_sequence-allowed w r c x good
        ∙ length_loop-encode_all cs (record w { seq_index = 0; codepoint = c }) (suc r)
            (et ∙ hv.0, ew ∙ hv.1, refl) scalars.1 h.1
        ∙ ap some (omega arith))

  -- What the loop counts is encoded.
  length_loop_sound :
      (n : ℕ) (v : Utf8Validator) (r : ℕ) (s : Bytes) {k : ℕ}
      → length s < n
      → IsBytes s
      → IsFresh v
      → count_of (length_loop v r true s) ≡ some k
      → (cs : List ℕ) × (s ≡ encode_all cs) × All (IsAllowed ts wl) cs × (r + length cs ≡ k)
  unfolding IsFresh encode_all
  length_loop_sound zero v r s len bytes hv h = absurd (omega arith)
  length_loop_sound (suc n) v r [] {k} len bytes hv h = ([], refl, tt, counted v r k h)
  length_loop_sound (suc n) v r (b ∷ s) len bytes hv h =
      let (w, et, ew, e) = length_loop-sequence v r true b s bytes hv.2 in
      let (c, t, es, ea, el) = after_sequence_sound w r (read_sequence (b ∷ s)) (sym e ∙ h) in
      let (split, scalar) = read_sequence_sound (b ∷ s) es in
      let left : IsBytes t = bytes_after (b ∷ s) (encode c) t split bytes in
      let (cs, ecs, good, sum) =
        length_loop_sound n (record w { seq_index = 0; codepoint = c }) (suc r) t
          (omega (arith, sequence_shorter c t (b ∷ s) scalar split)) left
          (et ∙ hv.0, ew ∙ hv.1, refl) el in
      (
        c ∷ cs,
        split ∙ ap (λ x. encode c ++ x) ecs,
        ((scalar, rw (et ∙ hv.0, ew ∙ hv.1) at ea), good),
        omega (arith, sum),
      )

  -- `utf8_length` returns a number exactly for the texts that encode that many codepoints, each of
  -- them a scalar value that is whitelisted or of one of the types.
  pub utf8_length-encode_all :
      (s : Bytes) (n : ℕ)
      → All (λ b. b < 256) s
      → (utf8_length s ts wl ≡ inr n)
        ↔ ((cs : List ℕ) × (s ≡ encode_all cs) × All (IsAllowed ts wl) cs × (length cs ≡ n))
  unfolding utf8_length IsFresh encode_all
  utf8_length-encode_all [] n bytes = (
    λ h. ([], refl, tt, ground (arith, h)),
    λ (cs, e, good, len).
        ap inr (omega (arith, len, encode_all-empty cs (scalars_of ts wl cs good) e)),
  )
  utf8_length-encode_all (b ∷ s) n bytes =
      let v = validator ts wl in
      (
        λ h.
            let (cs, e, good, len) =
              length_loop_sound (suc (length (b ∷ s))) v 0 (b ∷ s) (omega arith) bytes
                (refl, refl, refl) (ap count_of (sym (length_loop_last v 0 b s) ∙ h)) in
            (cs, e, good, omega (arith, len)),
        λ (cs, e, good, len).
            length_loop_last v 0 b s
            ∙ count_of-inr (length_loop v 0 true (b ∷ s)) (
                ap (λ x. count_of (length_loop v 0 true x)) e
                ∙ length_loop-encode_all cs v 0 (refl, refl, refl) (scalars_of ts wl cs good) good
                ∙ ap some (omega (arith, len))),
      )
