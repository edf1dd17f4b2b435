-- ===== src/Manifest/Value/Chunks.antt =====
-- Reading back the chunks that the serializer of Manifest/Value.antt writes.
use libbutl.Prelude.{
  ℕ, Bool, true, false, ◌&&◌, ◌||◌, ◌⊎◌, inl, inr, List, [], ◌∷◌, ◌++◌, ◌≡◌, refl, ap, ◌∙◌, ◌==◌,
  ltb, Bytes, All, Bool-cases, arith, append_assoc,
}
use libbutl.Manifest.Value.{
  at_newline, at_end, value_loop, write_chars, write_chunk, write_chunks, chunks, cons_first,
  has_newline, then_text,
}
use libbutl.Manifest.Value.Reading.{value_loop-Written, size_after, at_stop}
use libbutl.Manifest.Value.Written.{
  starts_well, starts_well-Written, write_chunk-Written, with_text-inr,
}

-- The text of one piece.
chunk_value :
    (ml nl long : Bool) (cl : ℕ) (l o t v : Bytes) (n : ℕ)
    → ltb cl 57 ≡ true
    → All (λ d. (d == b'\n') ≡ false) l
    → write_chunk long l cl ≡ inr o
    → value_loop ml nl (o ++ b'\n' ∷ t) v n
      ≡ value_loop ml false (b'\n' ∷ t) (v ++ l) (size_after ml l v n)
unfolding write_chunk write_chars size_after
chunk_value ml nl long cl [] o t v n h a r = let e : o ≡ [] = cc in rw e (at_stop ml nl t v n)
chunk_value ml nl long cl (c ∷ l) o t v n h a r =
    value_loop-Written ml nl false t v n refl (write_chunk-Written long cl c l o h a r)

abbrev pub starts_line : Bytes → Bool
starts_line s = at_newline s || starts_well s

chunk_starts :
    (long : Bool) (l o t : Bytes)
    → All (λ d. (d == b'\n') ≡ false) l
    → write_chunk long l 0 ≡ inr o
    → starts_line (o ++ b'\n' ∷ t) ≡ true
unfolding write_chunk write_chars
chunk_starts long [] o t a r = let e : o ≡ [] = cc in rw e refl
chunk_starts long (c ∷ l) o t a r =
    ground (arith, starts_well-Written t (write_chunk-Written long 0 c l o refl a r))

-- A newline of the value in the multi-line mode.
next_line_step :
    (nl : Bool) (u v : Bytes) (n : ℕ)
    → starts_line u ≡ true
    → value_loop true nl (b'\n' ∷ u) v n ≡ value_loop true false u (v ++ b'\n' ∷ []) n
unfolding value_loop
next_line_step nl [] v n h = cc
next_line_step nl (d ∷ u) v n h = elim (Bool-cases (d == b'\\')) [
  | inl f ↦
      let g : at_end u ≡ false = ground (arith, h, f) in
      elim (Bool-cases nl) [ inl k ↦ rw (f, g, k) refl | inr k ↦ rw (f, g, k) refl ]
  | inr f ↦ elim (Bool-cases nl) [ inl k ↦ rw (f, k) refl | inr k ↦ rw (f, k) refl ]
]

-- The chunks with a newline between each two.
abbrev pub join_chunks : List Bytes → Bytes
join_chunks [] = []
join_chunks (l ∷ []) = l
join_chunks (l ∷ m ∷ ls) = l ++ b'\n' ∷ join_chunks (m ∷ ls)

abbrev pub AllNoNewline : List Bytes → Type 0
AllNoNewline = All (λ l. All (λ d. (d == b'\n') ≡ false) l)

pub then_text-inr :
    (a b : Bytes ⊎ Bytes) (o : Bytes)
    → then_text a b ≡ inr o
    → (x : Bytes) × (y : Bytes) × (a ≡ inr x) × (b ≡ inr y) × (o ≡ x ++ y)
then_text-inr (inl e) b o h = cc
then_text-inr (inr x) b o h = let (y, f, g) = with_text-inr x b o h in (x, y, refl, f, g)

-- The text of more than one chunk.
more_chunks :
    (long : Bool) (l m : Bytes) (ls : List Bytes) (o : Bytes)
    → write_chunks long (l ∷ m ∷ ls) ≡ inr o
    → (x : Bytes) × (z : Bytes) × (write_chunk long l 0 ≡ inr x)
      × (write_chunks long (m ∷ ls) ≡ inr z)
      × (o ≡ x ++ b'\n' ∷ z)
unfolding write_chunks
more_chunks long l m ls o h =
    let (x, y, f, g, e) = then_text-inr _ _ o h in
    let (z, p, q) = with_text-inr (b'\n' ∷ []) _ y g in (x, z, f, p, e ∙ ap (λ s. x ++ s) q)

write_chunks-starts :
    (long : Bool) (l : Bytes) (ls : List Bytes) (o t : Bytes)
    → AllNoNewline (l ∷ ls)
    → write_chunks long (l ∷ ls) ≡ inr o
    → starts_line (o ++ b'\n' ∷ t) ≡ true
unfolding write_chunks
write_chunks-starts long l [] o t a r = chunk_starts long l o t (a.0) r
write_chunks-starts long l (m ∷ ls) o t a r =
    let (x, z, f, g, e) = more_chunks long l m ls o r in
    rw (e, append_assoc x (b'\n' ∷ z) (b'\n' ∷ t)) (chunk_starts long l x (z ++ b'\n' ∷ t) (a.0) f)

-- The multi-line mode up to its terminator.
value_loop-write_chunks :
    (nl long : Bool) (l : Bytes) (ls : List Bytes) (o t v : Bytes) (n : ℕ)
    → AllNoNewline (l ∷ ls)
    → write_chunks long (l ∷ ls) ≡ inr o
    → (m : ℕ) × (value_loop true nl (o ++ b'\n' ∷ b'\\' ∷ b'\n' ∷ t) v n
        ≡ (v ++ join_chunks (l ∷ ls), m, b'\n' ∷ t))
unfolding write_chunks value_loop
value_loop-write_chunks nl long l [] o t v n a r =
    (_, chunk_value true nl long 0 l o (b'\\' ∷ b'\n' ∷ t) v n refl (a.0) r)
value_loop-write_chunks nl long l (m ∷ ls) o t v n a r =
    let (x, z, f, g, e) = more_chunks long l m ls o r in
    let u = z ++ b'\n' ∷ b'\\' ∷ b'\n' ∷ t in
    let k = size_after true l v n in
    let (w, h) = value_loop-write_chunks false long m ls z t ((v ++ l) ++ b'\n' ∷ []) k (a.1) g in
    (
      w,
      ap (λ s. value_loop true nl s v n)
            (ap (λ s. s ++ b'\n' ∷ b'\\' ∷ b'\n' ∷ t) e
              ∙ append_assoc x (b'\n' ∷ z) (b'\n' ∷ b'\\' ∷ b'\n' ∷ t))
          ∙ chunk_value true nl long 0 l x u v n refl (a.0) f
          ∙ next_line_step false u (v ++ l) k (write_chunks-starts long m ls z _ (a.1) g)
          ∙ h
          ∙ ap (λ s. (s, w, b'\n' ∷ t))
              (append_assoc (v ++ l) (b'\n' ∷ []) (join_chunks (m ∷ ls))
                ∙ append_assoc v l (b'\n' ∷ join_chunks (m ∷ ls))),
    )

cons_first-AllNoNewline :
    (c : ℕ) (ls : List Bytes)
    → (c == b'\n') ≡ false
    → AllNoNewline ls
    → AllNoNewline (cons_first c ls)
cons_first-AllNoNewline c [] h a = ((h, tt), tt)
cons_first-AllNoNewline c (l ∷ ls) h a = ((h, a.0), a.1)

pub chunks-AllNoNewline : (v : Bytes) → AllNoNewline (chunks v)
unfolding chunks
chunks-AllNoNewline [] = (tt, tt)
chunks-AllNoNewline (c ∷ v) =
    let all = chunks-AllNoNewline v in
    elim (Bool-cases (c == b'\r' && at_newline v)) [
      | inl e ↦ rw e all
      | inr e ↦ rw e (elim (Bool-cases (c == b'\r' || c == b'\n')) [
        | inl f ↦ rw f (tt, all)
        | inr f ↦ rw f (cons_first-AllNoNewline c (chunks v) (ground (arith, f)) all)
      ])
    ]

pub chunks-one : (v : Bytes) → has_newline v ≡ false → chunks v ≡ v ∷ []
unfolding chunks
chunks-one [] h = refl
chunks-one (c ∷ v) h =
    let r : (c == b'\r') ≡ false = ground (arith, h) in
    let n : (c == b'\n') ≡ false = ground (arith, h) in
    rw (r, n, chunks-one v (ground (arith, h))) refl

pub value_loop-some_chunks :
    (long : Bool) (ls : List Bytes) (o t : Bytes)
    → AllNoNewline ls
    → write_chunks long ls ≡ inr o
    → (m : ℕ) × (value_loop true true (o ++ b'\n' ∷ b'\\' ∷ b'\n' ∷ t) [] 0
        ≡ (join_chunks ls, m, b'\n' ∷ t))
unfolding write_chunks value_loop
value_loop-some_chunks long [] o t a r = (0, (let e : o ≡ [] = cc in rw e refl))
value_loop-some_chunks long (l ∷ ls) o t a r = value_loop-write_chunks true long l ls o t [] 0 a r
