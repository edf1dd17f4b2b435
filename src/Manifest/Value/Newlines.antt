-- ===== src/Manifest/Value/Newlines.antt =====
-- What the multi-line mode of libbutl/manifest-serializer.cxx keeps of a value: its line separators
-- become newlines.
use libbutl.Prelude.{
  ℕ, true, false, ◌&&◌, ◌||◌, inl, inr, List, [], ◌∷◌, ◌≡◌, refl, ap, ◌∙◌, sym, ◌==◌, if◌then◌else◌,
  Bytes, arith, is_empty, Bool-cases, has_byte, ==_iff,
}
use libbutl.Manifest.Value.{chunks, cons_first, at_newline}
use libbutl.Manifest.Value.Chunks.{join_chunks}

-- A text with each `\r\n` and each other `\r` replaced by a newline.
unfoldable pub newlines : Bytes → Bytes
newlines [] = []
newlines (c ∷ []) = (if c == b'\r' then b'\n' else c) ∷ []
newlines (c ∷ d ∷ s) =
    let rest = newlines (d ∷ s) in
    if c == b'\r' then (if d == b'\n' then rest else b'\n' ∷ rest) else c ∷ rest

cons_first_full : (c : ℕ) (ls : List Bytes) → is_empty (cons_first c ls) ≡ false
cons_first_full c [] = refl
cons_first_full c (l ∷ ls) = refl

chunks_full : (v : Bytes) → is_empty (chunks v) ≡ false
unfolding chunks
chunks_full [] = refl
chunks_full (c ∷ v) = elim (Bool-cases (c == b'\r' && at_newline v)) [
  | inl e ↦ rw e (chunks_full v)
  | inr e ↦ rw e (elim (Bool-cases (c == b'\r' || c == b'\n')) [
    | inl f ↦ rw f refl
    | inr f ↦ rw f (cons_first_full c (chunks v))
  ])
]

join_chunks-cons_first :
    (c : ℕ) (ls : List Bytes)
    → is_empty ls ≡ false
    → join_chunks (cons_first c ls) ≡ c ∷ join_chunks ls
join_chunks-cons_first c [] h = cc
join_chunks-cons_first c (l ∷ []) h = refl
join_chunks-cons_first c (l ∷ m ∷ ls) h = refl

join_chunks-nil :
    (ls : List Bytes) → is_empty ls ≡ false → join_chunks ([] ∷ ls) ≡ b'\n' ∷ join_chunks ls
join_chunks-nil [] h = cc
join_chunks-nil (l ∷ ls) h = refl

-- A character that is no carriage return is kept.
join_chunks-keep :
    (c : ℕ) (s : Bytes)
    → (c == b'\r') ≡ false
    → join_chunks (chunks (c ∷ s)) ≡ c ∷ join_chunks (chunks s)
unfolding chunks
join_chunks-keep c s r = elim (Bool-cases (c == b'\n')) [
  | inl e ↦
      rw (r, e)
        (join_chunks-nil (chunks s) (chunks_full s)
          ∙ ap (λ x. x ∷ join_chunks (chunks s)) (sym ((==_iff c b'\n').0 e)))
  | inr e ↦ rw (r, e) (join_chunks-cons_first c (chunks s) (chunks_full s))
]

-- A carriage return is dropped before a newline, and becomes one elsewhere.
join_chunks-return :
    (c : ℕ) (s : Bytes)
    → (c == b'\r') ≡ true
    → join_chunks (chunks (c ∷ s))
      ≡ (if at_newline s then join_chunks (chunks s) else b'\n' ∷ join_chunks (chunks s))
unfolding chunks
join_chunks-return c s r = elim (Bool-cases (at_newline s)) [
  | inl e ↦ rw (r, e) refl
  | inr e ↦ rw (r, e) (join_chunks-nil (chunks s) (chunks_full s))
]

-- The chunks of a text, joined again.
pub join_chunks-chunks : (v : Bytes) → join_chunks (chunks v) ≡ newlines v
unfolding newlines
join_chunks-chunks [] = unfold chunks in refl
join_chunks-chunks (c ∷ []) = elim (Bool-cases (c == b'\r')) [
  | inl r ↦ rw r (join_chunks-return c [] r ∙ (unfold chunks in refl))
  | inr r ↦ rw r (join_chunks-keep c [] r ∙ (unfold chunks in refl))
]
join_chunks-chunks (c ∷ d ∷ s) =
    let rest = join_chunks-chunks (d ∷ s) in
    elim (Bool-cases (c == b'\r')) [
      | inl r ↦ join_chunks-return c (d ∷ s) r ∙ rw (rest, r) refl
      | inr r ↦ join_chunks-keep c (d ∷ s) r ∙ rw (rest, r) refl
    ]

pub newlines_id : (v : Bytes) → has_byte b'\r' v ≡ false → newlines v ≡ v
unfolding newlines
newlines_id [] h = refl
newlines_id (c ∷ []) h = let r : (c == b'\r') ≡ false = ground (arith, h) in rw r refl
newlines_id (c ∷ d ∷ s) h =
    let r : (c == b'\r') ≡ false = ground (arith, h) in
    rw r (ap (λ x. c ∷ x) (newlines_id (d ∷ s) (ground (arith, h))))
