-- ===== src/Manifest/Value/RoundTrip.antt =====
-- The parser of Manifest/Value.antt reads back what the serializer writes.
use libbutl.Prelude.{
  ℕ, ◌+◌, Bool, true, false, ◌||◌, ◌⊎◌, inl, inr, none, some, [], ◌∷◌, ◌++◌, ◌≡◌, refl, ap, ◌∙◌,
  ◌==◌, has_byte, ltb, if◌then◌else◌, Bytes, length, Bool-cases, arith, append_assoc, take,
  take-length,
}
use mathlib.Core.Path.{subst}
use libbutl.Manifest.Spaces.{blank, ends_with_blank, skip_spaces, skip_spaces_loop}
use libbutl.Manifest.Value.{
  at_end, value_loop, parse_value, write_chunk, write_chunks, chunks, has_newline, write_value,
  introducer,
}
use libbutl.Manifest.Value.Reading.{value_loop-Written, size_after}
use libbutl.Manifest.Value.Written.{
  starts_well, first, starts_well-Written, first-Written, write_chunk-Written, with_text-inr,
}
use libbutl.Manifest.Value.Newlines.{newlines, join_chunks-chunks, newlines_id}
use libbutl.Manifest.Value.Chunks.{
  join_chunks, AllNoNewline, then_text-inr, chunks-AllNoNewline, chunks-one, value_loop-some_chunks,
}

size_after-length :
    (s v : Bytes) (n c : ℕ)
    → ends_with_blank (c ∷ s) ≡ false
    → size_after false (c ∷ s) v n ≡ length (v ++ c ∷ s)
unfolding size_after
size_after-length [] v n c h = rw h (ground arith)
size_after-length (d ∷ s) v n c h =
    size_after-length s (v ++ c ∷ []) _ d h
    ∙ ap (λ x. length {A = ℕ} x) (append_assoc v (c ∷ []) (d ∷ s))

-- A text that `parse_value` does not take for an introducer.
pub introducer-none : (s : Bytes) → starts_well s ≡ true → introducer s ≡ none
unfolding introducer
introducer-none [] h = refl
introducer-none (c ∷ s) h = elim (Bool-cases (c == b'\\')) [
  | inl f ↦ let g : at_end s ≡ false = ground (arith, h, f) in rw (f, g) refl
  | inr f ↦ let g : (c == b'\n') ≡ false = ground (arith, h) in rw (f, g) refl
]

pub value_end : (t v : Bytes) (n : ℕ) → value_loop false false (b'\n' ∷ t) v n ≡ (v, n, b'\n' ∷ t)
unfolding value_loop
value_end [] v n = refl
value_end (d ∷ t) v n = refl

skip_spaces-none :
    (o t : Bytes) (c : ℕ)
    → blank c ≡ false
    → some c ≡ first o
    → skip_spaces false (b' ' ∷ o ++ t) ≡ o ++ t
unfolding skip_spaces_loop
skip_spaces-none [] t c h e = cc
skip_spaces-none (d ∷ o) t c h e =
    let f : blank d ≡ false = (let g : c ≡ d = cc in rw⁻¹ g h) in ground (arith, f)

pub parse_value-simple :
    (s v u : Bytes) (n : ℕ)
    → introducer s ≡ none
    → value_loop false false s [] 0 ≡ (v, n, u)
    → parse_value s ≡ (take n v, u)
unfolding parse_value
parse_value-simple s v u n h e = rw (h, parse_value) (rw e refl)

parse_value-multi :
    (s t v u : Bytes) (n : ℕ)
    → introducer s ≡ some t
    → value_loop true true t [] 0 ≡ (v, n, u)
    → parse_value s ≡ (v, u)
unfolding parse_value
parse_value-multi s t v u n h e = rw (h, parse_value) (rw e refl)

single_mode :
    (long : Bool) (c cl : ℕ) (v o t : Bytes)
    → ltb cl 57 ≡ true
    → has_newline (c ∷ v) ≡ false
    → blank c ≡ false
    → ends_with_blank (c ∷ v) ≡ false
    → write_chunk long (c ∷ v) cl ≡ inr o
    → parse_value (skip_spaces false (b' ' ∷ o ++ b'\n' ∷ t)) ≡ (c ∷ v, b'\n' ∷ t)
single_mode long c cl v o t l h b e r =
    let all = subst (λ ls. AllNoNewline ls) (chunks-one (c ∷ v) h) (chunks-AllNoNewline (c ∷ v)) in
    let w = write_chunk-Written long cl c v o l (all.0) r in
    ap parse_value (skip_spaces-none o (b'\n' ∷ t) c b (first-Written w))
    ∙ parse_value-simple (o ++ b'\n' ∷ t) (c ∷ v) (b'\n' ∷ t) (length (c ∷ v))
        (introducer-none (o ++ b'\n' ∷ t) (starts_well-Written t w))
        (value_loop-Written false false false t [] 0 refl w
          ∙ value_end t (c ∷ v) _
          ∙ ap (λ n. (c ∷ v, n, b'\n' ∷ t)) (size_after-length v [] 0 c e))
    ∙ ap (λ x. (x, b'\n' ∷ t)) (take-length (c ∷ v))

multi_mode :
    (long : Bool) (v o t : Bytes)
    → write_chunks long (chunks v) ≡ inr o
    → parse_value (skip_spaces false (b'\n' ∷ b'\\' ∷ b'\n' ∷ o ++ b'\n' ∷ b'\\' ∷ b'\n' ∷ t))
      ≡ (newlines v, b'\n' ∷ t)
unfolding introducer skip_spaces_loop
multi_mode long v o t r =
    let (m, e) = value_loop-some_chunks long (chunks v) o t (chunks-AllNoNewline v) r in
    parse_value-multi _ _ (join_chunks (chunks v)) (b'\n' ∷ t) m refl e
    ∙ ap (λ x. (x, b'\n' ∷ t)) (join_chunks-chunks v)

has_byte-has_newline : (v : Bytes) → has_newline v ≡ false → has_byte b'\r' v ≡ false
has_byte-has_newline [] h = refl
has_byte-has_newline (c ∷ v) h =
    let rest = has_byte-has_newline v (ground (arith, h)) in ground (arith, h, rest)

newlines_plain : (v : Bytes) → has_newline v ≡ false → newlines v ≡ v
newlines_plain v h = newlines_id v (has_byte-has_newline v h)

taken_true :
    (b : Bool) (x y : Bytes ⊎ Bytes) (o : Bytes)
    → b ≡ true
    → (if b then x else y) ≡ inr o
    → x ≡ inr o
taken_true true x y o e h = h
taken_true false x y o e h = cc

taken_false :
    (b : Bool) (x y : Bytes ⊎ Bytes) (o : Bytes)
    → b ≡ false
    → (if b then x else y) ≡ inr o
    → y ≡ inr o
taken_false true x y o e h = cc
taken_false false x y o e h = h

-- The text that `write_value` writes for a value of at least one character, read after its name and
-- colon up to the newline, gives the value in which each `\r\n` and each other `\r` has become a
-- newline and all else is as it was.
pub parse_value-write_value :
    (long : Bool) (c : ℕ) (v : Bytes) (cl : ℕ) (o t : Bytes)
    → write_value long (c ∷ v) cl ≡ inr o
    → parse_value (skip_spaces false (o ++ b'\n' ∷ t)) ≡ (newlines (c ∷ v), b'\n' ∷ t)
unfolding write_value
parse_value-write_value long c v cl o t r =
    elim (Bool-cases
      (ltb 39 (cl + 1) || has_newline (c ∷ v) || blank c || ends_with_blank (c ∷ v))) [
        | inl e ↦
            let (u, f, g) =
              with_text-inr (b'\n' ∷ b'\\' ∷ b'\n' ∷ []) _ o (taken_true _ _ _ o e r) in
            let (x, y, p, q, s) = then_text-inr _ (inr (b'\n' ∷ b'\\' ∷ [])) u f in
            let k : y ≡ b'\n' ∷ b'\\' ∷ [] = cc in
            let text : o ≡ b'\n' ∷ b'\\' ∷ b'\n' ∷ x ++ b'\n' ∷ b'\\' ∷ [] = rw (g, s, k) refl in
            rw (text, append_assoc x (b'\n' ∷ b'\\' ∷ []) (b'\n' ∷ t))
              (multi_mode long (c ∷ v) x t p)
        | inr e ↦
            let (u, f, g) = with_text-inr (b' ' ∷ []) _ o (taken_false _ _ _ o e r) in
            rw (g, newlines_plain (c ∷ v) (ground (arith, e)))
              (single_mode long c (cl + 1) v u t (ground (arith, e)) (ground (arith, e))
                (ground (arith, e)) (ground (arith, e)) f)
      ]
