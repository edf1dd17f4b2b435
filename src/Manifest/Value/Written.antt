-- ===== src/Manifest/Value/Written.antt =====
-- What the serializer of Manifest/Value.antt writes for a piece of a value, columns forgotten.
use libbutl.Prelude.{
  ℕ, Bool, true, false, not, ◌&&◌, ◌||◌, ◌⊎◌, inl, inr, Option, none, some, [], ◌∷◌, ◌++◌, ◌≡◌,
  refl, sym, ◌∙◌, ◌==◌, ltb, if◌then◌else◌, Bytes, All, Bool-cases, arith, ==_iff, append_assoc,
}
use mathlib.Core.Path.{subst}
use libbutl.Manifest.Value.{at_end, break_here, write_chars, write_chunk, with_text}
use libbutl.Utf8.{Utf8Validator}

-- `Written b s o`: the text `o` says `s`; a break may come first when `b` is true.
pub data Written : Bool → Bytes → Bytes → Type 0 where
  stop : Written true [] []
  break : (s o : Bytes) → Written false s o → Written true s (b'\\' ∷ b'\n' ∷ o)
  here : (s o : Bytes) → Written false s o → Written true s o
  plain :
      (c : ℕ) (s o : Bytes)
      → (c == b'\\') ≡ false
      → (c == b'\n') ≡ false
      → Written true s o
      → Written false (c ∷ s) (c ∷ o)
  last_slash : Written false (b'\\' ∷ []) (b'\\' ∷ b'\\' ∷ [])
  slash : (s o : Bytes) → Written false s o → Written false (b'\\' ∷ s) (b'\\' ∷ o)

-- The text does not start with a newline, and not with a backslash at the end of a line.
abbrev pub starts_well : Bytes → Bool
starts_well [] = false
starts_well (c ∷ s) = not (c == b'\n') && (not (c == b'\\') || not (at_end s))

abbrev pub first : Bytes → Option ℕ
first [] = none
first (c ∷ s) = some c

pub starts_well-Written :
    {s o : Bytes} (t : Bytes) → Written false s o → starts_well (o ++ b'\n' ∷ t) ≡ true
starts_well-Written t (plain c s o h e w) = ground (arith, h, e)
starts_well-Written t last_slash = refl
starts_well-Written t (slash s [] w) = elim w [ ]
starts_well-Written t (slash s (c ∷ o) w) = ground (arith, starts_well-Written t w)

-- The first character is that of the value.
pub first-Written : {s o : Bytes} → Written false s o → first s ≡ first o
first-Written (plain c s o h e w) = refl
first-Written last_slash = refl
first-Written (slash s o w) = refl

pub with_text-inr :
    (t : Bytes) (r : Bytes ⊎ Bytes) (o : Bytes)
    → with_text t r ≡ inr o
    → (u : Bytes) × (r ≡ inr u) × (o ≡ t ++ u)
with_text-inr t (inl e) o h = cc
with_text-inr t (inr u) o h = (u, refl, cc)

else_inr :
    (b : Bool) (x : Bytes) (r : Bytes ⊎ Bytes) (o : Bytes)
    → (if not b then inl x else r) ≡ inr o
    → r ≡ inr o
else_inr true x r o h = h
else_inr false x r o h = cc

-- A character that is written, after the break before it, if there is one.
write_chars-inr :
    (long : Bool) (val : Utf8Validator) (c : ℕ) (b : Bool) (cl d : ℕ) (s o : Bytes)
    → write_chars long val c b cl (d ∷ s) ≡ inr o
    → (u : Bytes) × (o
        ≡ (if not (c == b'\\') && b && not long && break_here cl d s
            then b'\\' ∷ b'\n' ∷ []
            else [])
          ++ d ∷ u)
      × ((w : Utf8Validator) × (k : Bool) × (n : ℕ) × write_chars long w d k n s ≡ inr u)
unfolding write_chars
write_chars-inr long val c b cl d s o h =
    let (u, a, e) = with_text-inr _ _ o (else_inr _ _ _ o h) in
    (u, e ∙ append_assoc _ (d ∷ []) u, (_, _, _, a))

slash_of :
    (c : ℕ) {s o : Bytes} → (c == b'\\') ≡ true → Written false s o → Written false (c ∷ s) (c ∷ o)
slash_of c {s} {o} e w = rw ((==_iff c b'\\').0 e) (slash s o w)

last_slash_of : (c : ℕ) → (c == b'\\') ≡ true → Written false (c ∷ []) (c ∷ b'\\' ∷ [])
last_slash_of c e = rw ((==_iff c b'\\').0 e) last_slash

after_break :
    (b : Bool) {s o : Bytes}
    → Written false s o
    → Written true s ((if b then b'\\' ∷ b'\n' ∷ [] else []) ++ o)
after_break true {s} {o} w = break s o w
after_break false {s} {o} w = here s o w

write_chars-Written :
    (long : Bool) (val : Utf8Validator) (c : ℕ) (b : Bool) (cl : ℕ) (s o : Bytes)
    → (c == b'\n') ≡ false
    → All (λ d. (d == b'\n') ≡ false) s
    → write_chars long val c b cl s ≡ inr o
    → Written false (c ∷ s) (c ∷ o)
unfolding write_chars
write_chars-Written long val c b cl [] o e h r = elim (Bool-cases (c == b'\\')) [
  | inl f ↦
      (let g : o ≡ b'\\' ∷ [] = ground (arith, r, f) in
        subst (λ x. Written false (c ∷ []) (c ∷ x)) (sym g) (last_slash_of c f))
  | inr f ↦
      (let g : o ≡ [] = ground (arith, r, f) in
        subst (λ x. Written false (c ∷ []) (c ∷ x)) (sym g) (plain c [] [] f e stop))
]
write_chars-Written long val c b cl (d ∷ s) o e h r =
    let (u, g, (w, k, n, a)) = write_chars-inr long val c b cl d s o r in
    let next = write_chars-Written long w d k n s u (h.0) (h.1) a in
    subst (λ x. Written false (c ∷ d ∷ s) (c ∷ x)) (sym g)
      (elim (Bool-cases (c == b'\\')) [
        | inl f ↦ rw f (slash_of c f next)
        | inr f ↦ plain c (d ∷ s) _ f e (after_break _ next)
      ])

-- A piece that starts near the beginning of a line.
pub write_chunk-Written :
    (long : Bool) (cl c : ℕ) (s o : Bytes)
    → ltb cl 57 ≡ true
    → All (λ d. (d == b'\n') ≡ false) (c ∷ s)
    → write_chunk long (c ∷ s) cl ≡ inr o
    → Written false (c ∷ s) o
unfolding write_chunk break_here
write_chunk-Written long cl c s o l h r =
    let (u, g, (w, k, n, a)) = write_chars-inr long _ 0 true cl c s o r in
    let none_here : break_here cl c s ≡ false = ground (arith, l) in
    subst (λ x. Written false (c ∷ s) x) (sym (g ∙ ground (arith, none_here)))
      (write_chars-Written long w c k n s u (h.0) (h.1) a)
