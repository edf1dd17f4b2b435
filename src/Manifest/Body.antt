-- ===== src/Manifest/Body.antt =====
-- A pair that the serializer writes in the body of a manifest, read by `parse_next`.
use libbutl.Prelude.{
  ℕ, ◌+◌, Bool, true, false, not, ◌&&◌, ◌⊎◌, inl, inr, none, [], ◌∷◌, ◌++◌, ◌≡◌, refl, ap, ◌∙◌, sym,
  ◌==◌, Bytes, All, arith, codes, append_assoc,
}
use libbutl.Manifest.Names.{IsNameChar, check_name-IsNameChar, parse_name-append, skip_spaces-name}
use libbutl.Manifest.Pairs.{pair, body}
use libbutl.Manifest.Parser.{parser, check_pair, parse_rest, parse_pair, parse_next}
use libbutl.Manifest.Serializer.{Serializer, write, write_body, check_name}
use libbutl.Manifest.Spaces.{skip_spaces, skip_spaces_loop}
use libbutl.Manifest.Value.{write_value, parse_value, introducer, at_end}
use libbutl.Manifest.Value.Newlines.{newlines}
use libbutl.Manifest.Value.RoundTrip.{parse_value-simple, value_end, parse_value-write_value}

-- A value with each `\r\n` and each other `\r` replaced by a newline.
abbrev pub normal : Bytes → Bytes
normal v = newlines v

-- A text that does not start with a line of a backslash alone, which would introduce a multi-line
-- value after an empty one.
abbrev pub fresh : Bytes → Bool
fresh [] = true
fresh (c ∷ s) = not (c == b'\\' && at_end s)

introducer-fresh : (t : Bytes) → fresh t ≡ true → introducer (b'\n' ∷ t) ≡ none
unfolding introducer
introducer-fresh [] h = refl
introducer-fresh (c ∷ s) h =
    let g : (c == b'\\' && at_end s) ≡ false = ground (arith, h) in rw g refl

pub parse_value-empty :
    (t : Bytes) → fresh t ≡ true → parse_value (skip_spaces false (b'\n' ∷ t)) ≡ ([], b'\n' ∷ t)
unfolding skip_spaces_loop
parse_value-empty t h =
    parse_value-simple (b'\n' ∷ t) [] (b'\n' ∷ t) 0 (introducer-fresh t h) (value_end t [] 0)

pub sum_cases : {A : Type 0} (x : Bytes ⊎ A) → ((e : Bytes) × (x ≡ inl e)) ⊎ ((a : A) × (x ≡ inr a))
sum_cases (inl e) = inl (e, refl)
sum_cases (inr a) = inr (a, refl)

-- The text of a value after its colon.
abbrev pub ReadsAs : Bytes → Bytes → Type 0
ReadsAs w v =
    (t : Bytes) → fresh t ≡ true → parse_value (skip_spaces false (w ++ b'\n' ∷ t)) ≡ (v, b'\n' ∷ t)

write_body-refused :
    (s : Serializer) (c : ℕ) (n v m : Bytes)
    → check_name (c ∷ n) ≡ inl m
    → write_body s (c ∷ n) v ≡ inl m
unfolding write_body
write_body-refused s c n v m f = rw (f, write_body) refl

write_body-value :
    (s u : Serializer) (n v : Bytes) (l : ℕ)
    → check_name n ≡ inr l
    → write_body s n v ≡ inr u
    → (w : Bytes) × (u ≡ write s (n ++ b':' ∷ w ++ b'\n' ∷ [])) × ReadsAs w (normal v)
unfolding write_body newlines
write_body-value s u n [] l f e =
    let g : inr u ≡ inr (write s (n ++ codes ":\n")) = sym e ∙ rw (f, write_body) refl in
    let k : u ≡ write s (n ++ codes ":\n") = cc in
    ([], k ∙ ap (λ x. write s x) (sym (append_assoc n (b':' ∷ []) (b'\n' ∷ []))), parse_value-empty)
write_body-value s u n (d ∷ v) l f e = elim (sum_cases (write_value s.long_lines (d ∷ v) (l + 1))) [
  | inl (m, h) ↦
      let bad : write_body s n (d ∷ v) ≡ inl m = rw (f, write_body) (rw (h, write_body) refl) in
      let no : inl m ≡ inr u = sym bad ∙ e in cc
  | inr (w, h) ↦
      let done : write_body s n (d ∷ v) ≡ inr (write s (n ++ b':' ∷ w ++ b'\n' ∷ [])) =
        rw (f, write_body) (rw (h, write_body) refl) in
      let same : inr u ≡ inr (write s (n ++ b':' ∷ w ++ b'\n' ∷ [])) = sym e ∙ done in
      (w, cc, λ t k. parse_value-write_value s.long_lines d v (l + 1) w t h)
]

pub write_body-ReadsAs :
    (s u : Serializer) (c : ℕ) (n v : Bytes)
    → write_body s (c ∷ n) v ≡ inr u
    → (w : Bytes) × (u ≡ write s (c ∷ (n ++ b':' ∷ (w ++ b'\n' ∷ []))))
      × ReadsAs w (normal v)
      × ((c == b'#') ≡ false)
      × All IsNameChar (c ∷ n)
write_body-ReadsAs s u c n v e = elim (sum_cases (check_name (c ∷ n))) [
  | inl (m, f) ↦ cc (write_body-refused s c n v m f)
  | inr (l, f) ↦
      let named = check_name-IsNameChar c n l f in
      let (w, g, r) = write_body-value s u (c ∷ n) v l f e in
      (
        w,
        g ∙ ap (λ x. write s (c ∷ x)) (append_assoc n (b':' ∷ w) (b'\n' ∷ [])),
        r,
        named.0,
        named.1,
      )
]

skip_spaces-colon : (s : Bytes) → skip_spaces false (b':' ∷ s) ≡ b':' ∷ s
skip_spaces-colon s = unfold skip_spaces_loop in refl

pub parse_next-body :
    (c : ℕ) (n w v t ver : Bytes)
    → (c == b'#') ≡ false
    → All IsNameChar (c ∷ n)
    → ReadsAs w v
    → fresh t ≡ true
    → parse_next (parser (c ∷ (n ++ b':' ∷ (w ++ b'\n' ∷ t))) body ver)
      ≡ inr (pair (c ∷ n) v, parser t body ver)
unfolding parse_next parse_pair parse_rest check_pair
parse_next-body c n w v t ver h a r g =
    let s = w ++ b'\n' ∷ t in
    let colon : (c == b':') ≡ false = ground (arith, a.0) in
    rw
      (
        skip_spaces-name c (n ++ b':' ∷ s) h (a.0),
        colon,
        parse_name-append (c ∷ n) s a,
        skip_spaces-colon s,
        r t g,
      )
      refl
