-- ===== src/Base64/Lines.antt =====
-- The line breaks of `base64_encode` (libbutl/base64.cxx), against an independent description.
use libbutl.Prelude.{
  ℕ, zero, suc, ◌+◌, ◌-◌, ◌*◌, ◌/◌, ◌%◌, Bool, true, false, not, ◌&&◌, [], ◌∷◌, ◌++◌, ◌≡◌, refl,
  sym, ap, ◌∙◌, arith, ◌==◌, if◌then◌else◌, Bytes, length, get_or, has_byte, inl, inr, Bool-cases,
  append-nil,
}
use mathlib.Core.Path.{subst}
use libbutl.Base64.{
  alphabet, code_at, newline, pad, un, write_group, write, encode_from, encode, encode_url,
}
use libbutl.Base64.RoundTrip.{AreBytes}
use libbutl.Base64.Url.{to_url, to_url-encode, length-encode}

-- A text in lines of 76 characters, with a newline between each two of them, from a column on.
unfoldable pub wrap : ℕ → Bytes → Bytes
wrap k [] = []
wrap k (c ∷ s) =
    let rest = wrap (if k == 76 then 1 else k + 1) s in
    if k == 76 then newline ∷ c ∷ rest else c ∷ rest

unfoldable pub without_newlines : Bytes → Bytes
without_newlines [] = []
without_newlines (c ∷ s) = let rest = without_newlines s in if c == newline then rest else c ∷ rest

get_or-no_newline :
    (s : Bytes) (i : ℕ) → has_byte newline s ≡ false → (get_or s i 0 == newline) ≡ false
get_or-no_newline [] i h = refl
get_or-no_newline (c ∷ s) zero h = ground (arith, h)
get_or-no_newline (c ∷ s) (suc i) h = get_or-no_newline s i (ground (arith, h))

code_at-no_newline : (i : ℕ) → (code_at i == newline) ≡ false
unfolding code_at
code_at-no_newline i = get_or-no_newline alphabet i refl

padded-no_newline : (i : ℕ) → ((if i == un then pad else code_at i) == newline) ≡ false
padded-no_newline i = elim (Bool-cases (i == un)) [
  | inl e ↦ rw e refl
  | inr e ↦ rw e (code_at-no_newline i)
]

-- The column where a round starts.
abbrev column : ℕ → ℕ
column n = if n == 0 then 0 else 4 * ((n - 1) % 19) + 4

-- Whether a round starts a line other than the first one.
abbrev breaks : ℕ → Bool
breaks n = not (n == 0) && n % 19 == 0

column_76 : (n : ℕ) → (column n == 76) ≡ breaks n
column_76 n = ground arith

column_next : (n : ℕ) → breaks n ≡ false → column (n + 1) ≡ column n + 4
column_next n h = ground (arith, h)

column_first : (n : ℕ) → breaks n ≡ true → column (n + 1) ≡ 4
column_first n h = ground (arith, h)

column_one : (n : ℕ) → (column n + 1 == 76) ≡ false
column_one n = ground arith

column_two : (n : ℕ) → (column n + 1 + 1 == 76) ≡ false
column_two n = ground arith

column_three : (n : ℕ) → (column n + 1 + 1 + 1 == 76) ≡ false
column_three n = ground arith

column_four : (n : ℕ) → column n + 1 + 1 + 1 + 1 ≡ column n + 4
column_four n = omega arith

-- A round starts a line or goes on with one.
wrap_group :
    (n a b c d : ℕ) (s : Bytes)
    → wrap (column n) (a ∷ b ∷ c ∷ d ∷ s)
      ≡ ((if breaks n then newline ∷ [] else []) ++ (a ∷ b ∷ c ∷ d ∷ [])) ++ wrap (column (n + 1)) s
unfolding wrap
wrap_group n a b c d s = elim (Bool-cases (breaks n)) [
  | inl e ↦
      let first : (column n == 76) ≡ true = column_76 n ∙ e in rw (first, e, column_first n e) refl
  | inr e ↦
      let same : (column n == 76) ≡ false = column_76 n ∙ e in
      rw (same, e, column_one n, column_two n, column_three n, column_next n e, column_four n) refl
]

without_newlines_group :
    (brk : Bool) (a b c d : ℕ) (s : Bytes)
    → (a == newline) ≡ false
    → (b == newline) ≡ false
    → (c == newline) ≡ false
    → (d == newline) ≡ false
    → without_newlines (((if brk then newline ∷ [] else []) ++ (a ∷ b ∷ c ∷ d ∷ [])) ++ s)
      ≡ a ∷ b ∷ c ∷ d ∷ without_newlines s
unfolding without_newlines
without_newlines_group true a b c d s e f g h = rw (e, f, g, h) refl
without_newlines_group false a b c d s e f g h = rw (e, f, g, h) refl

without_newlines-write :
    (n i1 i2 i3 i4 : ℕ) (s : Bytes)
    → without_newlines (write false n i1 i2 i3 i4 ++ s)
      ≡ code_at i1
        ∷ code_at i2
        ∷ (if i3 == un then pad else code_at i3)
        ∷ (if i4 == un then pad else code_at i4)
        ∷ without_newlines s
unfolding write write_group
without_newlines-write n i1 i2 i3 i4 s =
    without_newlines_group (breaks n) _ _ _ _ s (code_at-no_newline i1) (code_at-no_newline i2)
      (padded-no_newline i3) (padded-no_newline i4)

-- A round in front of a text that is in lines.
wrap-write :
    (n i1 i2 i3 i4 : ℕ) (s : Bytes)
    → wrap (column (n + 1)) (without_newlines s) ≡ s
    → wrap (column n) (without_newlines (write false n i1 i2 i3 i4 ++ s))
      ≡ write false n i1 i2 i3 i4 ++ s
unfolding write write_group
wrap-write n i1 i2 i3 i4 s h =
    ap (wrap (column n)) (without_newlines-write n i1 i2 i3 i4 s)
    ∙ wrap_group n _ _ _ _ (without_newlines s)
    ∙ ap (λ x. write_group n i1 i2 i3 i4 ++ x) h

wrap-write_last :
    (n i1 i2 i3 i4 : ℕ)
    → wrap (column n) (without_newlines (write false n i1 i2 i3 i4)) ≡ write false n i1 i2 i3 i4
unfolding without_newlines wrap
wrap-write_last n i1 i2 i3 i4 =
    let e : write false n i1 i2 i3 i4 ++ [] ≡ write false n i1 i2 i3 i4 =
      append-nil (write false n i1 i2 i3 i4) in
    subst (λ x. wrap (column n) (without_newlines x) ≡ x) e (wrap-write n i1 i2 i3 i4 [] refl)

wrap-encode_from :
    (n : ℕ) (v : Bytes)
    → wrap (column n) (without_newlines (encode_from false n v)) ≡ encode_from false n v
unfolding encode_from without_newlines wrap
wrap-encode_from n [] = refl
wrap-encode_from n (a ∷ []) = wrap-write_last n _ _ _ _
wrap-encode_from n (a ∷ b ∷ []) = wrap-write_last n _ _ _ _
wrap-encode_from n (a ∷ b ∷ c ∷ v) = wrap-write n _ _ _ _ _ (wrap-encode_from (n + 1) v)

length-without_newlines-write :
    (n i1 i2 i3 i4 : ℕ) (s : Bytes)
    → length (without_newlines (write false n i1 i2 i3 i4 ++ s)) ≡ 4 + length (without_newlines s)
length-without_newlines-write n i1 i2 i3 i4 s =
    ap (λ x. length {A = ℕ} x) (without_newlines-write n i1 i2 i3 i4 s) ∙ omega arith

length-without_newlines-write_last :
    (n i1 i2 i3 i4 : ℕ) → length (without_newlines (write false n i1 i2 i3 i4)) ≡ 4
unfolding without_newlines
length-without_newlines-write_last n i1 i2 i3 i4 =
    ap (λ x. length (without_newlines x)) (sym (append-nil (write false n i1 i2 i3 i4)))
    ∙ length-without_newlines-write n i1 i2 i3 i4 []

length-without_newlines-encode_from :
    (n : ℕ) (v : Bytes)
    → length (without_newlines (encode_from false n v)) ≡ 4 * ((length v + 2) / 3)
unfolding encode_from without_newlines
length-without_newlines-encode_from n [] = refl
length-without_newlines-encode_from n (a ∷ []) = length-without_newlines-write_last n _ _ _ _
length-without_newlines-encode_from n (a ∷ b ∷ []) = length-without_newlines-write_last n _ _ _ _
length-without_newlines-encode_from n (a ∷ b ∷ c ∷ v) =
    length-without_newlines-write n _ _ _ _ _
    ∙ omega (arith, length-without_newlines-encode_from (n + 1) v)

-- For `g` groups of up to three bytes `base64_encode` writes four characters each, which are no
-- newlines, in lines of 76 characters: there is a newline between every nineteen groups, and no
-- other one. The base64url encoding is that text with `-` for `+`, `_` for `/`, and with the line
-- breaks and the padding left out.
pub encode_url-encode :
    (v : Bytes)
    → AreBytes v
    → (encode v ≡ wrap 0 (without_newlines (encode v)))
      × (length (without_newlines (encode v)) ≡ 4 * ((length v + 2) / 3))
      × (length (encode v) ≡ 4 * ((length v + 2) / 3) + ((length v + 2) / 3 - 1) / 19)
      × (encode_url v ≡ to_url (encode v))
unfolding encode
encode_url-encode v h = (
  sym (wrap-encode_from 0 v),
  length-without_newlines-encode_from 0 v,
  length-encode v,
  sym (to_url-encode v h),
)
