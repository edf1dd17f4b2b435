-- ===== src/Base64/Url.antt =====
-- base64url against base64 (libbutl/base64.cxx): the same groups in another alphabet, with neither
-- padding nor line breaks, and the number of characters that the encoder writes.
use libbutl.Prelude.{
  ℕ, ◌+◌, ◌-◌, ◌*◌, ◌/◌, ◌%◌, ◌<◌, Bool, true, false, not, ◌&&◌, ◌||◌, [], ◌∷◌, ◌++◌, ◌≡◌, inl, inr,
  refl, sym, append_assoc, ◌⊎◌, arith, ◌==◌, if◌then◌else◌, Bytes, length, length-append, passes,
  passes_at,
}
use libbutl.Base64.{
  code_at, code_url_at, newline, pad, un, write_group, write_group_url, write, encode_from, encode,
  encode_url,
}
use libbutl.Base64.RoundTrip.{
  AreBytes, first_index_lt, second_index_base_lt, third_index_base_lt, fourth_index_lt,
  second_index_lt, third_index_lt,
}

-- One character of base64 in base64url: `+` and `/` change, line breaks and padding go.
abbrev pub to_url_char : ℕ → Bytes
to_url_char c =
    if c == newline || c == pad
    then []
    else if c == b'+'
    then b'-' ∷ []
    else if c == b'/'
    then b'_' ∷ []
    else c ∷ []

abbrev pub to_url : Bytes → Bytes
to_url [] = []
to_url (c ∷ s) = to_url_char c ++ to_url s

abbrev same_char : ℕ → Bytes → Bool
same_char c (d ∷ []) = d == c
same_char c _ = false

same_char_sound : (c : ℕ) (s : Bytes) → same_char c s ≡ true → s ≡ c ∷ []
same_char_sound c [] h = cc
same_char_sound c (d ∷ []) h = ground arith
same_char_sound c (d ∷ e ∷ s) h = cc

url_table : passes (λ i. same_char (code_url_at i) (to_url_char (code_at i))) 64 ≡ true
unfolding passes code_at code_url_at
url_table = refl

to_url-code_at : (i : ℕ) → i < 64 → to_url_char (code_at i) ≡ code_url_at i ∷ []
to_url-code_at i h =
    same_char_sound _ _
      (passes_at (λ i. same_char (code_url_at i) (to_url_char (code_at i))) 64 i h url_table)

to_url-append : (s t : Bytes) → to_url (s ++ t) ≡ to_url s ++ to_url t
to_url-append [] t = refl
to_url-append (c ∷ s) t =
    rw (to_url-append s t) (sym (append_assoc (to_url_char c) (to_url s) (to_url t)))

to_url-write :
    (n m i1 i2 i3 i4 : ℕ)
    → i1 < 64
    → i2 < 64
    → (i3 < 64) ⊎ (i3 ≡ un)
    → (i4 < 64) ⊎ (i4 ≡ un)
    → to_url (write false n i1 i2 i3 i4) ≡ write true m i1 i2 i3 i4
unfolding write write_group write_group_url
to_url-write n m i1 i2 i3 i4 h1 h2 h3 h4 =
    ground (arith, to_url-code_at i1 h1, to_url-code_at i2 h2, to_url-code_at i3, to_url-code_at i4)

to_url-encode_from :
    (n m : ℕ) (v : Bytes) → AreBytes v → to_url (encode_from false n v) ≡ encode_from true m v
unfolding encode_from
to_url-encode_from n m [] h = refl
to_url-encode_from n m (a ∷ []) h =
    to_url-write n m _ _ _ _ (first_index_lt a h.0) (second_index_base_lt a h.0) (inr refl)
      (inr refl)
to_url-encode_from n m (a ∷ b ∷ []) h =
    to_url-write n m _ _ _ _ (first_index_lt a h.0) (second_index_lt a h.0 b h.1.0)
      (inl (third_index_base_lt b h.1.0)) (inr refl)
to_url-encode_from n m (a ∷ b ∷ c ∷ v) h = rw (
  to_url-append (write false n _ _ _ _) (encode_from false (n + 1) v),
  to_url-encode_from (n + 1) (m + 1) v h.1.1.1,
  to_url-write n m _ _ _ _ (first_index_lt a h.0) (second_index_lt a h.0 b h.1.0)
      (inl (third_index_lt b h.1.0 c h.1.1.0)) (inl (fourth_index_lt c h.1.1.0)),
)

length-write :
    (n i1 i2 i3 i4 : ℕ)
    → length (write false n i1 i2 i3 i4) ≡ 4 + (if not (n == 0) && n % 19 == 0 then 1 else 0)
unfolding write write_group
length-write n i1 i2 i3 i4 = ground arith

length-encode_from :
    (n : ℕ) (v : Bytes)
    → length (encode_from false (n + 1) v)
      ≡ 4 * ((length v + 2) / 3) + ((n + (length v + 2) / 3) / 19 - n / 19)
unfolding encode_from
length-encode_from n [] = omega arith
length-encode_from n (a ∷ []) = rw length-write (ground arith)
length-encode_from n (a ∷ b ∷ []) = rw length-write (ground arith)
length-encode_from n (a ∷ b ∷ c ∷ v) =
    rw (length-append (write false (n + 1) _ _ _ _) (encode_from false (n + 1 + 1) v), length-write)
      (ground (arith, length-encode_from (n + 1) v))

pub length-encode :
    (v : Bytes) → length (encode v) ≡ 4 * ((length v + 2) / 3) + ((length v + 2) / 3 - 1) / 19
unfolding encode encode_from
length-encode [] = omega arith
length-encode (a ∷ []) = rw length-write (omega arith)
length-encode (a ∷ b ∷ []) = rw length-write (omega arith)
length-encode (a ∷ b ∷ c ∷ v) =
    rw (length-append (write false 0 _ _ _ _) (encode_from false (0 + 1) v), length-write)
      (omega (arith, length-encode_from 0 v))

pub to_url-encode : (v : Bytes) → AreBytes v → to_url (encode v) ≡ encode_url v
unfolding encode encode_url
to_url-encode v h = to_url-encode_from 0 0 v h
