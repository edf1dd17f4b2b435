-- ===== src/Url/Names.antt =====
-- Hosts that are names.
use libbutl.Prelude.{
  ℕ, Bool, true, false, ◌&&◌, ◌||◌, [], ◌∷◌, ◌==◌, ◌≡◌, refl, sym, ap, ◌∙◌, Bytes, arith, leb,
  has_byte, ok, passes, passes_at, Bool-cases, inl, inr, All, ==_iff,
}
use mathlib.Core.Path.{subst}
use libbutl.Base64.RoundTrip.{AreBytes}
use libbutl.Url.Codec.{encode, unreserved, sub_delim}
use libbutl.Url.Host.{host, string, name, name_host, check_host, is_ipv4}
use libbutl.Url.RoundTrip.{decode-encode_matching, Matches, high, low, both_left, both_right}

-- A character of a name, or one outside ASCII, which is encoded.
abbrev pub is_name_char : ℕ → Bool
is_name_char c = unreserved c || sub_delim c || c == b'%' || leb 0x80 c

-- The callbacks of `string` and of the constructor.
abbrev to_encode : ℕ → ℕ × Bool
to_encode c = (c, leb 0x80 c)

abbrev same_byte : ℕ → ℕ
same_byte c = c

Matches-same : (c : ℕ) → Matches to_encode same_byte c
Matches-same c h = elim (Bool-cases (leb 0x80 c)) [
  | inl e ↦ inl (e, refl)
  | inr e ↦ inr (e, h, refl)
]

All-Matches : (s : Bytes) → All (Matches to_encode same_byte) s
All-Matches [] = tt
All-Matches (c ∷ s) = (Matches-same c, All-Matches s)

digits_table : passes (λ c. unreserved (high c) && unreserved (low c)) 256 ≡ true
unfolding passes
digits_table = refl

check_host-percent :
    (a b : ℕ) (s : Bytes)
    → unreserved a && unreserved b ≡ true
    → check_host s ≡ true
    → check_host (b'%' ∷ a ∷ b ∷ s) ≡ true
unfolding check_host
check_host-percent a b s h k =
    rw (both_left (unreserved a) (unreserved b) h, both_right (unreserved a) (unreserved b) h, k)
      refl

allowed_and :
    (u s p h k : Bool) → u || s || p || h ≡ true → h ≡ false → k ≡ true → (u || s || p) && k ≡ true
allowed_and u s p h k e f g = ground (arith, e, f, g)

check_host-plain :
    (c : ℕ) (s : Bytes)
    → is_name_char c ≡ true
    → leb 0x80 c ≡ false
    → check_host s ≡ true
    → check_host (c ∷ s) ≡ true
unfolding check_host
check_host-plain c s h e k =
    allowed_and (unreserved c) (sub_delim c) (c == b'%') (leb 0x80 c) (check_host s) h e k

check_host-encode :
    (s : Bytes)
    → AreBytes s
    → All (λ c. is_name_char c ≡ true) s
    → check_host (encode to_encode s) ≡ true
unfolding encode check_host
check_host-encode [] b h = refl
check_host-encode (c ∷ s) b h =
    let k = check_host-encode s (b.1) (h.1) in
    let d = passes_at (λ c. unreserved (high c) && unreserved (low c)) 256 c (b.0) digits_table in
    elim (Bool-cases (c == b'%')) [
      | inl e ↦ rw e (check_host-percent (high c) (low c) (encode to_encode s) d k)
      | inr e ↦ elim (Bool-cases (leb 0x80 c)) [
        | inl f ↦ rw (e, f) (check_host-percent (high c) (low c) (encode to_encode s) d k)
        | inr f ↦ rw (e, f) (check_host-plain c (encode to_encode s) (h.0) f k)
      ]
    ]

-- Without a percent sign in the result, nothing was encoded.
encode_plain : (s : Bytes) → has_byte b'%' (encode to_encode s) ≡ false → encode to_encode s ≡ s
unfolding encode
encode_plain [] h = refl
encode_plain (c ∷ s) h = elim (Bool-cases (c == b'%')) [
  | inl e ↦
      let q : has_byte b'%' (encode to_encode (c ∷ s)) ≡ true = rw e refl in
      let no : true ≡ false = sym q ∙ h in cc
  | inr e ↦ elim (Bool-cases (leb 0x80 c)) [
    | inl f ↦
        let q : has_byte b'%' (encode to_encode (c ∷ s)) ≡ true = rw (e, f) refl in
        let no : true ≡ false = sym q ∙ h in cc
    | inr f ↦
        let q : has_byte b'%' (encode to_encode (c ∷ s)) ≡ has_byte b'%' (encode to_encode s) =
          rw (e, f) (rw e refl) in
        rw (e, f) (ap (λ t. c ∷ t) (encode_plain s (sym q ∙ h)))
  ]
]

name_host-encode :
    (s : Bytes)
    → AreBytes s
    → All (λ c. is_name_char c ≡ true) s
    → name_host (encode to_encode s) ≡ ok (record { value = s; kind = name })
unfolding name_host
name_host-encode s b h = elim (Bool-cases (has_byte b'%' (encode to_encode s))) [
  | inl e ↦
      rw
        (check_host-encode s b h, e, decode-encode_matching to_encode same_byte s b (All-Matches s))
        refl
  | inr e ↦
      rw (check_host-encode s b h, e)
        (ap (λ t. ok (record { value = t; kind = name })) (encode_plain s e))
]

not_bracket : (c : ℕ) (t : Bytes) → check_host (c ∷ t) ≡ true → (c == b'[') ≡ false
unfolding check_host
not_bracket c t h = elim (Bool-cases (c == b'[')) [
  | inr e ↦ e
  | inl e ↦
      let no : false ≡ true = subst (λ x. check_host (x ∷ t) ≡ true) ((==_iff c b'[').0 e) h in cc
]

host-name_host : (t : Bytes) → check_host t ≡ true → is_ipv4 0 [] t ≡ false → host t ≡ name_host t
unfolding host check_host
host-name_host [] h k = refl
host-name_host (c ∷ t) h k = rw (not_bracket c t h, k) refl

-- A host that is a name of the characters of names, others encoded, is read back from its text,
-- unless that text is an IPv4 address.
pub host-string :
    (s : Bytes)
    → AreBytes s
    → All (λ c. is_name_char c ≡ true) s
    → is_ipv4 0 [] (string (record { value = s; kind = name })) ≡ false
    → host (string (record { value = s; kind = name })) ≡ ok (record { value = s; kind = name })
unfolding string name_host check_host host
host-string [] b h k = refl
host-string (c ∷ s) b h k =
    host-name_host (encode to_encode (c ∷ s)) (check_host-encode (c ∷ s) b h) k
    ∙ name_host-encode (c ∷ s) b h
