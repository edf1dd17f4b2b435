-- ===== src/Manifest/Names.antt =====
-- The names that the serializer of Manifest/Serializer.antt lets pass are read back by the parser.
use libbutl.Prelude.{
  ℕ, Bool, true, false, not, ◌&&◌, ◌||◌, ◌⊎◌, inl, inr, [], ◌∷◌, ◌++◌, ◌≡◌, refl, ◌==◌, ltb,
  if◌then◌else◌, Bytes, All, arith, Bool-cases, codes,
}
use libbutl.Manifest.Parser.{parse_name}
use libbutl.Manifest.Serializer.{name_loop, check_name}
use libbutl.Manifest.Spaces.{blank, skip_spaces, skip_spaces_loop}
use libbutl.Manifest.Value.{graphic_validator}
use libbutl.Utf8.{Utf8Validator, validate, IsSteady, validate-last, validate-IsSteady}

-- No character of a name ends it.
abbrev pub IsNameChar : ℕ → Type 0
IsNameChar c = (c == b':' || blank c || c == b'\n') ≡ false

-- A call that passed a check.
pub passed :
    {A : Type 0} (b : Bool) (x : Bytes) (y : Bytes ⊎ A) (k : A)
    → (if b then inl x else y) ≡ inr k
    → (b ≡ false) × (y ≡ inr k)
passed true x y k h = cc
passed false x y k h = (refl, h)

char_of :
    (c : ℕ) (rest : Bytes ⊎ ℕ) (valid last : Bool) (what : Bytes) (k : ℕ)
    → (ltb c 128 ≡ true → valid ≡ true → last ≡ true)
    → (if not valid
        then inl (codes "invalid name: " ++ what)
        else if last && (blank c || c == b'\r' || c == b'\n')
        then inl (codes "name contains whitespace")
        else if last && c == b':'
        then inl (codes "name contains ':'")
        else rest)
      ≡ inr k
    → (rest ≡ inr k) × IsNameChar c
char_of c rest false last what k h e = cc
char_of c rest true true what k h e =
    let colon = if c == b':' then inl (codes "name contains ':'") else rest in
    let (w, f) =
      passed (blank c || c == b'\r' || c == b'\n') (codes "name contains whitespace") colon k e in
    let (p, g) = passed (c == b':') (codes "name contains ':'") rest k f in
    (g, ground (arith, w, p))
char_of c rest true false what k h e =
    let high : ltb c 128 ≡ false = elim (Bool-cases (ltb c 128)) [
      | inl l ↦ cc (h l refl)
      | inr l ↦ l
    ] in
    (e, ground (arith, high))

name_loop-IsNameChar :
    (val : Utf8Validator) (last : Bool) (r : ℕ) (n : Bytes) (k : ℕ)
    → IsSteady val
    → name_loop val last r n ≡ inr k
    → All IsNameChar n
unfolding name_loop
name_loop-IsNameChar val last r [] k h e = tt
name_loop-IsNameChar val last r (c ∷ n) k h e =
    let p = validate val c in
    let (g, d) = char_of c _ p.0.valid p.0.last p.0.what k (validate-last val c h) e in
    (d, name_loop-IsNameChar p.1 _ _ n k (validate-IsSteady val c h) g)

pub check_name-IsNameChar :
    (c : ℕ) (n : Bytes) (k : ℕ)
    → check_name (c ∷ n) ≡ inr k
    → ((c == b'#') ≡ false) × All IsNameChar (c ∷ n)
unfolding check_name
check_name-IsNameChar c n k e =
    let (f, g) = passed _ _ _ k e in
    (f, name_loop-IsNameChar graphic_validator false 0 (c ∷ n) k refl g)

pub parse_name-append :
    (n t : Bytes) → All IsNameChar n → parse_name (n ++ b':' ∷ t) ≡ (n, b':' ∷ t)
unfolding parse_name
parse_name-append [] t h = refl
parse_name-append (c ∷ n) t h = rw (h.0, parse_name-append n t (h.1)) refl

pub skip_spaces-name :
    (c : ℕ) (t : Bytes) → (c == b'#') ≡ false → IsNameChar c → skip_spaces true (c ∷ t) ≡ c ∷ t
unfolding skip_spaces_loop
skip_spaces-name c t h e = ground (arith, h, e)
