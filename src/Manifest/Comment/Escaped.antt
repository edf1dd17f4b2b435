-- ===== src/Manifest/Comment/Escaped.antt =====
-- Reading back one line that was escaped in the multi-line mode.
use libbutl.Prelude.{
  ℕ, zero, suc, ◌+◌, ◌/◌, ◌≡◌, ◌⊎◌, inl, inr, refl, ap, ◌∙◌, false, ◌||◌, Option, none, some, [],
  ◌∷◌, ◌++◌, Bytes, length, length-append, drop, is_empty, has_byte, replicate, arith, Option-cases,
  append-nil,
}
use libbutl.Manifest.Comment.{
  separator_form, find_line, newline_at, next_line, escape_of, escape_line, read_line, read_lines,
}

separator_form-replicate :
    (n : ℕ) (l : Bytes) {k : ℕ}
    → separator_form l ≡ some k
    → separator_form (replicate n b'\\' ++ l) ≡ some (n + k)
unfolding separator_form
separator_form-replicate zero l h = ground (arith, h)
separator_form-replicate (suc n) l {k} h = rw (separator_form-replicate n l h) (ground arith)

length-separator : (l : Bytes) {k : ℕ} → separator_form l ≡ some k → length l ≡ suc k
unfolding separator_form
length-separator [] h = cc
length-separator (c ∷ s) {k} h = elim (Option-cases (separator_form s)) [
  | inl e ↦ ground (arith, h, e)
  | inr e ↦ ground (arith, h, e.1, length-separator s (e.1))
]

drop-replicate : (n c : ℕ) (l : Bytes) → drop n (replicate n c ++ l) ≡ l
drop-replicate zero c l = refl
drop-replicate (suc n) c l = drop-replicate n c l

length-replicate : (n c : ℕ) → length {A = ℕ} (replicate n c) ≡ n
length-replicate zero c = refl
length-replicate (suc n) c = omega (arith, length-replicate n c)

-- What reading makes of a line after its escape.
abbrev Unescapes : Bytes → Bytes → Type 0
Unescapes e l =
    ((separator_form e ≡ none) × (e ≡ l))
    ⊎ ((k : ℕ) × (separator_form e ≡ some (suc k)) × (drop (length e / 2) e ≡ l))

-- A line with as many backslashes in front as stand in front of the middle.
replicate-Unescapes :
    (m k : ℕ) (l : Bytes)
    → separator_form l ≡ some k
    → (suc m + suc k) / 2 ≡ suc m
    → Unescapes (replicate (suc m) b'\\' ++ l) l
replicate-Unescapes m k l h half =
    let size : length (replicate (suc m) b'\\' ++ l) / 2 ≡ suc m =
      rw
        (
          length-append (replicate (suc m) b'\\') l,
          length-replicate (suc m) b'\\',
          length-separator l h,
        )
        half in
    let form : separator_form (replicate (suc m) b'\\' ++ l) ≡ some (suc (m + k)) =
      separator_form-replicate (suc m) l h ∙ ap some (omega arith) in
    inr (
      m + k,
      form,
      ap (λ n. drop n (replicate (suc m) b'\\' ++ l)) size ∙ drop-replicate (suc m) b'\\' l,
    )

pub escape_line-Unescapes : (l : Bytes) → Unescapes (escape_line l) l
unfolding escape_line
escape_line-Unescapes l = elim (Option-cases (separator_form l)) [
  | inl e ↦ rw e (inl (e, refl))
  | inr (zero, e) ↦ rw e (replicate-Unescapes 0 0 l e refl)
  | inr (suc k, e) ↦ rw e (replicate-Unescapes k (suc k) l e (omega arith))
]

pub has_byte-append : (b : ℕ) (x y : Bytes) → has_byte b (x ++ y) ≡ (has_byte b x || has_byte b y)
has_byte-append b [] y = refl
has_byte-append b (c ∷ x) y = ground (arith, has_byte-append b x y)

has_newline-replicate : (n : ℕ) → has_byte b'\n' (replicate n b'\\') ≡ false
has_newline-replicate zero = refl
has_newline-replicate (suc n) = has_newline-replicate n

has_newline-escape_of : (o : Option ℕ) → has_byte b'\n' (escape_of o) ≡ false
has_newline-escape_of none = refl
has_newline-escape_of (some zero) = refl
has_newline-escape_of (some (suc n)) = has_newline-replicate (suc n)

pub has_newline-escape_line : (l : Bytes) → has_byte b'\n' (escape_line l) ≡ has_byte b'\n' l
unfolding escape_line
has_newline-escape_line l =
    rw
      (
        has_byte-append b'\n' (escape_of (separator_form l)) l,
        has_newline-escape_of (separator_form l),
      )
      refl

pub find_line-append :
    (l t : Bytes) → has_byte b'\n' l ≡ false → find_line (l ++ b'\n' ∷ t) ≡ (l, b'\n' ∷ t)
unfolding find_line
find_line-append [] t h = refl
find_line-append (c ∷ l) t h = ground (arith, find_line-append l t)

pub find_line-last : (l : Bytes) → has_byte b'\n' l ≡ false → find_line l ≡ (l, [])
unfolding find_line
find_line-last [] h = refl
find_line-last (c ∷ l) h = ground (arith, find_line-last l)

-- A line that is read adds its original to the value.
abbrev AtEnd : Bytes → Type 0
AtEnd t = (t ≡ []) ⊎ ((u : Bytes) × (t ≡ b'\n' ∷ u))

find_line-AtEnd : (l t : Bytes) → has_byte b'\n' l ≡ false → AtEnd t → find_line (l ++ t) ≡ (l, t)
find_line-AtEnd l t h (inl e) = rw (e, append-nil l) (find_line-last l h)
find_line-AtEnd l t h (inr (u, e)) = rw e (find_line-append l u h)

read_lines_nonempty :
    (f : ℕ) (r s : Bytes) {l t : Bytes}
    → is_empty s ≡ false
    → find_line s ≡ (l, t)
    → read_lines (suc f) r s ≡ read_line (read_lines f) r (separator_form l) (l, t)
unfolding read_lines read_line
read_lines_nonempty f r [] ne h = cc
read_lines_nonempty f r (c ∷ s) ne h = rw h refl

pub read_lines-escaped :
    (f : ℕ) (r e l t : Bytes)
    → Unescapes e l
    → has_byte b'\n' e ≡ false
    → AtEnd t
    → is_empty (e ++ t) ≡ false
    → read_lines (suc f) r (e ++ t) ≡ read_lines f (r ++ l ++ newline_at t) (next_line t)
unfolding read_line
read_lines-escaped f r e l t (inl (form, same)) h at ne =
    read_lines_nonempty f r (e ++ t) ne (find_line-AtEnd e t h at) ∙ rw (form, same) refl
read_lines-escaped f r e l t (inr (k, form, half)) h at ne =
    read_lines_nonempty f r (e ++ t) ne (find_line-AtEnd e t h at) ∙ rw (form, half) refl
