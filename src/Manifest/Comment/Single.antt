-- ===== src/Manifest/Comment/Single.antt =====
-- The single-line mode: splitting what was merged.
use libbutl.Prelude.{
  ℕ, ◌≡◌, refl, sym, ap, ◌∙◌, false, ◌||◌, [], ◌∷◌, ◌++◌, ◌==◌, if◌then◌else◌, Bytes, length, take,
  is_empty, take-length, has_byte, codes, arith, append_assoc, append-nil,
}
use libbutl.Manifest.Comment.{
  blank, escape_chars, merge_comment, read_single, skip_blanks, comment_at, split_single,
  split_comment,
}
use libbutl.Manifest.Comment.Escaped.{has_byte-append}
use libbutl.Manifest.Spaces.{blank, ends_with_blank, starts_with_blank}

-- The size up to the last character that is no blank, once a value is read.
abbrev size_after : Bytes → ℕ → Bytes → ℕ
size_after r n [] = n
size_after r n (c ∷ v) = size_after (r ++ c ∷ []) (if blank c then n else length (r ++ c ∷ [])) v

read_single-semicolon :
    (r : Bytes) (n : ℕ) (t : Bytes) → read_single r n (b';' ∷ t) ≡ (r, n, b';' ∷ t)
unfolding read_single
read_single-semicolon r n [] = refl
read_single-semicolon r n (d ∷ t) = refl

-- A character, escaped if it has to be, is read.
read_single-char :
    (r : Bytes) (n c : ℕ) (t : Bytes)
    → read_single r n ((if c == b';' || c == b'\\' then b'\\' ∷ c ∷ [] else c ∷ []) ++ t)
      ≡ read_single (r ++ c ∷ []) (if blank c then n else length (r ++ c ∷ [])) t
unfolding read_single
read_single-char r n c [] = ground arith
read_single-char r n c (d ∷ t) = ground arith

read_single-escape_chars :
    (r : Bytes) (n : ℕ) (v t : Bytes)
    → read_single r n (escape_chars v ++ t) ≡ read_single (r ++ v) (size_after r n v) t
unfolding escape_chars
read_single-escape_chars r n [] t = ap (λ x. read_single x n t) (sym (append-nil r))
read_single-escape_chars r n (c ∷ v) t =
    let e = if c == b';' || c == b'\\' then b'\\' ∷ c ∷ [] else c ∷ [] in
    let m = if blank c then n else length (r ++ c ∷ []) in
    ap (read_single r n) (append_assoc e (escape_chars v) t)
    ∙ read_single-char r n c (escape_chars v ++ t)
    ∙ read_single-escape_chars (r ++ c ∷ []) m v t
    ∙ ap (λ x. read_single x (size_after (r ++ c ∷ []) m v) t) (append_assoc r (c ∷ []) v)

size_after-length :
    (r : Bytes) (n c : ℕ) (v : Bytes)
    → ends_with_blank (c ∷ v) ≡ false
    → size_after r n (c ∷ v) ≡ length (r ++ c ∷ v)
size_after-length r n c [] h = rw h refl
size_after-length r n c (d ∷ v) h =
    size_after-length (r ++ c ∷ []) (if blank c then n else length (r ++ c ∷ [])) d v h
    ∙ ap (λ x. length {A = ℕ} x) (append_assoc r (c ∷ []) (d ∷ v))

size_after-take : (v : Bytes) → ends_with_blank v ≡ false → take (size_after [] 0 v) v ≡ v
size_after-take [] h = refl
size_after-take (c ∷ v) h = rw (size_after-length [] 0 c v h) (take-length (c ∷ v))

skip_blanks-none : (s : Bytes) → starts_with_blank s ≡ false → skip_blanks s ≡ s
unfolding skip_blanks
skip_blanks-none [] h = refl
skip_blanks-none (c ∷ s) h = rw h refl

comment_at-space : (c : Bytes) → starts_with_blank c ≡ false → comment_at (b';' ∷ b' ' ∷ c) ≡ c
unfolding skip_blanks
comment_at-space c h = skip_blanks-none c h

split_single-merged :
    (v c : Bytes)
    → ends_with_blank v ≡ false
    → starts_with_blank c ≡ false
    → split_single (escape_chars v ++ (if is_empty c then [] else codes "; " ++ c)) ≡ (v, c)
unfolding split_single
split_single-merged v [] hv hc =
    rw (read_single-escape_chars [] 0 v []) (unfold read_single in rw (size_after-take v hv) refl)
split_single-merged v (d ∷ c) hv hc =
    rw
      (
        read_single-escape_chars [] 0 v (b';' ∷ b' ' ∷ d ∷ c),
        read_single-semicolon v (size_after [] 0 v) (b' ' ∷ d ∷ c),
        size_after-take v hv,
      )
      (ap (λ x. (v, x)) (comment_at-space (d ∷ c) hc))

has_newline-escape_chars :
    (v : Bytes) → has_byte b'\n' v ≡ false → has_byte b'\n' (escape_chars v) ≡ false
unfolding escape_chars
has_newline-escape_chars [] h = refl
has_newline-escape_chars (c ∷ v) h =
    let e = if c == b';' || c == b'\\' then b'\\' ∷ c ∷ [] else c ∷ [] in
    has_byte-append b'\n' e (escape_chars v) ∙ ground (arith, h, has_newline-escape_chars v)

has_newline-comment :
    (c : Bytes)
    → has_byte b'\n' c ≡ false
    → has_byte b'\n' (if is_empty c then [] else codes "; " ++ c) ≡ false
has_newline-comment [] h = refl
has_newline-comment (d ∷ c) h = h

pub split_comment-single :
    (v c : Bytes)
    → has_byte b'\n' v ≡ false
    → has_byte b'\n' c ≡ false
    → ends_with_blank v ≡ false
    → starts_with_blank c ≡ false
    → split_comment (merge_comment v c) ≡ (v, c)
unfolding split_comment merge_comment
split_comment-single v c nv nc hv hc =
    let tail = if is_empty c then [] else codes "; " ++ c in
    let merged : has_byte b'\n' (escape_chars v ++ tail) ≡ false =
      has_byte-append b'\n' (escape_chars v) tail
      ∙ rw (has_newline-escape_chars v nv) (has_newline-comment c nc) in
    rw (nv, nc, merged) (split_single-merged v c hv hc)
