-- ===== src/Manifest/Comment/Lines.antt =====
-- The multi-line mode: reading the lines that were escaped.
use libbutl.Prelude.{
  ℕ, zero, suc, ◌+◌, ◌<◌, ◌≤◌, ◌≡◌, inl, inr, refl, sym, ap, ◌∙◌, false, List, [], ◌∷◌, ◌++◌, ◌==◌,
  Bytes, length, length-append, is_empty, has_byte, arith, Bool-cases, append_assoc, append-nil,
  map, All, ==_iff,
}
use libbutl.Manifest.Comment.{
  separator_form, find_line, newline_at, next_line, escape_of, escape_line, escape_lines, pop_back,
  read_line, read_lines,
}
use libbutl.Manifest.Comment.Escaped.{
  escape_line-Unescapes, has_newline-escape_line, find_line-append, find_line-last,
  read_lines-escaped,
}

-- A text as its lines.
abbrev pub join_lines : Bytes → List Bytes → Bytes
join_lines l [] = l
join_lines l (m ∷ ls) = l ++ b'\n' ∷ join_lines m ls

abbrev pub AllLines : Bytes → List Bytes → Type 0
AllLines l ls = (has_byte b'\n' l ≡ false) × All (λ m. has_byte b'\n' m ≡ false) ls

join_lines-cons :
    (c : ℕ) (l : Bytes) (ls : List Bytes) → join_lines (c ∷ l) ls ≡ c ∷ join_lines l ls
join_lines-cons c l [] = refl
join_lines-cons c l (m ∷ ls) = refl

pub lines_of : (s : Bytes) → (l : Bytes) × (ls : List Bytes) × (s ≡ join_lines l ls) × AllLines l ls
lines_of [] = ([], [], refl, (refl, tt))
lines_of (c ∷ s) =
    let (l, ls, e, h) = lines_of s in
    elim (Bool-cases (c == b'\n')) [
      | inl d ↦ ([], l ∷ ls, cc ((==_iff c b'\n').0 d, e), (refl, h))
      | inr d ↦ (
        c ∷ l,
        ls,
        ap (λ x. c ∷ x) e ∙ sym (join_lines-cons c l ls),
        (ground (arith, d, h.0), h.1),
      )
    ]

pub is_empty-append : (l : Bytes) (c : ℕ) (t : Bytes) → is_empty (l ++ c ∷ t) ≡ false
is_empty-append [] c t = refl
is_empty-append (d ∷ l) c t = refl

escape_lines_nonempty :
    (f : ℕ) (s : Bytes) {l t : Bytes}
    → is_empty s ≡ false
    → find_line s ≡ (l, t)
    → escape_lines (suc f) s ≡ escape_line l ++ newline_at t ++ escape_lines f (next_line t)
unfolding escape_lines
escape_lines_nonempty f [] ne h = cc
escape_lines_nonempty f (c ∷ s) ne h = rw h refl

escape_lines-nil : (f : ℕ) → escape_lines f [] ≡ []
unfolding escape_lines
escape_lines-nil zero = refl
escape_lines-nil (suc f) = refl

pub escape_lines-join :
    (f : ℕ) (l : Bytes) (ls : List Bytes)
    → AllLines l ls
    → length (join_lines l ls) < f
    → escape_lines f (join_lines l ls) ≡ join_lines (escape_line l) (map escape_line ls)
escape_lines-join zero l ls h len = absurd (omega arith)
escape_lines-join (suc f) [] [] h len =
    escape_lines-nil (suc f) ∙ (unfold escape_line separator_form in refl)
escape_lines-join (suc f) (c ∷ l) [] h len =
    escape_lines_nonempty f (c ∷ l) refl (find_line-last (c ∷ l) h.0)
    ∙ rw (escape_lines-nil f) (simp append-nil)
escape_lines-join (suc f) l (m ∷ ls) h len =
    escape_lines_nonempty f (l ++ b'\n' ∷ join_lines m ls)
      (is_empty-append l b'\n' (join_lines m ls)) (find_line-append l (join_lines m ls) h.0)
    ∙ rw (escape_lines-join f m ls h.1 (omega (arith, length-append l (b'\n' ∷ join_lines m ls))))
        (simp append_assoc)

read_lines-nil : (f : ℕ) (r : Bytes) → read_lines f r [] ≡ (r, [])
unfolding read_lines
read_lines-nil zero r = refl
read_lines-nil (suc f) r = refl

-- The lines of a value with no comment.
pub read_lines-join :
    (f : ℕ) (r l : Bytes) (ls : List Bytes)
    → AllLines l ls
    → length (join_lines (escape_line l) (map escape_line ls)) < f
    → read_lines f r (join_lines (escape_line l) (map escape_line ls)) ≡ (r ++ join_lines l ls, [])
read_lines-join zero r l ls h len = absurd (omega arith)
read_lines-join (suc f) r [] [] h len =
    unfold read_lines escape_line separator_form in rw append-nil refl
read_lines-join (suc f) r (c ∷ l) [] h len =
    let e = escape_line (c ∷ l) in
    let nonempty : is_empty e ≡ false =
      unfold escape_line in is_empty-append (escape_of (separator_form (c ∷ l))) c l in
    ap (read_lines (suc f) r) (sym (append-nil e))
    ∙ read_lines-escaped f r e (c ∷ l) [] (escape_line-Unescapes (c ∷ l))
        (has_newline-escape_line (c ∷ l) ∙ h.0) (inl refl) (rw (append-nil e) nonempty)
    ∙ read_lines-nil f (r ++ c ∷ l ++ [])
    ∙ simp append-nil
read_lines-join (suc f) r l (m ∷ ls) h len =
    let e = escape_line l in
    let t = join_lines (escape_line m) (map escape_line ls) in
    read_lines-escaped f r e l (b'\n' ∷ t) (escape_line-Unescapes l)
      (has_newline-escape_line l ∙ h.0) (inr (t, refl)) (is_empty-append e b'\n' t)
    ∙ read_lines-join f (r ++ l ++ b'\n' ∷ []) m ls h.1 (omega (arith, length-append e (b'\n' ∷ t)))
    ∙ simp append_assoc

-- The fuel for the lines of a value, with `g` left.
abbrev pub rounds : List Bytes → ℕ → ℕ
rounds [] g = suc g
rounds (m ∷ ls) g = suc (rounds ls g)

pub read_lines-separated :
    (g : ℕ) (r l : Bytes) (ls : List Bytes) (t : Bytes)
    → AllLines l ls
    → read_lines (rounds ls g) r (join_lines (escape_line l) (map escape_line ls) ++ b'\n' ∷ t)
      ≡ read_lines g (r ++ join_lines l ls ++ b'\n' ∷ []) t
read_lines-separated g r l [] t h =
    read_lines-escaped g r (escape_line l) l (b'\n' ∷ t) (escape_line-Unescapes l)
      (has_newline-escape_line l ∙ h.0) (inr (t, refl)) (is_empty-append (escape_line l) b'\n' t)
read_lines-separated g r l (m ∷ ls) t h =
    let e = escape_line l in
    let u = join_lines (escape_line m) (map escape_line ls) ++ b'\n' ∷ t in
    ap (read_lines (rounds (m ∷ ls) g) r)
      (append_assoc e (b'\n' ∷ join_lines (escape_line m) (map escape_line ls)) (b'\n' ∷ t))
    ∙ read_lines-escaped (rounds ls g) r e l (b'\n' ∷ u) (escape_line-Unescapes l)
        (has_newline-escape_line l ∙ h.0) (inr (u, refl)) (is_empty-append e b'\n' u)
    ∙ read_lines-separated g (r ++ l ++ b'\n' ∷ []) m ls t h.1
    ∙ ap (λ x. read_lines g x t) (simp append_assoc)

pub pop_back-append : (s : Bytes) (c : ℕ) → pop_back (s ++ c ∷ []) ≡ s
unfolding pop_back
pop_back-append [] c = refl
pop_back-append (d ∷ []) c = refl
pop_back-append (d ∷ e ∷ s) c = ap (λ x. d ∷ x) (pop_back-append (e ∷ s) c)

-- The separator ends the value.
pub read_lines-separator :
    (f : ℕ) (r c : Bytes) → read_lines (suc f) r (b';' ∷ b'\n' ∷ c) ≡ (pop_back r, c)
unfolding read_lines find_line separator_form read_line
read_lines-separator f r c = refl

pub length-rounds : (ls : List Bytes) (g : ℕ) → rounds ls g ≡ length ls + suc g
length-rounds [] g = omega arith
length-rounds (m ∷ ls) g = omega (arith, length-rounds ls g)

pub length-join_lines : (l : Bytes) (ls : List Bytes) → length ls ≤ length (join_lines l ls)
length-join_lines l [] = omega arith
length-join_lines l (m ∷ ls) =
    omega (arith, length-join_lines m ls, length-append l (b'\n' ∷ join_lines m ls))
