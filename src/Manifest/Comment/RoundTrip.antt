-- ===== src/Manifest/Comment/RoundTrip.antt =====
-- Splitting what was merged.
use libbutl.Prelude.{
  ℕ, suc, ◌-◌, ◌<◌, ◌≡◌, ◌⊎◌, inl, inr, refl, sym, ap, ◌∙◌, true, false, not, ◌&&◌, List, [], ◌∷◌,
  ◌++◌, if◌then◌else◌, Bytes, length, length-append, is_empty, has_byte, arith, Bool-cases,
  append-nil, map,
}
use libbutl.Manifest.Comment.{
  separator_form, escape_of, escape_line, merge_comment, pop_back, read_lines, split_comment,
}
use mathlib.Core.Path.{subst}
use libbutl.Manifest.Comment.Lines.{
  join_lines, AllLines, rounds, lines_of, escape_lines-join, read_lines-join, read_lines-separated,
  pop_back-append, read_lines-separator, length-rounds, length-join_lines, is_empty-append,
}
use libbutl.Manifest.Comment.Escaped.{has_byte-append}
use libbutl.Manifest.Comment.Single.{split_comment-single}
use libbutl.Manifest.Spaces.{ends_with_blank, starts_with_blank}

has_newline-join : (l m : Bytes) (ls : List Bytes) → has_byte b'\n' (join_lines l (m ∷ ls)) ≡ true
has_newline-join l m ls = rw (has_byte-append b'\n' l (b'\n' ∷ join_lines m ls)) (ground arith)

read_lines-commented :
    (f : ℕ) (l : Bytes) (ls : List Bytes) (c : Bytes)
    → AllLines l ls
    → suc (length ls) < f
    → read_lines f [] (join_lines (escape_line l) (map escape_line ls) ++ b'\n' ∷ b';' ∷ b'\n' ∷ c)
      ≡ (join_lines l ls, c)
read_lines-commented f l ls c h len =
    let g = f - suc (suc (length ls)) in
    let fuel : f ≡ rounds ls (suc g) = omega (arith, length-rounds ls (suc g)) in
    ap
      (λ n.
        read_lines n []
          (join_lines (escape_line l) (map escape_line ls) ++ b'\n' ∷ b';' ∷ b'\n' ∷ c))
      fuel
    ∙ read_lines-separated (suc g) [] l ls (b';' ∷ b'\n' ∷ c) h
    ∙ read_lines-separator g (join_lines l ls ++ b'\n' ∷ []) c
    ∙ ap (λ x. (x, c)) (pop_back-append (join_lines l ls) b'\n')

split_comment-lines :
    (t : Bytes) → has_byte b'\n' t ≡ true → split_comment t ≡ read_lines (suc (length t)) [] t
unfolding split_comment
split_comment-lines t h = rw h refl

is_empty-joined :
    (l : Bytes) (ls : List Bytes)
    → is_empty (join_lines (escape_line l) (map escape_line ls)) ≡ true
    → join_lines l ls ≡ []
unfolding escape_line
is_empty-joined [] [] h = refl
is_empty-joined (c ∷ l) [] h = cc (is_empty-append (escape_of (separator_form (c ∷ l))) c l)
is_empty-joined l (m ∷ ls) h =
    cc (is_empty-append (escape_line l) b'\n' (join_lines (escape_line m) (map escape_line ls)))

length-map : (f : Bytes → Bytes) (ls : List Bytes) → length (map f ls) ≡ length ls
length-map f [] = refl
length-map f (l ∷ ls) = omega (arith, length-map f ls)

is_empty-nil : (s : Bytes) → is_empty s ≡ true → s ≡ []
is_empty-nil [] h = refl
is_empty-nil (c ∷ s) h = cc

split_comment-separator : (c : Bytes) → split_comment (b';' ∷ b'\n' ∷ c) ≡ ([], c)
unfolding pop_back
split_comment-separator c =
    split_comment-lines (b';' ∷ b'\n' ∷ c) refl ∙ read_lines-separator (suc (suc (length c))) [] c

-- The lines of a value with what `merge_comment` appends.
split_comment-appended :
    (l : Bytes) (ls : List Bytes) (c : Bytes)
    → AllLines l ls
    → (has_byte b'\n' (join_lines l ls) ≡ true) ⊎ (is_empty c ≡ false)
    → (let r = join_lines (escape_line l) (map escape_line ls) in
        split_comment (
          r
          ++ (if is_empty c
              then []
              else (if is_empty r then [] else b'\n' ∷ []) ++ b';' ∷ b'\n' ∷ c)))
      ≡ (join_lines l ls, c)
split_comment-appended l [] [] h (inl e) = cc (h.0)
split_comment-appended l (m ∷ ls) [] h nl =
    let r = join_lines (escape_line l) (map escape_line (m ∷ ls)) in
    ap split_comment (append-nil r)
    ∙ split_comment-lines r (has_newline-join (escape_line l) (escape_line m) (map escape_line ls))
    ∙ read_lines-join (suc (length r)) [] l (m ∷ ls) h (omega arith)
split_comment-appended l [] [] h (inr e) = cc
split_comment-appended l ls (d ∷ c) h nl =
    let r = join_lines (escape_line l) (map escape_line ls) in
    elim (Bool-cases (is_empty r)) [
      | inl e ↦ rw (e, is_empty-nil r e, is_empty-joined l ls e) (split_comment-separator (d ∷ c))
      | inr e ↦
          let t = r ++ b'\n' ∷ b';' ∷ b'\n' ∷ d ∷ c in
          let newline : has_byte b'\n' t ≡ true =
            has_byte-append b'\n' r (b'\n' ∷ b';' ∷ b'\n' ∷ d ∷ c) ∙ ground arith in
          let enough : suc (length ls) < suc (length t) = omega (
            arith,
            length-append r (b'\n' ∷ b';' ∷ b'\n' ∷ d ∷ c),
            length-map escape_line ls,
            length-join_lines (escape_line l) (map escape_line ls),
          ) in
          rw e (
            split_comment-lines t newline
            ∙ read_lines-commented (suc (length t)) l ls (d ∷ c) h enough)
    ]

has_newline-nonempty : (c : Bytes) → has_byte b'\n' c ≡ true → is_empty c ≡ false
has_newline-nonempty [] h = cc
has_newline-nonempty (d ∷ c) h = refl

split_comment-joined :
    (l : Bytes) (ls : List Bytes) (c : Bytes)
    → AllLines l ls
    → (not (has_byte b'\n' (join_lines l ls)) && not (has_byte b'\n' c)) ≡ false
    → (has_byte b'\n' (join_lines l ls) ≡ true) ⊎ (is_empty c ≡ false)
    → split_comment (merge_comment (join_lines l ls) c) ≡ (join_lines l ls, c)
unfolding merge_comment
split_comment-joined l ls c h multi nl =
    rw (multi, escape_lines-join (suc (length (join_lines l ls))) l ls h (omega arith))
      (split_comment-appended l ls c h nl)

split_comment-multi :
    (v c : Bytes)
    → (not (has_byte b'\n' v) && not (has_byte b'\n' c)) ≡ false
    → (has_byte b'\n' v ≡ true) ⊎ (is_empty c ≡ false)
    → split_comment (merge_comment v c) ≡ (v, c)
split_comment-multi v c =
    let (l, ls, e, h) = lines_of v in
    subst
      (λ x.
        (not (has_byte b'\n' x) && not (has_byte b'\n' c)) ≡ false
        → (has_byte b'\n' x ≡ true) ⊎ (is_empty c ≡ false)
        → split_comment (merge_comment x c) ≡ (x, c))
      (sym e) (split_comment-joined l ls c h)

-- Merging a comment into the text of a value and splitting it off again gives the value and the
-- comment: always if one of them has a newline, and otherwise if the value does not end and the
-- comment does not start with a space or a tab.
pub split_comment-merge_comment :
    (v c : Bytes)
    → (has_byte b'\n' v ≡ true)
      ⊎ (has_byte b'\n' c ≡ true)
      ⊎ ((ends_with_blank v ≡ false) × (starts_with_blank c ≡ false))
    → split_comment (merge_comment v c) ≡ (v, c)
split_comment-merge_comment v c (inl hv) = split_comment-multi v c (rw hv refl) (inl hv)
split_comment-merge_comment v c (inr (inl hc)) =
    split_comment-multi v c (ground (arith, hc)) (inr (has_newline-nonempty c hc))
split_comment-merge_comment v c (inr (inr (hv, hc))) = elim (Bool-cases (has_byte b'\n' v)) [
  | inl e ↦ split_comment-multi v c (rw e refl) (inl e)
  | inr e ↦ elim (Bool-cases (has_byte b'\n' c)) [
    | inl d ↦ split_comment-multi v c (ground (arith, d)) (inr (has_newline-nonempty c d))
    | inr d ↦ split_comment-single v c e d hv hc
  ]
]
