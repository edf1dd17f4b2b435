-- ===== src/Path/Text.antt =====
-- The constructors of a path and its text with the separator, `representation`.
use libbutl.Prelude.{
  ℕ, true, false, ◌&&◌, inl, inr, [], ◌∷◌, ◌++◌, ◌≡◌, refl, sym, ap, ◌∙◌, Bytes, is_empty, arith,
  Bool-cases,
}
use libbutl.Path.Traits.{is_separator, ends_with_separator}
use libbutl.Path.Data.{
  BasicPath, path_of, init_any, init, any, dir, Kind, cast, strip_separators, representation,
  absent, slash, in_path, TrailingSeparator,
}
use libbutl.Path.Shape.{IsTrimmed}
use libbutl.Path.Parts.{root_is, ends_with-snoc}

-- The loop takes off a separator at the end, and stops at another character.
pub data Strip (c : ℕ) (s : Bytes) : Type 0 where
  all_stripped :
      is_empty (strip_separators s) ≡ true
      → is_separator c ≡ true
      → strip_separators (c ∷ s) ≡ []
      → Strip c s
  kept :
      (is_empty (strip_separators s) && is_separator c) ≡ false
      → strip_separators (c ∷ s) ≡ c ∷ strip_separators s
      → Strip c s

Strip_lem : (c : ℕ) (s : Bytes) → Strip c s
unfolding strip_separators
Strip_lem c s = elim (Bool-cases (is_empty (strip_separators s) && is_separator c)) [
  | inl e ↦ all_stripped (ground (arith, e)) (ground (arith, e)) (rw e refl)
  | inr e ↦ kept e (rw e refl)
]

pub ends_with-cons_kept :
    (c : ℕ) (t : Bytes)
    → (is_empty t && is_separator c) ≡ false
    → ends_with_separator t ≡ false
    → ends_with_separator (c ∷ t) ≡ false
ends_with-cons_kept c [] h e = h
ends_with-cons_kept c (d ∷ t) h e = e

ends_with-strip : (s : Bytes) → ends_with_separator (strip_separators s) ≡ false
unfolding strip_separators
ends_with-strip [] = refl
ends_with-strip (c ∷ s) = elim (Strip_lem c s) [
  | all_stripped a b e ↦ ap ends_with_separator e
  | kept a e ↦
      ap ends_with_separator e ∙ ends_with-cons_kept c (strip_separators s) a (ends_with-strip s)
]

strip-snoc : (s : Bytes) → strip_separators (s ++ b'/' ∷ []) ≡ strip_separators s
unfolding strip_separators
strip-snoc [] = refl
strip-snoc (c ∷ s) = rw (strip-snoc s) refl

strip_same : (s : Bytes) → ends_with_separator s ≡ false → strip_separators s ≡ s
unfolding strip_separators
strip_same [] h = refl
strip_same (c ∷ []) h = rw h refl
strip_same (c ∷ d ∷ s) h =
    let same = strip_same (d ∷ s) h in
    elim (Strip_lem c (d ∷ s)) [
      | all_stripped a b e ↦ (let no : false ≡ true = sym (ap is_empty same) ∙ a in cc)
      | kept a e ↦ e ∙ ap (λ t. c ∷ t) same
    ]

-- A path from a text is trimmed.
init_any-IsTrimmed : (s : Bytes) → IsTrimmed (init_any s)
unfolding init_any
init_any-IsTrimmed s = elim (Bool-cases (ends_with_separator s)) [
  | inr e ↦ rw e e
  | inl e ↦ elim (Bool-cases (is_empty (strip_separators s))) [
    | inl f ↦ rw (e, f) refl
    | inr f ↦ rw (e, f) (f, ends_with-strip s)
  ]
]

cast-IsTrimmed :
    (k : Kind) (s : Bytes) (t : TrailingSeparator)
    → IsTrimmed (path_of s t)
    → IsTrimmed (cast k (path_of s t))
cast-IsTrimmed any s t v = v
cast-IsTrimmed dir [] t v = v
cast-IsTrimmed dir (c ∷ s) absent v = (refl, v)
cast-IsTrimmed dir (c ∷ s) slash v = v
cast-IsTrimmed dir (c ∷ s) in_path v = v

pub init-IsTrimmed : (k : Kind) (s : Bytes) → IsTrimmed (init k s)
unfolding init
init-IsTrimmed k s = cast-IsTrimmed k ((init_any s).path) ((init_any s).tsep) (init_any-IsTrimmed s)

init_any-representation_of :
    (s : Bytes) (t : TrailingSeparator)
    → IsTrimmed (path_of s t)
    → init_any (representation (path_of s t)) ≡ path_of s t
unfolding init_any strip_separators
init_any-representation_of s absent v = rw v refl
init_any-representation_of s slash v =
    rw (ends_with-snoc s b'/', strip-snoc s, strip_same s (v.1), v.0) refl
init_any-representation_of s in_path v =
    ap (λ x. init_any x) (root_is s v) ∙ sym (ap (λ x. path_of x in_path) (root_is s v))

-- A trimmed path of a kind is again got from its text with the separator.
pub init-representation :
    (k : Kind) (p : BasicPath) → IsTrimmed p → cast k p ≡ p → init k (representation p) ≡ p
unfolding init
init-representation k p v e = ap (cast k) (init_any-representation_of p.path p.tsep v) ∙ e
