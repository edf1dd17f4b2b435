-- ===== src/Path/Fuel.antt =====
-- The loop of `try_relative` ends.
use libbutl.Prelude.{
  ℕ, zero, suc, ◌<◌, true, false, inl, inr, [], ◌∷◌, ◌++◌, ◌≡◌, refl, sym, ap, ◌∙◌, Bytes, length,
  is_empty, arith, Bool-cases, length-append, ◌⊎◌, codes, Option, none, some,
}
use libbutl.Path.Traits.{root, sub}
use libbutl.Path.Data.{
  BasicPath, path_of, body, pop_separator, absent, slash, in_path, empty_path, TrailingSeparator,
}
use libbutl.Path.Operations.{
  directory, combine_impl, append_path, leaf_of, relative_loop, try_relative,
}
use libbutl.Path.Parts.{last, split, unsplit, directory-split, directory_path}
use libbutl.Path.Prefix.{sub-empty}

length-pop_separator : (c : ℕ) (s : Bytes) → length (pop_separator (c ∷ s)) < length (c ∷ s)
unfolding pop_separator
length-pop_separator c [] = omega arith
length-pop_separator c (d ∷ s) = omega (arith, length-pop_separator d s)

-- The text of a path is its body, or longer.
body_shorter :
    (s : Bytes) (t : TrailingSeparator)
    → is_empty s ≡ false
    → (body (path_of s t) ≡ s) ⊎ (length (body (path_of s t)) < length s)
body_shorter s absent h = inl refl
body_shorter s slash h = inl refl
body_shorter [] in_path h = cc
body_shorter (c ∷ s) in_path h = inr (length-pop_separator c s)

not_root_long : (y s : Bytes) → s ≡ b'/' ∷ y → root s ≡ false → 1 < length s
not_root_long [] s e h = (let g : root s ≡ true = ap root e in cc)
not_root_long (c ∷ y) s e h = omega (arith, ap length e)

split_shorter :
    (s b x y : Bytes)
    → root s ≡ false
    → (b ≡ s) ⊎ (length b < length s)
    → b ≡ x ++ b'/' ∷ y
    → length (directory_path x).path < length s
split_shorter s b [] y h (inl e) q = not_root_long y s (sym e ∙ q) h
split_shorter s b [] y h (inr e) q = omega (arith, e, ap length q)
split_shorter s b (c ∷ x) y h (inl e) q =
    omega (arith, ap length e, ap length q, length-append x (b'/' ∷ y))
split_shorter s b (c ∷ x) y h (inr e) q = omega (arith, e, ap length q, length-append x (b'/' ∷ y))

length_full : (s : Bytes) → is_empty s ≡ false → 0 < length s
length_full [] h = cc
length_full (c ∷ s) h = omega arith

length-directory :
    (d : BasicPath)
    → is_empty d.path ≡ false
    → root d.path ≡ false
    → length (directory d).path < length d.path
unfolding directory
length-directory d f h = elim (last (body d)) [
  | unsplit n e ↦ rw (e, directory) (length_full d.path f)
  | split x y q n e ↦
      rw (directory-split d x y e)
        (split_shorter d.path (body d) x y h (body_shorter d.path d.tsep f) q)
]

not_empty : (s p : Bytes) → sub s p ≡ false → is_empty p ≡ false
not_empty s p h = elim (Bool-cases (is_empty p)) [
  | inr f ↦ f
  | inl f ↦ (let no : true ≡ false = sym (sub-empty s p f) ∙ h in cc)
]

abbrev leaf_result : BasicPath → Bytes ⊎ BasicPath → Option (Bytes ⊎ Option BasicPath)
leaf_result r (inl e) = some (inl e)
leaf_result r (inr l) = elim (append_path r l) [
  | inl e ↦ some (inl e)
  | inr q ↦ some (inr (some q))
]

leaf_result-some :
    (r : BasicPath) (x : Bytes ⊎ BasicPath)
    → (o : Bytes ⊎ Option BasicPath) × (leaf_result r x ≡ some o)
leaf_result-some r (inl e) = (inl e, refl)
leaf_result-some r (inr l) =
    elim (append_path r l)
      as (λ x.
        (o : Bytes ⊎ Option BasicPath) × (elim x [
          | inl e ↦ some (inl e)
          | inr q ↦ some (inr (some q))
        ]
          ≡ some o)) [ inl e ↦ (inl e, refl) | inr q ↦ (inr (some q), refl) ]

-- What holds after a step holds for any fuel above a bound.
above_zero :
    {A : Type 0} (n : ℕ) (loop : ℕ → A) (o : A)
    → ((g : ℕ) → n < suc g → loop (suc g) ≡ o)
    → (g : ℕ) → n < g
    → loop g ≡ o
above_zero n loop o h zero k = absurd (omega (arith, k))
above_zero n loop o h (suc g) k = h g k

relative_loop-ends :
    (f : ℕ) (p d r : BasicPath)
    → length d.path < f
    → (o : Bytes ⊎ Option BasicPath) × ((g : ℕ)
        → length d.path < g
        → relative_loop g p d r ≡ some o)
unfolding relative_loop
relative_loop-ends zero p d r h = absurd (omega (arith, h))
relative_loop-ends (suc f) p d r h = elim (Bool-cases (sub p.path d.path)) [
  | inl s ↦
      let (o, e) = leaf_result-some r (leaf_of p d) in
      (o, above_zero (length d.path) (λ g. relative_loop g p d r) (some o) (λ g k. rw s e))
  | inr s ↦ elim (Bool-cases (root d.path)) [
    | inl a ↦ (
      inr none,
      above_zero (length d.path) (λ g. relative_loop g p d r) (some (inr none))
          (λ g k. rw (s, a) refl),
    )
    | inr a ↦
        let shorter = length-directory d (not_empty p.path d.path s) a in
        let (o, e) =
          relative_loop-ends f p (directory d) (combine_impl r (path_of (codes "..") slash))
            (omega (arith, h, shorter)) in
        (
          o,
          above_zero (length d.path) (λ g. relative_loop g p d r) (some o)
              (λ g k. rw (s, a) (e g (omega (arith, k, shorter)))),
        )
  ]
]

-- The loop of `try_relative` ends, whatever the path and the directory are: with any fuel above the
-- number of the directory's characters it does not run out of it, and gives the result that
-- `try_relative` returns.
pub relative_loop-try_relative :
    (f : ℕ) (p d : BasicPath)
    → length d.path < f
    → relative_loop f p d empty_path ≡ some (try_relative p d)
unfolding try_relative
relative_loop-try_relative f p d h =
    let (o, e) = relative_loop-ends (suc (length d.path)) p d empty_path (omega arith) in
    e f h ∙ rw (e (suc (length d.path)) (omega arith), try_relative) refl
