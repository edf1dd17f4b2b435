-- ===== src/Path/Parts.antt =====
-- The directory of a path and its last component, and the text of a path.
use libbutl.Prelude.{
  ℕ, true, false, ◌⊎◌, inl, inr, none, some, [], ◌∷◌, ◌++◌, ◌≡◌, refl, sym, ap, ◌∙◌, Bytes,
  is_empty, arith, Bool-cases,
}
use mathlib.Core.Path.{subst}
use libbutl.Path.Traits.{is_separator, absolute, ends_with_separator, rfind_separator, root}
use libbutl.Path.Data.{
  BasicPath, path_of, path_data, init_data, body, absent, slash, in_path, empty_path, pop_separator,
  TrailingSeparator,
}
use libbutl.Path.Operations.{leaf, directory, append_path, combine_impl}
use libbutl.Path.Split.{IsName}
use libbutl.Path.Shape.{IsTrimmed}

pub separator_is : (c : ℕ) → is_separator c ≡ true → c ≡ b'/'
separator_is c h = grind (arith, h)

-- The text has no separator, or it is taken apart at the last one.
pub data Last (s : Bytes) : Type 0 where
  unsplit : IsName s → rfind_separator s ≡ none → Last s
  split : (x y : Bytes) → s ≡ x ++ b'/' ∷ y → IsName y → rfind_separator s ≡ some (x, y) → Last s

pub last : (s : Bytes) → Last s
unfolding rfind_separator
last [] = unsplit refl refl
last (c ∷ s) = elim (last s) [
  | split x y e n f ↦ split (c ∷ x) y (ap (λ t. c ∷ t) e) n (rw f refl)
  | unsplit n f ↦ elim (Bool-cases (is_separator c)) [
    | inl a ↦ split [] s (ap (λ b. b ∷ s) (separator_is c a)) n (rw (f, a) refl)
    | inr a ↦ unsplit (ground (arith, a, n)) (rw (f, a) refl)
  ]
]

pub rfind-name : (y : Bytes) → IsName y → rfind_separator y ≡ none
unfolding rfind_separator
rfind-name [] h = refl
rfind-name (c ∷ y) h =
    let a : is_separator c ≡ false = ground (arith, h) in
    rw (rfind-name y (ground (arith, h)), a) refl

pub rfind-append : (x y : Bytes) → IsName y → rfind_separator (x ++ b'/' ∷ y) ≡ some (x, y)
unfolding rfind_separator
rfind-append [] y h = rw (rfind-name y h) refl
rfind-append (c ∷ x) y h = rw (rfind-append x y h) refl

pub pop_separator-snoc : (x : Bytes) (c : ℕ) → pop_separator (x ++ c ∷ []) ≡ x
unfolding pop_separator
pop_separator-snoc [] c = refl
pop_separator-snoc (d ∷ []) c = refl
pop_separator-snoc (d ∷ e ∷ x) c = ap (λ y. d ∷ y) (pop_separator-snoc (e ∷ x) c)

pub ends_with-snoc : (x : Bytes) (c : ℕ) → ends_with_separator (x ++ c ∷ []) ≡ is_separator c
ends_with-snoc [] c = refl
ends_with-snoc (d ∷ []) c = refl
ends_with-snoc (d ∷ e ∷ x) c = ends_with-snoc (e ∷ x) c

-- The directory with the text `x`, which may be that of the root.
abbrev pub directory_path : Bytes → BasicPath
directory_path [] = path_of (b'/' ∷ []) in_path
directory_path (c ∷ x) = path_of (c ∷ x) slash

pub init_data-snoc : (x : Bytes) → init_data (x ++ b'/' ∷ []) ≡ directory_path x
unfolding init_data pop_separator
init_data-snoc [] = refl
init_data-snoc (c ∷ []) = refl
init_data-snoc (c ∷ d ∷ x) = rw (ends_with-snoc (d ∷ x) b'/', pop_separator-snoc (d ∷ x) b'/') refl

combine-directory_path :
    (x y : Bytes) (t : TrailingSeparator)
    → combine_impl (directory_path x) (path_of y t) ≡ path_of (x ++ b'/' ∷ y) t
unfolding combine_impl
combine-directory_path [] y t = refl
combine-directory_path (c ∷ x) y t = refl

-- The two parts of a path with a separator before its last component.
pub directory-split :
    (p : BasicPath) (x y : Bytes)
    → rfind_separator (body p) ≡ some (x, y)
    → directory p ≡ directory_path x
unfolding directory
directory-split p x y e = rw (e, directory) (init_data-snoc x)

pub leaf-split :
    (p : BasicPath) (x y : Bytes)
    → rfind_separator (body p) ≡ some (x, y)
    → leaf p ≡ path_data y p.tsep
unfolding leaf
leaf-split p x y e = rw (e, leaf) refl

pub path_data-full :
    (y : Bytes) (t : TrailingSeparator) → is_empty y ≡ false → path_data y t ≡ path_of y t
path_data-full [] t h = cc
path_data-full (c ∷ y) t h = refl

pub ends_with-append :
    (x y : Bytes) → is_empty y ≡ true → ends_with_separator (x ++ b'/' ∷ y) ≡ true
ends_with-append [] [] h = refl
ends_with-append (c ∷ []) [] h = refl
ends_with-append (c ∷ d ∷ x) [] h = ends_with-append (d ∷ x) [] h
ends_with-append x (c ∷ y) h = cc

pub absolute-name : (y : Bytes) → IsName y → absolute y ≡ false
absolute-name [] h = refl
absolute-name (c ∷ y) h = ground (arith, h)

pub root_is : (s : Bytes) → root s ≡ true → s ≡ b'/' ∷ []
root_is [] h = cc
root_is (c ∷ []) h = ap (λ d. d ∷ []) (separator_is c (ground (arith, h)))
root_is (c ∷ d ∷ s) h = ground (arith, h)

body_cases_of :
    (s : Bytes) (t : TrailingSeparator)
    → IsTrimmed (path_of s t)
    → (path_of s t ≡ path_of (b'/' ∷ []) in_path)
      ⊎ ((body (path_of s t) ≡ s) × (ends_with_separator s ≡ false))
body_cases_of s absent h = inr (refl, h)
body_cases_of s slash h = inr (refl, h.1)
body_cases_of s in_path h = inl (ap (λ x. path_of x in_path) (root_is s h))

-- A trimmed path is the root with its separator, or does not end with one.
pub body_cases :
    (p : BasicPath)
    → IsTrimmed p
    → (p ≡ path_of (b'/' ∷ []) in_path) ⊎ ((body p ≡ p.path) × (ends_with_separator p.path ≡ false))
body_cases p = body_cases_of p.path p.tsep

pub append_path-name :
    (d : BasicPath) (y : Bytes) (t : TrailingSeparator)
    → is_empty y ≡ false
    → IsName y
    → append_path d (path_of y t) ≡ inr (combine_impl d (path_of y t))
unfolding append_path
append_path-name d y t f n = rw (absolute-name y n, f) refl

empty_name :
    (s : Bytes) (t : TrailingSeparator)
    → is_empty s ≡ true
    → IsTrimmed (path_of s t)
    → path_of s t ≡ empty_path
empty_name [] absent h v = refl
empty_name [] slash h v = (let w = v.0 in cc)
empty_name [] in_path h v = cc
empty_name (c ∷ s) t h v = cc

append_path-empty : (p : BasicPath) → IsTrimmed p → append_path empty_path p ≡ inr p
unfolding append_path combine_impl
append_path-empty p v = elim (Bool-cases (absolute p.path)) [
  | inl a ↦ elim (Bool-cases (is_empty p.path)) [
    | inl h ↦ rw (a, h) (ap inr (sym (empty_name p.path p.tsep h v)))
    | inr h ↦ rw (a, h) refl
  ]
  | inr a ↦ elim (Bool-cases (is_empty p.path)) [
    | inl h ↦ rw (a, h) (ap inr (sym (empty_name p.path p.tsep h v)))
    | inr h ↦ rw (a, h) refl
  ]
]

directory-leaf_split :
    (p : BasicPath)
    → IsTrimmed p
    → body p ≡ p.path
    → ends_with_separator p.path ≡ false
    → Last (body p)
    → append_path (directory p) (leaf p) ≡ inr p
unfolding directory leaf
directory-leaf_split p v b w (unsplit n e) = rw (e, directory, leaf) (append_path-empty p v)
directory-leaf_split p v b w (split x y s n e) =
    let q : p.path ≡ x ++ b'/' ∷ y = sym b ∙ s in
    let f : is_empty y ≡ false = elim (Bool-cases (is_empty y)) [
      | inr f ↦ f
      | inl f ↦
          (let g : true ≡ false =
              sym (ends_with-append x y f) ∙ sym (ap ends_with_separator q) ∙ w in
            cc)
    ] in
    ap (λ z. append_path z (leaf p)) (directory-split p x y e)
    ∙ ap (append_path (directory_path x)) (leaf-split p x y e ∙ path_data-full y p.tsep f)
    ∙ append_path-name (directory_path x) y p.tsep f n
    ∙ ap inr (combine-directory_path x y p.tsep ∙ ap (λ z. path_of z p.tsep) (sym q))

-- The directory of a trimmed path and its last component make up the path.
pub directory-leaf : (p : BasicPath) → IsTrimmed p → append_path (directory p) (leaf p) ≡ inr p
unfolding directory leaf append_path combine_impl rfind_separator pop_separator
directory-leaf p v = elim (body_cases p v) [
  | inl e ↦ subst (λ q. append_path (directory q) (leaf q) ≡ inr q) (sym e) refl
  | inr (b, w) ↦ directory-leaf_split p v b w (last (body p))
]
