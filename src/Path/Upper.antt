-- ===== src/Path/Upper.antt =====
-- The directory of a directory is the place above it.
use libbutl.Prelude.{
  ◌<◌, true, false, not, ◌||◌, inl, inr, some, [], ◌∷◌, ◌++◌, ◌≡◌, refl, sym, ap, ◌∙◌, Bytes,
  length, is_empty, arith, Bool-cases, length-append,
}
use mathlib.Core.Path.{subst}
use libbutl.Path.Traits.{
  absolute, ends_with_separator, root, normalized, normalized_loop, parent, current,
}
use libbutl.Path.Data.{BasicPath, empty_path, body}
use libbutl.Path.Operations.{directory}
use libbutl.Path.Normalize.{components, components_loop, join}
use libbutl.Path.Split.{IsName, components-join}
use libbutl.Path.Parts.{
  last, split, unsplit, directory-split, body_cases, directory_path, absolute-name,
  ends_with-append,
}
use libbutl.Path.Prefix.{normalized_loop-append, normalized_loop-name}
use libbutl.Path.Append.{walk-components_append, full_append, and_then_same}
use libbutl.Path.Leaf.{IsPlace}
use libbutl.Path.Resolve.{Location, walk, resolve, resolve_full, and_then}

-- From the top nothing is above. Below it, the directory is a shorter place, and the name of the
-- last component is added to its location.
pub data Upper (d : BasicPath) : Type 0 where
  top : is_empty d.path ≡ true → Upper d
  top_root : root d.path ≡ true → Upper d
  below :
      (y : Bytes)
      → IsPlace (directory d)
      → length (directory d).path < length d.path
      → absolute (directory d).path ≡ absolute d.path
      → ((l : Location)
          → resolve l d.path ≡ and_then (resolve l (directory d).path) (λ m. some (y ∷ m)))
      → Upper d

enter_name :
    (m : Location) (y : Bytes)
    → is_empty y ≡ false
    → IsName y
    → normalized y ≡ true
    → resolve m y ≡ some (y ∷ m)
unfolding normalized walk join
enter_name m y f n h =
    let k : not (parent y || current y) ≡ true = sym (normalized_loop-name [] y n) ∙ h in
    let c : current y ≡ false = ground (arith, k) in
    let p : parent y ≡ false = ground (arith, k) in
    resolve_full m y f ∙ ap (walk m) (components-join y [] n tt tt) ∙ rw (c, p, f) refl

-- The place above `x/y`.
directory_path-IsPlace :
    (x : Bytes)
    → normalized_loop [] x ≡ true
    → ends_with_separator x ≡ false
    → IsPlace (directory_path x)
unfolding normalized normalized_loop
directory_path-IsPlace [] n e = (refl, refl, refl)
directory_path-IsPlace (c ∷ x) n e = ((refl, e), refl, n)

resolve-directory_path :
    (l : Location) (x : Bytes) → resolve l (directory_path x).path ≡ walk l (components x)
unfolding resolve components components_loop
resolve-directory_path l [] = refl
resolve-directory_path l (c ∷ x) = refl

length-directory_path :
    (x y : Bytes) → is_empty y ≡ false → length (directory_path x).path < length (x ++ b'/' ∷ y)
length-directory_path [] [] f = cc
length-directory_path [] (c ∷ y) f = omega arith
length-directory_path (c ∷ x) y f = omega (arith, length-append x (b'/' ∷ y))

absolute-directory_path :
    (x y : Bytes) → absolute (directory_path x).path ≡ absolute (x ++ b'/' ∷ y)
absolute-directory_path [] y = refl
absolute-directory_path (c ∷ x) y = refl

resolve-split :
    (l : Location) (x y : Bytes)
    → is_empty y ≡ false
    → IsName y
    → normalized y ≡ true
    → resolve l (x ++ b'/' ∷ y) ≡ and_then (resolve l (directory_path x).path) (λ m. some (y ∷ m))
resolve-split l x y f n h =
    resolve_full l (x ++ b'/' ∷ y) (full_append x y)
    ∙ walk-components_append l x y (absolute-name y n)
    ∙ and_then_same (walk l (components x)) (λ m. resolve m y) (λ m. some (y ∷ m))
        (λ m. enter_name m y f n h)
    ∙ ap (λ o. and_then o (λ m. some (y ∷ m))) (sym (resolve-directory_path l x))

Upper-split :
    (d : BasicPath) (x y : Bytes)
    → normalized d.path ≡ true
    → ends_with_separator d.path ≡ false
    → d.path ≡ x ++ b'/' ∷ y
    → IsName y
    → directory d ≡ directory_path x
    → Upper d
unfolding normalized
Upper-split d x y h w q n e =
    let f : is_empty y ≡ false = elim (Bool-cases (is_empty y)) [
      | inr f ↦ f
      | inl f ↦
          (let g : true ≡ false =
              sym (ends_with-append x y f) ∙ sym (ap ends_with_separator q) ∙ w in
            cc)
    ] in
    let (a, b, c, k) = normalized_loop-append [] x y (sym (ap normalized q) ∙ h) in
    below y (subst IsPlace (sym e) (directory_path-IsPlace x a b))
      (rw (e, q) (length-directory_path x y f)) (rw (e, q) (absolute-directory_path x y))
      (λ l. rw (e, q) (resolve-split l x y f n k))

and_then_here :
    (l : Location) (y : Bytes) → some (y ∷ l) ≡ and_then (resolve l []) (λ m. some (y ∷ m))
unfolding resolve
and_then_here l y = refl

length_full : (s : Bytes) → is_empty s ≡ false → 0 < length s
length_full [] h = cc
length_full (c ∷ s) h = omega arith

Upper-name :
    (d : BasicPath)
    → normalized d.path ≡ true
    → is_empty d.path ≡ false
    → IsName d.path
    → directory d ≡ empty_path
    → Upper d
unfolding normalized normalized_loop
Upper-name d h f n e =
    below d.path (subst IsPlace (sym e) (refl, refl, refl)) (rw e (length_full d.path f))
      (rw e (sym (absolute-name d.path n)))
      (λ l.
        enter_name l d.path f n h
        ∙ and_then_here l d.path
        ∙ ap (λ u. and_then (resolve l u.path) (λ m. some (d.path ∷ m))) (sym e))

-- Each place is the top, the root or below its directory.
pub upper : (d : BasicPath) → IsPlace d → Upper d
unfolding directory
upper d v = elim (body_cases d (v.0)) [
  | inl e ↦ top_root (ap (λ q. root q.path) e)
  | inr (b, w) ↦ elim (Bool-cases (is_empty d.path)) [
    | inl h ↦ top h
    | inr h ↦ elim (last (body d)) [
      | split x y s n e ↦ Upper-split d x y (v.2) w (sym b ∙ s) n (directory-split d x y e)
      | unsplit n e ↦ Upper-name d (v.2) h (subst IsName b n) (rw (e, directory) refl)
    ]
  ]
]
