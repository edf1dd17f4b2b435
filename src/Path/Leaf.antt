-- ===== src/Path/Leaf.antt =====
-- What `leaf (d)` denotes.
use libbutl.Prelude.{
  ℕ, zero, suc, ◌+◌, true, false, not, ◌&&◌, ◌||◌, inr, [], ◌∷◌, ◌++◌, ◌≡◌, refl, sym, ap, ◌∙◌,
  Bytes, length, drop, is_empty, append-nil, arith, if◌then◌else◌, ltb, length-append,
}
use mathlib.Core.Path.{subst}
use native.Mathlib.Numerals.{unary_clauses}
use libbutl.Path.Traits.{is_separator, absolute, ends_with_separator, root, sub, normalized}
use libbutl.Path.Data.{
  BasicPath, path_of, path_data, absent, slash, in_path, is_slash, is_absent, TrailingSeparator,
}
use libbutl.Path.Operations.{leaf_of}
use libbutl.Path.Shape.{IsTrimmed}
use libbutl.Path.Parts.{root_is, separator_is}
use libbutl.Path.Prefix.{sub-append, normalized_loop-append}
use libbutl.Path.Append.{resolve-append_full, resolve-root, and_then_stay}
use libbutl.Path.Resolve.{Location, resolve, and_then}

-- A directory that is written in the normal form.
abbrev pub IsPlace : BasicPath → Type 0
IsPlace d =
    IsTrimmed d × (is_empty d.path || not (is_absent d.tsep) ≡ true) × (normalized d.path ≡ true)

-- The leaf that is found, and what it denotes from the directory.
abbrev pub Found : BasicPath → BasicPath → Type 0
Found p d =
    (q : BasicPath) × (leaf_of p d ≡ inr q)
    × (absolute q.path ≡ false)
    × ((l : Location) → resolve l p.path ≡ and_then (resolve l d.path) (λ m. resolve m q.path))

path-path_data : (s : Bytes) (t : TrailingSeparator) → (path_data s t).path ≡ s
path-path_data [] t = refl
path-path_data (c ∷ s) t = refl

leaf_of-drop :
    (p d : BasicPath)
    → is_empty d.path ≡ false
    → sub p.path d.path ≡ true
    → leaf_of p d
      ≡ inr (
          path_data
            (drop
              (if is_slash d.tsep && ltb (length d.path) (length p.path)
                then length d.path + 1
                else length d.path)
              p.path)
            p.tsep)
unfolding leaf_of
leaf_of-drop p d h k = rw (h, k) refl

drop-suc : (n : ℕ) (s t : Bytes) (c : ℕ) → drop n s ≡ c ∷ t → drop (suc n) s ≡ t
drop-suc zero [] t c h = cc
drop-suc (suc n) [] t c h = cc
drop-suc zero (d ∷ s) t c h = cc
drop-suc (suc n) (d ∷ s) t c h = drop-suc n s t c h

drop_next : (n : ℕ) (s t : Bytes) (c : ℕ) → drop n s ≡ c ∷ t → drop (n + 1) s ≡ t
drop_next n s t c h = simp unary_clauses (drop-suc n s t c h)

-- The leaf is the text `t`.
found :
    (p d : BasicPath) (t : Bytes)
    → leaf_of p d ≡ inr (path_data t p.tsep)
    → absolute t ≡ false
    → ((l : Location) → resolve l p.path ≡ and_then (resolve l d.path) (λ m. resolve m t))
    → Found p d
found p d t e a r = (
  path_data t p.tsep,
  e,
  ap absolute (path-path_data t p.tsep) ∙ a,
  λ l.
      r l
      ∙ ap (λ s. and_then (resolve l d.path) (λ m. resolve m s)) (sym (path-path_data t p.tsep)),
)

leaf_of-root :
    (p : BasicPath) (s : Bytes)
    → root s ≡ true
    → sub p.path s ≡ true
    → normalized p.path ≡ true
    → Found p (path_of s in_path)
unfolding normalized
leaf_of-root p s h k n =
    let e = root_is s h in
    let f : is_empty s ≡ false = ap is_empty e in
    let (a, b) = sub-append p.path s k f in
    let t = drop (length s) p.path in
    let q : p.path ≡ b'/' ∷ t = a ∙ ap (λ x. x ++ t) e in
    let (u, v, w, x) = normalized_loop-append [] [] t (sym (ap normalized q) ∙ n) in
    found p (path_of s in_path) t (leaf_of-drop p (path_of s in_path) f k) w
      (λ l. ap (resolve l) a ∙ resolve-root l s t h w)

leaf_of-slash :
    (p : BasicPath) (s t : Bytes)
    → is_empty s ≡ false
    → ends_with_separator s ≡ false
    → sub p.path s ≡ true
    → normalized p.path ≡ true
    → drop (length s) p.path ≡ t
    → Found p (path_of s slash)
unfolding normalized
leaf_of-slash p s [] f w k n e =
    let (a, b) = sub-append p.path s k f in
    let q : p.path ≡ s = a ∙ ap (λ x. s ++ x) e ∙ append-nil s in
    let z : ltb (length s) (length p.path) ≡ false = (let y = ap length q in ground (arith, y)) in
    found p (path_of s slash) []
      (leaf_of-drop p (path_of s slash) f k ∙ rw z (ap (λ x. inr (path_data x p.tsep)) e)) refl
      (λ l. ap (resolve l) q ∙ sym (and_then_stay (resolve l s) [] refl))
leaf_of-slash p s (c ∷ t) f w k n e =
    let (a, b) = sub-append p.path s k f in
    let z : length p.path ≡ length s + suc (length t) =
      ap length a ∙ length-append s (drop (length s) p.path) ∙ ap (λ x. length s + length x) e in
    let y : ltb (length s) (length p.path) ≡ true = ground (arith, z) in
    let g : is_separator c ≡ true = subst (λ x. absolute x ≡ true) e (ground (arith, b, w, z)) in
    let q : p.path ≡ s ++ b'/' ∷ t =
      a ∙ ap (λ x. s ++ x) (e ∙ ap (λ x. x ∷ t) (separator_is c g)) in
    let (u, v, x, o) = normalized_loop-append [] s t (sym (ap normalized q) ∙ n) in
    found p (path_of s slash) t
      (leaf_of-drop p (path_of s slash) f k
        ∙ rw y (ap (λ x. inr (path_data x p.tsep)) (drop_next (length s) p.path t c e)))
      x (λ l. ap (resolve l) q ∙ resolve-append_full l s t f x)

leaf_of_place :
    (p : BasicPath) (s : Bytes) (t : TrailingSeparator)
    → IsPlace (path_of s t)
    → normalized p.path ≡ true
    → absolute p.path ≡ absolute s
    → sub p.path s ≡ true
    → Found p (path_of s t)
unfolding leaf_of resolve
leaf_of_place p [] t v n a k = (p, refl, a, λ l. refl)
leaf_of_place p (c ∷ s) absent v n a k = (let g = v.1 in cc)
leaf_of_place p (c ∷ s) slash v n a k =
    leaf_of-slash p (c ∷ s) (drop (length (c ∷ s)) p.path) refl (v.0.1) k n refl
leaf_of_place p (c ∷ s) in_path v n a k = leaf_of-root p (c ∷ s) (v.0) k n

-- The leaf of a path below a directory is relative and denotes the path from there.
pub leaf_of-Found :
    (p d : BasicPath)
    → IsPlace d
    → normalized p.path ≡ true
    → absolute p.path ≡ absolute d.path
    → sub p.path d.path ≡ true
    → Found p d
leaf_of-Found p d v n a k = leaf_of_place p d.path d.tsep v n a k
