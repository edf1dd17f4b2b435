-- ===== src/Path/Relative.antt =====
-- `relative` gives the way from a directory to a path.
use libbutl.Prelude.{
  ℕ, zero, suc, ◌<◌, true, false, inl, inr, Option, none, some, [], ◌∷◌, ◌≡◌, refl, sym, ap, ◌∙◌,
  Bytes, length, arith, Bool-cases, codes,
}
use libbutl.Path.Traits.{absolute, root, sub, normalized}
use libbutl.Path.Data.{BasicPath, path_of, absent, slash, in_path, empty_path, TrailingSeparator}
use libbutl.Path.Operations.{directory, combine_impl, relative, try_relative, relative_loop}
use libbutl.Path.Shape.{IsPath}
use libbutl.Path.Normalize.{components, components_loop}
use libbutl.Path.Append.{resolve-combine_impl, resolve-append_path}
use libbutl.Path.Parts.{root_is}
use libbutl.Path.Prefix.{sub-root, sub-empty}
use libbutl.Path.Leaf.{IsPlace, leaf_of-Found}
use libbutl.Path.Upper.{top, top_root, below, upper}
use libbutl.Path.Resolve.{Location, walk, resolve, and_then}

-- `..` at the end of the result so far.
abbrev up_from : BasicPath → BasicPath
up_from r = combine_impl r (path_of (codes "..") slash)

resolve-up_from :
    (l m : Location) (y : Bytes) (r : BasicPath)
    → IsPath r
    → resolve l r.path ≡ some (y ∷ m)
    → resolve l (up_from r).path ≡ some m
unfolding resolve walk components components_loop
resolve-up_from l m y r v e =
    resolve-combine_impl l r (path_of (codes "..") slash) v refl
    ∙ ap (λ o. and_then o (λ n. resolve n (codes ".."))) e

up_from_of : (s : Bytes) (t : TrailingSeparator) → IsPath (up_from (path_of s t))
unfolding combine_impl
up_from_of [] absent = refl
up_from_of [] slash = refl
up_from_of [] in_path = refl
up_from_of (c ∷ s) absent = refl
up_from_of (c ∷ s) slash = refl
up_from_of (c ∷ s) in_path = refl

up_from-IsPath : (r : BasicPath) → IsPath (up_from r)
unfolding combine_impl
up_from-IsPath r = up_from_of r.path r.tsep

-- The result of the loop, from the location `m` of the directory.
abbrev Reached : ℕ → BasicPath → BasicPath → BasicPath → Location → Location → Type 0
Reached f p d r l from =
    (q : BasicPath) × (relative_loop f p d r ≡ some (inr (some q)))
    × (resolve from q.path ≡ resolve l p.path)

leaf-Reached :
    (f : ℕ) (p d r : BasicPath) (l m from : Location)
    → IsPlace d
    → normalized p.path ≡ true
    → absolute p.path ≡ absolute d.path
    → IsPath r
    → resolve l d.path ≡ some m
    → resolve from r.path ≡ some m
    → sub p.path d.path ≡ true
    → Reached (suc f) p d r l from
unfolding relative_loop
leaf-Reached f p d r l m from v n a w e g s =
    let (x, e1, a1, found) = leaf_of-Found p d v n a s in
    let (q, e2, appended) = resolve-append_path r x w a1 in
    (
      q,
      rw (s, e1, e2) refl,
      appended from ∙ ap (λ o. and_then o (λ k. resolve k x.path)) (g ∙ sym e) ∙ sym (found l),
    )

and_then-name :
    (o : Option Location) (y : Bytes) (m : Location)
    → and_then o (λ k. some (y ∷ k)) ≡ some m
    → (k : Location) × (o ≡ some k) × (m ≡ y ∷ k)
and_then-name none y m h = cc
and_then-name (some k) y m h = (k, refl, cc)

root-sub :
    (p d : BasicPath)
    → absolute p.path ≡ absolute d.path
    → root d.path ≡ true
    → sub p.path d.path ≡ true
root-sub p d a h = let e = root_is d.path h in rw e (sub-root p.path (a ∙ ap absolute e))

not_root :
    (p d : BasicPath)
    → absolute p.path ≡ absolute d.path
    → sub p.path d.path ≡ false
    → root d.path ≡ false
not_root p d a s = elim (Bool-cases (root d.path)) [
  | inr h ↦ h
  | inl h ↦ (let no : true ≡ false = sym (root-sub p d a h) ∙ s in cc)
]

loop-Reached :
    (f : ℕ) (p d r : BasicPath) (l m from : Location)
    → length d.path < f
    → IsPlace d
    → normalized p.path ≡ true
    → absolute p.path ≡ absolute d.path
    → IsPath r
    → resolve l d.path ≡ some m
    → resolve from r.path ≡ some m
    → Reached f p d r l from
unfolding relative_loop
loop-Reached zero p d r l m from z v n a w e g = (let no : ⊥ = omega (arith, z) in elim no [ ])
loop-Reached (suc f) p d r l m from z v n a w e g = elim (Bool-cases (sub p.path d.path)) [
  | inl s ↦ leaf-Reached f p d r l m from v n a w e g s
  | inr s ↦ elim (upper d v) [
    | top h ↦ (let no : true ≡ false = sym (sub-empty p.path d.path h) ∙ s in cc)
    | top_root h ↦ (let no : true ≡ false = sym (root-sub p d a h) ∙ s in cc)
    | below y u len b up ↦
        let (k, x, t) = and_then-name (resolve l (directory d).path) y m (sym (up l) ∙ e) in
        let (q, e1, way) =
          loop-Reached f p (directory d) (up_from r) l k from (omega (arith, z, len)) u n
            (a ∙ sym b) (up_from-IsPath r) x (resolve-up_from from k y r w (g ∙ ap some t)) in
        (q, rw (s, not_root p d a s, e1) refl, way)
  ]
]

try_relative-Reached :
    (p d : BasicPath) (l m : Location)
    → IsPlace d
    → normalized p.path ≡ true
    → absolute p.path ≡ absolute d.path
    → resolve l d.path ≡ some m
    → (r : BasicPath) × (try_relative p d ≡ inr (some r)) × (resolve m r.path ≡ resolve l p.path)
unfolding try_relative resolve
try_relative-Reached p d l m v n a e =
    let (q, f, way) =
      loop-Reached (suc (length d.path)) p d empty_path l m m (omega arith) v n a refl e refl in
    (q, rw (f, try_relative) refl, way)

-- For a normalized path and a normalized directory, both absolute or both relative, `relative`
-- gives a path that denotes from the directory what the path denotes.
pub resolve-relative :
    (p d : BasicPath) (l m : Location)
    → IsPlace d
    → normalized p.path ≡ true
    → absolute p.path ≡ absolute d.path
    → resolve l d.path ≡ some m
    → (r : BasicPath) × (relative p d ≡ inr r) × (resolve m r.path ≡ resolve l p.path)
unfolding relative
resolve-relative p d l m v n a e =
    let (r, f, way) = try_relative-Reached p d l m v n a e in (r, rw (f, relative) refl, way)
