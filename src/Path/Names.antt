-- ===== src/Path/Names.antt =====
-- A name that is appended to a path, and taken off again.
use libbutl.Prelude.{
  true, false, ◌||◌, inr, [], ◌∷◌, ◌++◌, ◌≡◌, refl, sym, ap, ◌∙◌, Bytes, is_empty,
}
use libbutl.Path.Data.{
  BasicPath, path_of, dir, cast, absent, slash, in_path, is_absent, is_slash, TrailingSeparator,
}
use libbutl.Path.Operations.{leaf, directory, append_path, combine_impl}
use libbutl.Path.Split.{IsName}
use libbutl.Path.Shape.{IsTrimmed}
use libbutl.Path.Parts.{
  rfind-append, directory_path, directory-split, leaf-split, path_data-full, root_is,
  append_path-name,
}

-- The last component and the directory of a path that is put together.
combined-parts :
    (d : BasicPath) (x y : Bytes) (t : TrailingSeparator)
    → is_empty y ≡ false
    → IsName y
    → is_absent t || is_slash t ≡ true
    → combine_impl d (path_of y t) ≡ path_of (x ++ b'/' ∷ y) t
    → (leaf (combine_impl d (path_of y t)) ≡ path_of y t)
      × (directory (combine_impl d (path_of y t)) ≡ directory_path x)
combined-parts d x y absent f n k e = rw e (
  leaf-split (path_of (x ++ b'/' ∷ y) absent) x y (rfind-append x y n) ∙ path_data-full y absent f,
  directory-split (path_of (x ++ b'/' ∷ y) absent) x y (rfind-append x y n),
)
combined-parts d x y slash f n k e = rw e (
  leaf-split (path_of (x ++ b'/' ∷ y) slash) x y (rfind-append x y n) ∙ path_data-full y slash f,
  directory-split (path_of (x ++ b'/' ∷ y) slash) x y (rfind-append x y n),
)
combined-parts d x y in_path f n k e = cc

combine_dir :
    (s : Bytes) (u : TrailingSeparator) (r : BasicPath)
    → IsTrimmed (path_of s u)
    → is_empty s ≡ false
    → (x : Bytes) × (combine_impl (path_of s u) r ≡ path_of (x ++ b'/' ∷ r.path) r.tsep)
      × (directory_path x ≡ cast dir (path_of s u))
unfolding combine_impl
combine_dir [] u r v h = cc
combine_dir (c ∷ s) absent r v h = (c ∷ s, refl, refl)
combine_dir (c ∷ s) slash r v h = (c ∷ s, refl, refl)
combine_dir (c ∷ s) in_path r v h =
    let e = root_is (c ∷ s) v in
    ([], ap (λ z. path_of (z ++ r.path) r.tsep) e, sym (ap (λ z. path_of z in_path) e))

-- Appending one name to a trimmed path gives a path with that last component and, as its
-- directory, the path with a separator.
pub leaf-append_path :
    (d r : BasicPath)
    → IsTrimmed d
    → is_empty d.path ≡ false
    → is_empty r.path ≡ false
    → IsName r.path
    → is_absent r.tsep || is_slash r.tsep ≡ true
    → (q : BasicPath) × (append_path d r ≡ inr q) × (leaf q ≡ r) × (directory q ≡ cast dir d)
leaf-append_path d r v h f n k =
    let (x, e, g) = combine_dir d.path d.tsep r v h in
    let (a, b) = combined-parts d x r.path r.tsep f n k e in
    (combine_impl d r, append_path-name d r.path r.tsep f n, a, b ∙ g)
