-- ===== src/Path/Tests.antt =====
-- Runs of the path code.
use libbutl.Prelude.{none, ◌≡◌, refl, inl, inr, some, true, false, not, ◌||◌, [], ◌∷◌, codes, arith}
use libbutl.Path.Traits.{
  find_separator, absolute, normalized, normalized_loop, rfind_separator, sub, compare,
}
use libbutl.Path.Data.{
  init_exact, init_any_exact, BasicPath, path_of, init, init_any, init_data, strip_separators,
  pop_separator, any, dir, absent, slash, in_path, empty_path, cast, representation,
}
use libbutl.Path.Operations.{
  leaf, directory, relative, try_relative, relative_loop, leaf_of, append_path, combine_impl,
  combine,
}
use libbutl.Path.Normalize.{normalize, components, components_loop, collapse, join, normal_path}
use libbutl.Path.Shape.{IsTrimmed}
use libbutl.Path.Resolve.{Location, walk, resolve, resolve_result, and_then}
use libbutl.Path.Refused.{is_refused, resolve-normalize}
use libbutl.Path.Canonical.{normalize-normalize}
use libbutl.Path.Fixed.{normalized-normalize}
use libbutl.Path.Relative.{resolve-relative}
use libbutl.Path.Fuel.{relative_loop-try_relative}
use libbutl.Path.Parts.{directory-leaf}
use libbutl.Path.Names.{leaf-append_path}
use libbutl.Path.Append.{resolve-append_path}
use libbutl.Path.Text.{init-representation}
use libbutl.Path.Iterator.{at, increment, decrement, Into, decrement-increment}

normalized_path :
    normalize (init any (codes "/a/./b//../c/")) false ≡ inr (path_of (codes "/a/c") slash)
unfolding normalize components components_loop collapse join normal_path init init_any
    strip_separators
normalized_path = refl

normalized_root : normalize (init any (codes "/a/..")) false ≡ inr (path_of (codes "/") in_path)
unfolding normalize components components_loop collapse join normal_path init init_any
normalized_root = refl

above_root : normalize (init any (codes "/../a")) false ≡ inl (codes "/../a")
unfolding normalize components components_loop collapse init init_any
above_root = refl

relative_path :
    relative (init any (codes "/a/b/c")) (init any (codes "/a/x/y/"))
    ≡ inr (path_of (codes "../../b/c") absent)
unfolding relative try_relative relative_loop leaf_of append_path combine_impl directory sub compare
    init_data rfind_separator init init_any strip_separators pop_separator
relative_path = refl

leaf_path : leaf (init any (codes "/a/b/")) ≡ path_of (codes "b") slash
unfolding leaf rfind_separator init init_any strip_separators
leaf_path = refl

-- a/./b/../c and a/b as paths, and /a/x and /a/b/c as places.
abbrev dotted : BasicPath
dotted = path_of (codes "a/./b/../c") absent

-- A path above the root.
abbrev above : BasicPath
above = path_of (codes "/a/../../c") absent

abbrev rooted : BasicPath
rooted = path_of (codes "/a/b//..") slash

abbrev file : BasicPath
file = path_of (codes "/a/b/c") absent

abbrev place : BasicPath
place = path_of (codes "/a/x") slash

abbrev name : BasicPath
name = path_of (codes "b") slash

resolve-normalize_example :
    (is_refused (normalize above false) ≡ true)
    × (resolve_result (codes "z" ∷ []) (normalize above false)
        ≡ resolve (codes "z" ∷ []) (codes "/a/../../c"))
unfolding resolve walk components components_loop
resolve-normalize_example = resolve-normalize (codes "z" ∷ []) above false refl

normalize-rooted : normalize rooted true ≡ inr (path_of (codes "/a") slash)
unfolding normalize components components_loop collapse join normal_path
normalize-rooted = refl

normalize-normalize_example :
    IsTrimmed (path_of (codes "/a") slash)
    × (normalize (path_of (codes "/a") slash) true ≡ inr (path_of (codes "/a") slash))
    × (not (absolute rooted.path) || normalized (codes "/a") ≡ true)
normalize-normalize_example =
    normalize-normalize rooted (path_of (codes "/a") slash) true (refl, refl) normalize-rooted

normalized_file : normalized file.path ≡ true
unfolding normalized normalized_loop
normalized_file = refl

normalized_place : normalized place.path ≡ true
unfolding normalized normalized_loop
normalized_place = refl

normalized-normalize_example : normalize file true ≡ inr file
normalized-normalize_example = normalized-normalize file true refl normalized_file

resolve_place : resolve [] place.path ≡ some (codes "x" ∷ codes "a" ∷ [])
unfolding resolve walk components components_loop
resolve_place = refl

resolve-relative_example :
    (r : BasicPath) × (relative file place ≡ inr r)
    × (resolve (codes "x" ∷ codes "a" ∷ []) r.path ≡ resolve [] file.path)
resolve-relative_example =
    resolve-relative file place [] (codes "x" ∷ codes "a" ∷ [])
      ((refl, refl), refl, normalized_place) normalized_file refl resolve_place

relative_loop-try_relative_example :
    relative_loop 50 file place empty_path ≡ some (try_relative file place)
relative_loop-try_relative_example = relative_loop-try_relative 50 file place (omega arith)

directory-leaf_example : append_path (directory place) (leaf place) ≡ inr place
directory-leaf_example = directory-leaf place (refl, refl)

leaf-append_path_example :
    (q : BasicPath) × (append_path place name ≡ inr q)
    × (leaf q ≡ name)
    × (directory q ≡ cast dir place)
leaf-append_path_example = leaf-append_path place name (refl, refl) refl refl refl refl

resolve-append_path_example :
    (q : BasicPath) × (append_path place dotted ≡ inr q)
    × ((l : Location)
        → resolve l q.path ≡ and_then (resolve l place.path) (λ m. resolve m dotted.path))
resolve-append_path_example = resolve-append_path place dotted refl refl

init-representation_example : init dir (representation place) ≡ place
init-representation_example = init-representation dir place (refl, refl) refl

exact_slashes : init_exact any (codes "a//") ≡ empty_path
unfolding init_exact init_any_exact strip_separators
exact_slashes = refl

combined_root : combine dir empty_path [] true ≡ inr (path_of (codes "/") in_path)
unfolding combine find_separator
combined_root = refl

decrement-increment_example :
    Into (codes "a/b/") (increment (at (codes "a/") (codes "b") (some [])))
    × (decrement (codes "a/b/") (increment (at (codes "a/") (codes "b") (some [])))
        ≡ at (codes "a/") (codes "b") (some []))
decrement-increment_example =
    decrement-increment (codes "a/b/") (codes "a/") (codes "b") (some [])
      (refl, refl, inr (codes "a", refl), λ e. absurd (let no : some [] ≡ none = e in cc))
