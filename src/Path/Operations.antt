-- ===== src/Path/Operations.antt =====
-- The operations of basic_path in libbutl/path.ixx and path.txx that take paths apart and put them
-- together. The exception invalid_basic_path is its path.
use libbutl.Prelude.{
  ℕ, zero, suc, ◌+◌, ◌-◌, Bool, true, false, not, ◌&&◌, ◌⊎◌, inl, inr, Option, none, some, [], ◌∷◌,
  ◌++◌, ltb, if◌then◌else◌, Bytes, length, take, drop, is_empty, codes,
}
use libbutl.Path.Traits.{absolute, root, find_separator, rfind_separator, sub, sup}
use libbutl.Path.Data.{
  BasicPath, path_of, path_data, init_data, body, absent, slash, in_path, is_absent, is_slash,
  empty_path, Kind, cast,
}
use libbutl.ProjectName.{find_extension}

abbrev pub simple : BasicPath → Bool
simple p = elim (rfind_separator (body p)) [ none ↦ true | some x ↦ false ]

-- `leaf ()`, `make_leaf ()`, `directory ()` and `make_directory ()`.
unfoldable pub leaf : BasicPath → BasicPath
leaf p = elim (rfind_separator (body p)) [ none ↦ p | some (x, y) ↦ path_data y p.tsep ]

unfoldable pub make_leaf : BasicPath → BasicPath
make_leaf p = elim (rfind_separator (body p)) [
  | none ↦ p
  | some (x, y) ↦ path_of y (if is_empty y then absent else p.tsep)
]

unfoldable pub directory : BasicPath → BasicPath
directory p = elim (rfind_separator (body p)) [
  | none ↦ empty_path
  | some (x, y) ↦ init_data (x ++ b'/' ∷ [])
]

unfoldable pub make_directory : BasicPath → BasicPath
make_directory p = elim (rfind_separator (body p)) [
  | none ↦ init_data []
  | some (x, y) ↦ init_data (x ++ b'/' ∷ [])
]

-- `leaf (d)`.
unfoldable pub leaf_of : BasicPath → BasicPath → Bytes ⊎ BasicPath
leaf_of p d =
    let n = length d.path in
    let m = if is_slash d.tsep && ltb n (length p.path) then n + 1 else n in
    if is_empty d.path
    then inr p
    else if not (sub p.path d.path)
    then inl p.path
    else inr (path_data (drop m p.path) p.tsep)

-- `directory (l)`.
unfoldable pub directory_of : BasicPath → BasicPath → Bytes ⊎ BasicPath
directory_of p l =
    if is_empty l.path
    then (if is_absent p.tsep then inl p.path else inr (path_data p.path p.tsep))
    else if not (sup p.path l.path)
    then inl p.path
    else inr (init_data (take (length p.path - length l.path) p.path))

-- `base ()` and `extension ()`.
unfoldable pub base : BasicPath → BasicPath
base p = elim (find_extension p.path) [ none ↦ p | some (b, e) ↦ path_data b p.tsep ]

unfoldable pub extension : BasicPath → Bytes
extension p = elim (find_extension p.path) [ none ↦ [] | some (b, e) ↦ e ]

-- `combine_impl (r, rn, rts)`.
unfoldable pub combine_impl : BasicPath → BasicPath → BasicPath
combine_impl l r =
    path_of
      (elim l.tsep [
        | absent ↦ if is_empty l.path then r.path else l.path ++ b'/' ∷ r.path
        | slash ↦ l.path ++ b'/' ∷ r.path
        | in_path ↦ l.path ++ r.path
      ])
      r.tsep

-- `operator/=` with a path.
unfoldable pub append_path : BasicPath → BasicPath → Bytes ⊎ BasicPath
append_path l r =
    if absolute r.path && not (is_empty l.path)
    then inl r.path
    else inr (if is_empty r.path then l else combine_impl l r)

-- `operator/=` with a string, for the kind of the left side.
unfoldable pub append_string : Kind → BasicPath → Bytes → Bytes ⊎ BasicPath
append_string k l r = if is_empty r then inr l else elim (find_separator r) [
  | some x ↦ inl r
  | none ↦ inr (cast k (combine_impl l (path_of r absent)))
]

-- `combine` with a string and whether a separator is given.
unfoldable pub combine : Kind → BasicPath → Bytes → Bool → Bytes ⊎ BasicPath
combine k l r sep =
    let q = if is_empty r then l else combine_impl l (path_of r absent) in
    if is_empty r && not sep then inr l else elim (find_separator r) [
      | some x ↦ inl r
      | none ↦
          if is_empty r && is_empty l.path
          then inr (path_of (codes "/") in_path)
          else inr (cast k (if sep then record q { tsep = slash } else q))
    ]

-- `operator+=`.
abbrev pub append : BasicPath → Bytes → BasicPath
append p s = record p { path = p.path ++ s }

abbrev pub root_directory : BasicPath → BasicPath
root_directory p = if absolute p.path then path_of (codes "/") in_path else empty_path

-- `separator_string`: of the root it is its character.
abbrev pub separator_string : BasicPath → Bytes
separator_string p = if is_absent p.tsep then [] else b'/' ∷ []

-- The loop of `try_relative`, on fuel: the path, the directory and the result so far. It gives
-- `none` when it runs out of fuel; when the roots do not match, there is no path in its result.
unfoldable pub relative_loop :
    ℕ → BasicPath → BasicPath → BasicPath → Option (Bytes ⊎ Option BasicPath)
relative_loop zero p d r = none
relative_loop (suc f) p d r =
    let up = combine_impl r (path_of (codes "..") slash) in
    let next = relative_loop f p (directory d) up in
    if sub p.path d.path
    then elim (leaf_of p d) [
      | inl e ↦ some (inl e)
      | inr l ↦ elim (append_path r l) [ inl e ↦ some (inl e) | inr q ↦ some (inr (some q)) ]
    ]
    else if root d.path
    then some (inr none)
    else next

-- `try_relative`.
unfoldable pub try_relative : BasicPath → BasicPath → Bytes ⊎ Option BasicPath
try_relative p d = elim (relative_loop (suc (length d.path)) p d empty_path) [
  | none ↦ inl (codes "out of fuel")
  | some r ↦ r
]

-- `relative`.
unfoldable pub relative : BasicPath → BasicPath → Bytes ⊎ BasicPath
relative p d = elim (try_relative p d) [
  | inl e ↦ inl e
  | inr o ↦ elim o [ none ↦ inl p.path | some r ↦ inr r ]
]
