-- ===== src/Path/Normalize.antt =====
-- `normalize` of libbutl/path.txx, for paths that are not to be actualized.
use libbutl.Prelude.{
  Bool, false, not, ◌&&◌, ◌||◌, ◌⊎◌, inl, inr, Option, none, some, List, [], ◌∷◌, ◌++◌,
  if◌then◌else◌, Bytes, is_empty, codes, reverse,
}
use libbutl.Path.Traits.{is_separator, absolute, current, parent}
use libbutl.Path.Data.{BasicPath, path_of, body, absent, slash, in_path, is_absent}

-- The loop over the components: the one that is being read, or none after a separator.
unfoldable pub components_loop : Option Bytes → Bytes → List Bytes
components_loop none [] = []
components_loop (some p) [] = p ∷ []
components_loop none (c ∷ s) =
    let skip = components_loop none s in
    let begin = components_loop (some (c ∷ [])) s in if is_separator c then skip else begin
components_loop (some p) (c ∷ s) =
    let skip = components_loop none s in
    let more = components_loop (some (p ++ c ∷ [])) s in if is_separator c then p ∷ skip else more

unfoldable pub components : Bytes → List Bytes
components s = components_loop (some []) s

abbrev pub is_special : Bytes → Bool
is_special c = current c || parent c

-- `ps.back ()` is `.` or `..`.
abbrev pub ends_special : List Bytes → Bool
ends_special [] = false
ends_special (c ∷ []) = is_special c
ends_special (c ∷ d ∷ cs) = ends_special (d ∷ cs)

-- The collapse of `.` and `..`; the components `r` are read backwards.
unfoldable pub collapse : Bool → List Bytes → List Bytes → Option (List Bytes)
collapse abs r [] = some r
collapse abs r (c ∷ cs) =
    let keep = collapse abs (c ∷ r) cs in
    let same = collapse abs r cs in
    if current c then same else if not (parent c) then keep else elim r [
      | [] ↦ keep
      | d ∷ t ↦
          let drop = collapse abs t cs in
          if parent d then keep else if abs && is_empty t then none else drop
    ]

-- The components with separators between them.
unfoldable pub join : List Bytes → Bytes
join [] = []
join (c ∷ []) = c
join (c ∷ d ∷ cs) = c ++ b'/' ∷ join (d ∷ cs)

-- The path from the text `p` of the components.
unfoldable pub normal_path : Bool → Bool → Bool → Bytes → BasicPath
normal_path tsep abs cur_empty p =
    if not tsep
    then path_of p absent
    else if not (is_empty p)
    then path_of p slash
    else if abs
    then path_of (codes "/") in_path
    else if not cur_empty
    then path_of (codes ".") slash
    else path_of [] absent

-- `normalize (false, cur_empty)`.
unfoldable pub normalize : BasicPath → Bool → Bytes ⊎ BasicPath
normalize p cur_empty =
    let ps = components (body p) in
    let abs = absolute p.path in
    let tsep = not (is_absent p.tsep) || ends_special ps in
    if is_empty p.path then inr p else elim (collapse abs [] ps) [
      | none ↦ inl p.path
      | some r ↦ inr (normal_path tsep abs cur_empty (join (reverse r)))
    ]
