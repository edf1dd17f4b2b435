-- ===== src/Path/Data.antt =====
-- path_data, any_path_kind and dir_path_kind of libbutl/path.hxx and path.txx.
use libbutl.Prelude.{
  ltb, length, ◌-◌, ◌==◌, Bool, true, false, not, ◌&&◌, [], ◌∷◌, ◌++◌, if◌then◌else◌, Bytes,
  is_empty, codes,
}
use libbutl.Path.Traits.{is_separator, ends_with_separator}

-- `tsep_`: 0, 1 and -1. There is one directory separator, so no other index.
pub data TrailingSeparator : Type 0 where
  absent slash in_path : TrailingSeparator

pub record BasicPath : Type 0 where
  pub path : Bytes
  pub tsep : TrailingSeparator

abbrev pub path_of : Bytes → TrailingSeparator → BasicPath
path_of s t = record { path = s; tsep = t }

-- The two kinds of paths, any_path_kind and dir_path_kind.
pub data Kind : Type 0 where
  any dir : Kind

abbrev pub is_absent : TrailingSeparator → Bool
is_absent absent = true
is_absent slash = false
is_absent in_path = false

abbrev pub is_slash : TrailingSeparator → Bool
is_slash absent = false
is_slash slash = true
is_slash in_path = false

abbrev pub empty_path : BasicPath
empty_path = path_of [] absent

-- `path_data (p, ts)`.
abbrev pub path_data : Bytes → TrailingSeparator → BasicPath
path_data [] t = empty_path
path_data (c ∷ s) t = path_of (c ∷ s) t

unfoldable pub pop_separator : Bytes → Bytes
pop_separator [] = []
pop_separator (c ∷ []) = []
pop_separator (c ∷ d ∷ s) = c ∷ pop_separator (d ∷ s)

-- `path_data (p)`, with `_init`: one separator at the end is taken off, unless it is the only
-- character.
unfoldable pub init_data : Bytes → BasicPath
init_data [] = path_of [] absent
init_data (c ∷ []) = path_of (c ∷ []) (if is_separator c then in_path else absent)
init_data (c ∷ d ∷ s) =
    if ends_with_separator (d ∷ s)
    then path_of (c ∷ pop_separator (d ∷ s)) slash
    else path_of (c ∷ d ∷ s) absent

-- The characters that `_size` counts.
abbrev pub body : BasicPath → Bytes
body p = elim p.tsep [ absent ↦ p.path | slash ↦ p.path | in_path ↦ pop_separator p.path ]

-- The loop of any_path_kind::init: the text less its separators at the end.
unfoldable pub strip_separators : Bytes → Bytes
strip_separators [] = []
strip_separators (c ∷ s) =
    let rest = strip_separators s in if is_empty rest && is_separator c then [] else c ∷ rest

-- any_path_kind::init, not exact.
unfoldable pub init_any : Bytes → BasicPath
init_any s =
    if not (ends_with_separator s)
    then path_of s absent
    else if is_empty (strip_separators s)
    then path_of (codes "/") in_path
    else path_of (strip_separators s) slash

-- dir_path_kind::cast, and the same for any_path_kind, which does nothing.
abbrev pub cast : Kind → BasicPath → BasicPath
cast any p = p
cast dir p = if not (is_empty p.path) && is_absent p.tsep then record p { tsep = slash } else p

-- The constructor from a string.
unfoldable pub init : Kind → Bytes → BasicPath
init k s = cast k (init_any s)

-- `representation`.
abbrev pub representation : BasicPath → Bytes
representation p = elim p.tsep [ absent ↦ p.path | slash ↦ p.path ++ b'/' ∷ [] | in_path ↦ p.path ]

-- `init` in the exact mode, which gives the empty path for a text that is not kept as it is.
unfoldable pub init_any_exact : Bytes → BasicPath
init_any_exact s =
    let m = strip_separators s in
    if ltb 1 (length s - length m)
    then empty_path
    else if length s - length m == 0
    then path_data m absent
    else if is_empty m
    then path_of (codes "/") in_path
    else path_data m slash

unfoldable pub init_exact : Kind → Bytes → BasicPath
init_exact any s = init_any_exact s
init_exact dir s =
    if not (is_empty s) && not (ends_with_separator s)
    then empty_path
    else cast dir (init_any_exact s)
