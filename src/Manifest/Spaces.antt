-- ===== src/Manifest/Spaces.antt =====
-- Spaces and tabs, and `skip_spaces` of libbutl/manifest-parser.cxx.
use libbutl.Prelude.{ℕ, Bool, true, false, not, [], ◌∷◌, ◌==◌, ◌||◌, ◌&&◌, if◌then◌else◌, Bytes}

-- `c == ' ' || c == '\t'`.
abbrev pub blank : ℕ → Bool
blank c = c == b' ' || c == b'\t'

abbrev pub starts_with_blank : Bytes → Bool
starts_with_blank [] = false
starts_with_blank (c ∷ s) = blank c

abbrev pub ends_with_blank : Bytes → Bool
ends_with_blank [] = false
ends_with_blank (c ∷ []) = blank c
ends_with_blank (c ∷ d ∷ s) = ends_with_blank (d ∷ s)

-- The text that is left. The first argument is `start`, whether the call is at the beginning of a
-- line, the second whether the loop over the characters of a comment is running.
unfoldable pub skip_spaces_loop : Bool → Bool → Bytes → Bytes
skip_spaces_loop start comment [] = []
skip_spaces_loop start comment (c ∷ s) =
    let in_comment = skip_spaces_loop start true s in
    let next = skip_spaces_loop start false s in
    if comment && not (c == b'\n')
    then in_comment
    else if blank c
    then next
    else if c == b'\n'
    then (if start then next else c ∷ s)
    else if c == b'#'
    then (if start then in_comment else c ∷ s)
    else c ∷ s

abbrev pub skip_spaces : Bool → Bytes → Bytes
skip_spaces start s = skip_spaces_loop start false s
