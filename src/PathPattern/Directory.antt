-- ===== src/PathPattern/Directory.antt =====
-- `path_match`, on names and patterns with a directory separator at the end and without one.
use libbutl.Prelude.{
  suc, ◌≡◌, refl, Bool, true, false, not, ◌&&◌, [], ◌∷◌, ◌++◌, Bytes, length, arith,
}
use libbutl.PathPattern.Matcher.{trailing_separator, path_match}
use libbutl.PathPattern.Reference.{accepts_terms, terms}
use libbutl.PathPattern.Correct.{match-accepts_terms}

-- A name or a pattern of a directory ends with a separator.
unfoldable pub as_directory : Bool → Bytes → Bytes
as_directory true s = s ++ 47 ∷ []
as_directory false s = s

trailing_separator_last : (s : Bytes) → trailing_separator (s ++ 47 ∷ []) ≡ (true, s)
unfolding trailing_separator
trailing_separator_last [] = refl
trailing_separator_last (c ∷ []) = refl
trailing_separator_last (c ∷ d ∷ s) = rw (trailing_separator_last (d ∷ s)) refl

trailing_separator_none :
    (s : Bytes) → (trailing_separator s).0 ≡ false → trailing_separator s ≡ (false, s)
unfolding trailing_separator
trailing_separator_none [] h = refl
trailing_separator_none (c ∷ []) h = ground (arith, h)
trailing_separator_none (c ∷ d ∷ s) h = rw (trailing_separator_none (d ∷ s) h) refl

trailing_separator-as_directory :
    (b : Bool) (s : Bytes)
    → (trailing_separator s).0 ≡ false
    → trailing_separator (as_directory b s) ≡ (b, s)
unfolding as_directory
trailing_separator-as_directory true s h = trailing_separator_last s
trailing_separator-as_directory false s h = trailing_separator_none s h

abbrev pub same_kind : Bool → Bool → Bool
same_kind true b = b
same_kind false b = not b

-- A name matches a pattern exactly if both or neither are of a directory and, without the
-- separator at the end, the terms of the pattern match the name from left to right. Here the two
-- texts end with one separator at most.
pub path_match-as_directory :
    (name_directory pattern_directory : Bool) (n p : Bytes)
    → (trailing_separator n).0 ≡ false
    → (trailing_separator p).0 ≡ false
    → path_match (as_directory name_directory n) (as_directory pattern_directory p)
      ≡ (same_kind pattern_directory name_directory && accepts_terms (terms (suc (length p)) p) n)
unfolding path_match
path_match-as_directory b true n p hn hp =
    rw
      (
        trailing_separator-as_directory b n hn,
        trailing_separator-as_directory true p hp,
        match-accepts_terms p n,
      )
      refl
path_match-as_directory b false n p hn hp =
    rw
      (
        trailing_separator-as_directory b n hn,
        trailing_separator-as_directory false p hp,
        match-accepts_terms p n,
      )
      refl
