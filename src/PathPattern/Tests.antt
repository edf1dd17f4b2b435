-- ===== src/PathPattern/Tests.antt =====
-- Runs of libbutl/path-pattern.cxx.
use libbutl.Prelude.{◌≡◌, refl, true, false, ◌&&◌, codes}
use libbutl.PathPattern.{
  next, find_close, bracket_end, match_items, without_last, match_inner, match_bracket, get_literal,
  match_term, some_wildcard, path_pattern, consecutive_stars, path_pattern_recursive,
  path_pattern_self_matching, match_suffix, match_prefix, backtrack, after_star, after_suffix,
  match_no_brackets, match_next, match_terms, match, trailing_separator, path_match, accepts,
  accepts_terms, terms, as_directory, same_kind, match_no_brackets-accepts, match-accepts_terms,
  path_match-as_directory,
}

foo : path_match (codes "foo.txt") (codes "f*.t?t") ≡ true
unfolding path_match trailing_separator match match_no_brackets match_suffix match_prefix after_star
    after_suffix backtrack
foo = refl

-- The last star of the first pattern stands between brackets, that of the second does not.
star_in_brackets : path_match (codes "fxo") (codes "f[o*]o") ≡ false
unfolding path_match trailing_separator match match_terms match_next next bracket_end find_close
    match_term match_bracket match_inner without_last match_items get_literal match_no_brackets
    match_suffix match_prefix after_star after_suffix backtrack
star_in_brackets = refl

star_before_bracket : path_match (codes "foxx]o") (codes "fo*]o") ≡ true
unfolding path_match trailing_separator match match_no_brackets match_suffix match_prefix after_star
    after_suffix backtrack
star_before_bracket = refl

ranges : path_match (codes "ac.h") (codes "a[a-cx]*[!0-9-]") ≡ true
unfolding path_match trailing_separator match match_terms match_next next bracket_end find_close
    match_term match_bracket match_inner without_last match_items get_literal match_no_brackets
    match_suffix match_prefix after_star after_suffix backtrack
ranges = refl

wildcard : path_pattern (codes "a[]") ≡ false
unfolding path_pattern some_wildcard next bracket_end find_close
wildcard = refl

recursive_stars : path_pattern_recursive (codes "a**") ≡ true
unfolding path_pattern_recursive consecutive_stars next
recursive_stars = refl

not_self_matching : path_pattern_self_matching (codes "**") ≡ false
unfolding path_pattern_self_matching consecutive_stars next
not_self_matching = refl

match_no_brackets-accepts_example :
    match_no_brackets 7 (codes "f*.t*?") (codes "foo.txt")
    ≡ accepts (codes "f*.t*?") (codes "foo.txt")
match_no_brackets-accepts_example = match_no_brackets-accepts (codes "f*.t*?") (codes "foo.txt")

match-accepts_terms_example :
    match 8 (codes "*[a-c]*") (codes "foo.cxx")
    ≡ accepts_terms (terms 8 (codes "*[a-c]*")) (codes "foo.cxx")
match-accepts_terms_example = match-accepts_terms (codes "*[a-c]*") (codes "foo.cxx")

path_match-as_directory_example :
    path_match (as_directory true (codes "foo")) (as_directory true (codes "f[a-o]*"))
    ≡ (same_kind true true && accepts_terms (terms 8 (codes "f[a-o]*")) (codes "foo"))
unfolding trailing_separator
path_match-as_directory_example =
    path_match-as_directory true true (codes "foo") (codes "f[a-o]*") refl refl
