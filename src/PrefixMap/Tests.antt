-- ===== src/PrefixMap/Tests.antt =====
-- Runs of the prefix map, and the theorem at a concrete input.
use libbutl.Prelude.{ℕ, ◌≡◌, refl, some, List, [], ◌∷◌, Bytes, codes, false}
use libbutl.PrefixMap.Keys.{compare, prefix, shorten, before_last}
use libbutl.PrefixMap.Search.{find, find_sup, find_sup_if, sup_loop}
use libbutl.PrefixMap.Rejected.{find_sup_if-rejected}

abbrev entries : List (Bytes × ℕ)
entries = ([], 0) ∷ (codes "foo", 1) ∷ (codes "foo/bar", 2) ∷ []

found_sup : find_sup b'/' entries (codes "foo/barx/baz") ≡ some (codes "foo", 1)
unfolding find_sup find sup_loop shorten before_last compare
found_sup = refl

no_prefix_of_name : prefix b'/' (codes "foo") (codes "foobar") ≡ false
unfolding prefix compare
no_prefix_of_name = refl

root_entry : find b'/' entries [] ≡ some ([], 0)
unfolding find compare
root_entry = refl

find_sup_if-rejected_example : find_sup_if b'/' entries (λ e. false) (codes "foo/x") ≡ some ([], 0)
find_sup_if-rejected_example =
    find_sup_if-rejected b'/' entries (λ e. false) ([], 0) (λ x. refl) root_entry (codes "foo/x")
