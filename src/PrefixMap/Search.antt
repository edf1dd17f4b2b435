-- ===== src/PrefixMap/Search.antt =====
-- find_sup and find_sup_if of libbutl/prefix-map.txx. A map is its entries; none is past the end.
use libbutl.Prelude.{
  ℕ, zero, suc, Bool, Option, none, some, List, [], ◌∷◌, if◌then◌else◌, Bytes, length,
}
use libbutl.PrefixMap.Keys.{compare, equivalent, shorten}

module _ {V : Type 0} (d : ℕ) (m : List (Bytes × V)) where
  abbrev pub find_in : List (Bytes × V) → Bytes → Option (Bytes × V)
  find_in [] k = none
  find_in (e ∷ es) k = if equivalent (compare d e.0 k) then some e else find_in es k

  -- `find`.
  unfoldable pub find : Bytes → Option (Bytes × V)
  find k = find_in m k

  -- The loops over the prefixes of `p`, on fuel. `i` is what was found for `p`.
  unfoldable pub sup_loop : ℕ → Bytes → Option (Bytes × V)
  sup_loop zero p = none
  sup_loop (suc f) p = elim (shorten d p) [
    | none ↦ none
    | some q ↦ elim (find q) [ some e ↦ some e | none ↦ sup_loop f q ]
  ]

  unfoldable pub find_sup : Bytes → Option (Bytes × V)
  find_sup k = elim (find k) [ some e ↦ some e | none ↦ sup_loop (suc (length k)) k ]

  unfoldable pub sup_if_loop :
      (Bytes × V → Bool) → ℕ → Option (Bytes × V) → Bytes → Option (Bytes × V)
  sup_if_loop pred zero i p = none
  sup_if_loop pred (suc f) i p = elim (shorten d p) [
    | none ↦ i
    | some q ↦ elim (find q) [
      | none ↦ sup_if_loop pred f none q
      | some e ↦ if pred e then some e else sup_if_loop pred f (some e) q
    ]
  ]

  unfoldable pub find_sup_if : (Bytes × V → Bool) → Bytes → Option (Bytes × V)
  find_sup_if pred k = elim (find k) [
    | none ↦ sup_if_loop pred (suc (length k)) none k
    | some e ↦ if pred e then some e else sup_if_loop pred (suc (length k)) (some e) k
  ]
