-- ===== src/PrefixMap/Rejected.antt =====
-- What `find_sup` and `find_sup_if` find.
use libbutl.Prelude.{
  ℕ, zero, suc, ◌<◌, Bool, false, none, some, List, [], ◌∷◌, ◌≡◌, refl, sym, ap, ◌∙◌, Bytes, length,
  arith, Option-cases, Bool-cases, inl, inr, ◌==◌,
}
use libbutl.PrefixMap.Keys.{shorten, before_last}
use libbutl.PrefixMap.Search.{find, find_sup_if, sup_if_loop}

length-before_last : (d : ℕ) (s t : Bytes) → before_last d s ≡ some t → length t < length s
unfolding before_last
length-before_last d [] t h = cc
length-before_last d (c ∷ s) t h = elim (Option-cases (before_last d s)) [
  | inr (x, e) ↦
      let q : before_last d (c ∷ s) ≡ some (c ∷ x) = rw e refl in
      let g : some (c ∷ x) ≡ some t = sym q ∙ h in
      let p : c ∷ x ≡ t = cc in omega (arith, length-before_last d s x e, ap length p)
  | inl e ↦ elim (Bool-cases (c == d)) [
    | inl f ↦
        let q : before_last d (c ∷ s) ≡ some [] = rw (e, f) refl in
        let g : some [] ≡ some t = sym q ∙ h in let p : [] ≡ t = cc in omega (arith, ap length p)
    | inr f ↦
        let q : before_last d (c ∷ s) ≡ none = rw (e, f) refl in
        let no : none ≡ some t = sym q ∙ h in cc
  ]
]

-- The prefixes of a key end with the empty one.
data Shorter (d : ℕ) (p : Bytes) : Type 0 where
  no_prefix : p ≡ [] → shorten d p ≡ none → Shorter d p
  shorter : (q : Bytes) → length q < length p → shorten d p ≡ some q → Shorter d p

key_cases : (d : ℕ) (p : Bytes) → Shorter d p
unfolding shorten
key_cases d [] = no_prefix refl refl
key_cases d (c ∷ s) = elim (Option-cases (before_last d (c ∷ s))) [
  | inl e ↦ shorter [] (omega arith) (rw (e, shorten) refl)
  | inr (t, e) ↦ shorter t (length-before_last d (c ∷ s) t e) (rw (e, shorten) refl)
]

module _ {V : Type 0} (d : ℕ) (m : List (Bytes × V)) (pred : Bytes × V → Bool) (e : Bytes × V)
    (rejected : (x : Bytes × V) → pred x ≡ false) (root : find d m [] ≡ some e) where
  sup_if_loop-rejected :
      (f : ℕ) (p : Bytes) → length p < f → sup_if_loop d m pred f (find d m p) p ≡ some e
  unfolding sup_if_loop
  sup_if_loop-rejected zero p h = absurd (omega (arith, h))
  sup_if_loop-rejected (suc f) p h = elim (key_cases d p) [
    | no_prefix n s ↦ rw (s, sup_if_loop) (ap (find d m) n ∙ root)
    | shorter q n s ↦
        let rest = sup_if_loop-rejected f q (omega (arith, h, n)) in
        elim (Option-cases (find d m q)) [
          | inl g ↦ rw (s, g, sup_if_loop) (ap (λ i. sup_if_loop d m pred f i q) (sym g) ∙ rest)
          | inr (x, g) ↦
              rw (s, g, rejected x, sup_if_loop)
                (ap (λ i. sup_if_loop d m pred f i q) (sym g) ∙ rest)
        ]
  ]

  -- If the predicate accepts no entry and the map has an entry for the empty key, find_sup_if
  -- returns that entry for every key, though the predicate rejects it.
  pub find_sup_if-rejected : (k : Bytes) → find_sup_if d m pred k ≡ some e
  unfolding find_sup_if
  find_sup_if-rejected k =
      let loop = sup_if_loop-rejected (suc (length k)) k (omega arith) in
      elim (Option-cases (find d m k)) [
        | inl g ↦
            rw (g, find_sup_if) (ap (λ i. sup_if_loop d m pred (suc (length k)) i k) (sym g) ∙ loop)
        | inr (x, g) ↦
            rw (g, find_sup_if)
              (rw (rejected x) (ap (λ i. sup_if_loop d m pred (suc (length k)) i k) (sym g) ∙ loop))
      ]
