-- ===== src/Path/Abnormal.antt =====
-- `normalized` and `abnormalities` of path_traits.
use libbutl.Prelude.{
  true, not, ◌&&◌, ◌||◌, inl, inr, [], ◌∷◌, ◌++◌, ◌≡◌, ap, ◌∙◌, Bytes, arith, Bool-cases,
}
use libbutl.Path.Traits.{
  is_separator, absolute, current, parent, normalized, normalized_loop, Abnormality, no_abnormality,
  none_of, add_component, abnormalities, abnormalities_loop,
}
use libbutl.Path.Collapse.{parent-current}

none_of-add_component :
    (r : Abnormality) (p : Bytes)
    → none_of (add_component r p) ≡ none_of r && not (parent p || current p)
none_of-add_component r p = ground (arith, parent-current p)

none_of-abnormalities_loop :
    (r : Abnormality) (p s : Bytes)
    → none_of (abnormalities_loop r p s) ≡ none_of r && normalized_loop p s
unfolding abnormalities_loop normalized_loop
none_of-abnormalities_loop r p [] = none_of-add_component r p
none_of-abnormalities_loop r p (c ∷ s) = elim (Bool-cases (is_separator c)) [
  | inr e ↦ rw e (none_of-abnormalities_loop r (p ++ c ∷ []) s)
  | inl e ↦ elim (Bool-cases (absolute s)) [
    | inl a ↦
        rw (e, a)
          (none_of-abnormalities_loop (add_component (record r { separators = true }) p) [] s
            ∙ ap (λ b. b && normalized_loop [] s)
                (none_of-add_component (record r { separators = true }) p)
            ∙ ground arith)
    | inr a ↦
        rw (e, a)
          (none_of-abnormalities_loop (add_component r p) [] s
            ∙ ap (λ b. b && normalized_loop [] s) (none_of-add_component r p)
            ∙ ground arith)
  ]
]

-- A text has no abnormality exactly if `normalized` says so.
pub none_of-abnormalities : (s : Bytes) → none_of (abnormalities s) ≡ normalized s
unfolding abnormalities normalized
none_of-abnormalities s = none_of-abnormalities_loop no_abnormality [] s
