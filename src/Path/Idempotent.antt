-- ===== src/Path/Idempotent.antt =====
-- `normalize` leaves a path that it returns as it is.
use libbutl.Prelude.{
  Bool, true, false, ◌⊎◌, inl, inr, some, List, [], ◌∷◌, ◌≡◌, refl, sym, ap, ◌∙◌, Bytes, is_empty,
  All, append-nil, Bool-cases, Option-cases, reverse,
}
use mathlib.Core.Path.{subst}
use libbutl.Path.Traits.{absolute, ends_with_separator}
use libbutl.Path.Data.{BasicPath, path_of, absent, slash, pop_separator}
use libbutl.Path.Normalize.{
  components, components_loop, collapse, join, normalize, normal_path, ends_special, is_special,
}
use libbutl.Path.Collapse.{stack_ok, reduced, collapse-again, is_empty_nil}
use libbutl.Path.Split.{IsName}
use libbutl.Path.Shape.{
  IsTrimmed, IsTrimmed-IsPath, nothing, just_root, names, shape, components-join_stack, join-Full,
}
use libbutl.Path.Normal.{
  Collapsed, collapsed, to_directory, normalize-some, normalize-none, normalize-empty,
}
use libbutl.Path.Joined.{absolute-join, ends_with-join, ends_special-reverse}

-- The normal form of a path, written out again.
components-again :
    (abs : Bool) (d : Bytes) (t : List Bytes)
    → stack_ok abs (d ∷ t) ≡ true
    → All IsName (d ∷ t)
    → reduced (d ∷ t) ≡ true
    → is_empty (join (reverse (d ∷ t))) ≡ false
    → collapse (absolute (join (reverse (d ∷ t)))) [] (components (join (reverse (d ∷ t))))
      ≡ some (d ∷ t)
unfolding collapse
components-again abs d t h n k f =
    rw (absolute-join abs d t h n f, components-join_stack abs d t h n)
      (ap (collapse abs []) (sym (append-nil (reverse (d ∷ t)))) ∙ collapse-again abs (d ∷ t) [] k)

pub normal_path-IsTrimmed :
    (abs tsep ce : Bool) (r : List Bytes)
    → Collapsed abs tsep r
    → IsTrimmed (normal_path tsep abs ce (join (reverse r)))
unfolding normal_path join
normal_path-IsTrimmed abs tsep ce r c = elim (shape abs r c.stack) [
  | nothing e a ↦
      let k : tsep ≡ true = elim c.ended [ inl k ↦ k | inr (h, t, x, y, z) ↦ cc ] in
      elim (Bool-cases ce) [ inl f ↦ rw (e, a, k, f) refl | inr f ↦ rw (e, a, k, f) (refl, refl) ]
  | just_root e a ↦
      let k : tsep ≡ true = elim c.ended [ inl k ↦ k | inr (h, t, x, y, z) ↦ cc ] in
      rw (e, a, k) refl
  | names h t e f ↦
      let full : is_empty (join (reverse r)) ≡ false =
        subst (λ x. is_empty (join (reverse x)) ≡ false) (sym e) (join-Full h t f) in
      let name = subst (All IsName) e c.separated in
      let last : ends_with_separator (join (reverse r)) ≡ false =
        subst (λ x. ends_with_separator (join (reverse x)) ≡ false) (sym e)
          (ends_with-join h t f (name.0)) in
      elim (Bool-cases tsep) [ inl k ↦ rw (k, full) (full, last) | inr k ↦ rw k last ]
]

normal_full :
    (tsep abs ce : Bool) (h : Bytes) (t : List Bytes)
    → stack_ok abs (h ∷ t) ≡ true
    → All IsName (h ∷ t)
    → reduced (h ∷ t) ≡ true
    → is_empty h ≡ false
    → (tsep ≡ true) ⊎ (is_special h ≡ false)
    → normalize (normal_path tsep abs ce (join (reverse (h ∷ t)))) ce
      ≡ inr (normal_path tsep abs ce (join (reverse (h ∷ t))))
unfolding normal_path
normal_full tsep abs ce h t s n k f o =
    let full = join-Full h t f in
    let a = absolute-join abs h t s n full in
    let again = components-again abs h t s n k full in
    let back = components-join_stack abs h t s n in
    elim (Bool-cases tsep) [
      | inl e ↦
          rw (e, full)
            (normalize-some (path_of (join (reverse (h ∷ t))) slash) ce (h ∷ t) full full again
              ∙ rw (full, normal_path) refl)
      | inr e ↦
          let sp : is_special h ≡ false = elim o [ inl g ↦ cc | inr g ↦ g ] in
          let u : ends_special (components (join (reverse (h ∷ t)))) ≡ false =
            ap ends_special back ∙ ends_special-reverse h t ∙ sp in
          rw e (
            normalize-some (path_of (join (reverse (h ∷ t))) absent) ce (h ∷ t)
              (ends_with-join h t f (n.0)) full again
            ∙ rw (u, normal_path) refl)
    ]

normal_slash :
    (abs tsep ce : Bool)
    → tsep ≡ true
    → normalize (normal_path tsep abs ce []) ce ≡ inr (normal_path tsep abs ce [])
unfolding normalize normal_path components components_loop collapse join pop_separator
normal_slash true true ce h = refl
normal_slash false true true h = refl
normal_slash false true false h = refl
normal_slash abs false ce h = cc

-- Nothing but a separator is left.
normal_empty :
    (r : List Bytes) (abs tsep ce : Bool)
    → is_empty (join (reverse r)) ≡ true
    → tsep ≡ true
    → normalize (normal_path tsep abs ce (join (reverse r))) ce
      ≡ inr (normal_path tsep abs ce (join (reverse r)))
normal_empty r abs tsep ce h k =
    subst (λ x. normalize (normal_path tsep abs ce x) ce ≡ inr (normal_path tsep abs ce x))
      (sym (is_empty_nil (join (reverse r)) h)) (normal_slash abs tsep ce k)

normalize-normal_path :
    (abs tsep ce : Bool) (r : List Bytes)
    → Collapsed abs tsep r
    → normalize (normal_path tsep abs ce (join (reverse r))) ce
      ≡ inr (normal_path tsep abs ce (join (reverse r)))
unfolding join
normalize-normal_path abs tsep ce r c = elim (shape abs r c.stack) [
  | nothing e a ↦
      normal_empty r abs tsep ce (ap (λ x. is_empty (join (reverse x))) e)
        (elim c.ended [ inl k ↦ k | inr (h, t, x, y, z) ↦ cc ])
  | just_root e a ↦
      normal_empty r abs tsep ce (ap (λ x. is_empty (join (reverse x))) e)
        (elim c.ended [ inl k ↦ k | inr (h, t, x, y, z) ↦ cc ])
  | names h t e f ↦
      let o : (tsep ≡ true) ⊎ (is_special h ≡ false) = elim c.ended [
        | inl k ↦ inl k
        | inr (x, u, p, y, z) ↦ inr (let g : h ∷ t ≡ x ∷ u = sym e ∙ p in cc)
      ] in
      subst
        (λ x.
          normalize (normal_path tsep abs ce (join (reverse x))) ce
          ≡ inr (normal_path tsep abs ce (join (reverse x))))
        (sym e)
        (normal_full tsep abs ce h t (subst (λ x. stack_ok abs x ≡ true) e c.stack)
          (subst (All IsName) e c.separated) (subst (λ x. reduced x ≡ true) e c.is_reduced) f o)
]

pub normalize_again :
    (p q : BasicPath) (cur_empty : Bool)
    → IsTrimmed p
    → normalize p cur_empty ≡ inr q
    → IsTrimmed q × (normalize q cur_empty ≡ inr q)
normalize_again p q ce v e =
    let u = IsTrimmed-IsPath p v in
    elim (Bool-cases (is_empty p.path)) [
      | inl h ↦
          let g : inr p ≡ inr q = sym (normalize-empty p ce h) ∙ e in
          let s : p ≡ q = cc in
          subst (λ x. IsTrimmed x × (normalize x ce ≡ inr x)) s (v, normalize-empty p ce h)
      | inr h ↦ elim (Option-cases (collapse (absolute p.path) [] (components p.path))) [
        | inl k ↦ (let g : inl p.path ≡ inr q = sym (normalize-none p ce u h k) ∙ e in cc)
        | inr (r, k) ↦
            let c = collapsed p r u h k in
            let g : inr (normal_path (to_directory p) (absolute p.path) ce (join (reverse r)))
                ≡ inr q =
              sym (normalize-some p ce r u h k) ∙ e in
            let s : normal_path (to_directory p) (absolute p.path) ce (join (reverse r)) ≡ q = cc in
            subst (λ x. IsTrimmed x × (normalize x ce ≡ inr x)) s
              (
                normal_path-IsTrimmed (absolute p.path) (to_directory p) ce r c,
                normalize-normal_path (absolute p.path) (to_directory p) ce r c,
              )
      ]
    ]
