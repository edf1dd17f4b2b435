-- ===== src/Path/Normal.antt =====
-- `normalize` keeps what a path denotes.
use libbutl.Prelude.{
  Bool, true, false, not, ◌||◌, ◌⊎◌, inl, inr, none, some, List, [], ◌∷◌, ◌≡◌, refl, sym, ap, ◌∙◌,
  Bytes, is_empty, All, Bool-cases, Option-cases, reverse,
}
use mathlib.Core.Path.{subst}
use libbutl.Path.Traits.{absolute, ends_with_separator}
use libbutl.Path.Data.{
  BasicPath, path_of, body, absent, slash, in_path, is_absent, TrailingSeparator,
}
use libbutl.Path.Normalize.{
  components, components_loop, collapse, join, normalize, normal_path, ends_special, is_special,
}
use libbutl.Path.Collapse.{
  stack_ok, Full, collapse-stack_ok, collapse-All, collapse-last_of, last_of, reduced,
  collapse-reduced,
}
use libbutl.Path.Split.{IsName, components-absolute, components-relative}
use libbutl.Path.Shape.{
  IsPath, nothing, just_root, names, shape, components-join_stack, join-Full, components_loop-last,
  components-body, last_component,
}
use libbutl.Path.Resolve.{
  Location, walk, resolve, resolve_full, resolve_result, walk_back, walk_option, walk-reverse,
  components-walk,
}

-- Whether the path that is normalized gets a separator at its end.
abbrev pub to_directory : BasicPath → Bool
to_directory p = not (is_absent p.tsep) || ends_special (components p.path)

-- What is left of a path that can be normalized. Its last component is a name, unless it gets a
-- separator.
pub record Collapsed (abs tsep : Bool) (r : List Bytes) : Type 0 where
  pub stack : stack_ok abs r ≡ true
  pub separated : All IsName r
  pub is_reduced : reduced r ≡ true
  pub ended :
      (tsep ≡ true)
      ⊎ ((h : Bytes) × (t : List Bytes) × (r ≡ h ∷ t)
          × (is_empty h ≡ false)
          × (is_special h ≡ false))

last_of_special :
    (c : Bytes) (cs : List Bytes)
    → ends_special (c ∷ cs) ≡ false
    → is_special (last_of c cs) ≡ false
last_of_special c [] h = h
last_of_special c (d ∷ cs) h = last_of_special d cs h

-- The components of a path have been collapsed.
collapse-components :
    (s : Bytes) (r : List Bytes)
    → is_empty s ≡ false
    → collapse (absolute s) [] (components s) ≡ some r
    → (stack_ok (absolute s) r ≡ true) × All IsName r × (reduced r ≡ true)
unfolding collapse
collapse-components s r h e = elim (Bool-cases (absolute s)) [
  | inl a ↦
      let (cs, p, f, n) = components-absolute s a in
      let g : collapse true ([] ∷ []) cs ≡ some r =
        ap (collapse true []) (sym p) ∙ ap (λ b. collapse b [] (components s)) (sym a) ∙ e in
      rw a (
        collapse-stack_ok true ([] ∷ []) cs r refl f g,
        collapse-All IsName true ([] ∷ []) cs r (refl, tt) n g,
        collapse-reduced true ([] ∷ []) cs r refl f g,
      )
  | inr a ↦
      let (f, n) = components-relative s a h in
      let g : collapse false [] (components s) ≡ some r =
        ap (λ b. collapse b [] (components s)) (sym a) ∙ e in
      rw a (
        collapse-stack_ok false [] (components s) r refl f g,
        collapse-All IsName false [] (components s) r tt n g,
        collapse-reduced false [] (components s) r refl f g,
      )
]

last_kept :
    (abs : Bool) (cs r : List Bytes)
    → Full (last_component cs)
    → ends_special cs ≡ false
    → collapse abs [] cs ≡ some r
    → (h : Bytes) × (t : List Bytes) × (r ≡ h ∷ t) × (is_empty h ≡ false) × (is_special h ≡ false)
unfolding last_component
last_kept abs [] r f k e = cc
last_kept abs (c ∷ cs) r f k e =
    let (t, g) = collapse-last_of abs [] c cs r k e in
    (last_of c cs, t, g, f, last_of_special c cs k)

components-ended :
    (abs : Bool) (s : Bytes) (r : List Bytes)
    → is_empty s ≡ false
    → ends_with_separator s ≡ false
    → ends_special (components s) ≡ false
    → collapse abs [] (components s) ≡ some r
    → (h : Bytes) × (t : List Bytes) × (r ≡ h ∷ t) × (is_empty h ≡ false) × (is_special h ≡ false)
unfolding components components_loop
components-ended abs s r h e k f =
    let full = components_loop-last (some []) s h e in last_kept abs (components s) r full k f

ended_of :
    (s : Bytes) (t : TrailingSeparator) (r : List Bytes)
    → IsPath (path_of s t)
    → is_empty s ≡ false
    → collapse (absolute s) [] (components s) ≡ some r
    → ((not (is_absent t) || ends_special (components s)) ≡ true)
      ⊎ ((h : Bytes) × (t : List Bytes) × (r ≡ h ∷ t)
          × (is_empty h ≡ false)
          × (is_special h ≡ false))
ended_of s slash r v h e = inl refl
ended_of s in_path r v h e = inl refl
ended_of s absent r v h e = elim (Bool-cases (ends_special (components s))) [
  | inl k ↦ inl k
  | inr k ↦ inr (components-ended (absolute s) s r h v k e)
]

pub collapsed :
    (p : BasicPath) (r : List Bytes)
    → IsPath p
    → is_empty p.path ≡ false
    → collapse (absolute p.path) [] (components p.path) ≡ some r
    → Collapsed (absolute p.path) (to_directory p) r
collapsed p r v h e =
    let (x, y, z) = collapse-components p.path r h e in
    record { stack = x; separated = y; is_reduced = z; ended = ended_of p.path p.tsep r v h e }

resolve-joined :
    (l : Location) (abs : Bool) (r : List Bytes)
    → stack_ok abs r ≡ true
    → All IsName r
    → is_empty (join (reverse r)) ≡ false
    → resolve l (join (reverse r)) ≡ walk_back l r
unfolding join
resolve-joined l abs [] h n e = cc
resolve-joined l abs (d ∷ t) h n e =
    resolve_full l _ e ∙ ap (walk l) (components-join_stack abs d t h n) ∙ walk-reverse l (d ∷ t)

resolve-normal_path :
    (l : Location) (abs tsep ce : Bool) (r : List Bytes)
    → Collapsed abs tsep r
    → resolve l ((normal_path tsep abs ce (join (reverse r))).path) ≡ walk_back l r
unfolding normal_path resolve walk walk_back components components_loop join
resolve-normal_path l abs tsep ce r c = elim (shape abs r c.stack) [
  | names h t e f ↦
      let full : is_empty (join (reverse r)) ≡ false =
        subst (λ x. is_empty (join (reverse x)) ≡ false) (sym e) (join-Full h t f) in
      let found = resolve-joined l abs r c.stack c.separated full in
      elim (Bool-cases tsep) [ inl k ↦ rw (k, full) found | inr k ↦ rw k found ]
  | nothing e a ↦
      let k : tsep ≡ true = elim c.ended [ inl k ↦ k | inr (h, t, x, y, z) ↦ cc ] in
      elim (Bool-cases ce) [ inl f ↦ rw (e, a, k, f) refl | inr f ↦ rw (e, a, k, f) refl ]
  | just_root e a ↦
      let k : tsep ≡ true = elim c.ended [ inl k ↦ k | inr (h, t, x, y, z) ↦ cc ] in
      rw (e, a, k) refl
]

pub normalize-some :
    (p : BasicPath) (ce : Bool) (r : List Bytes)
    → IsPath p
    → is_empty p.path ≡ false
    → collapse (absolute p.path) [] (components p.path) ≡ some r
    → normalize p ce ≡ inr (normal_path (to_directory p) (absolute p.path) ce (join (reverse r)))
unfolding normalize
normalize-some p ce r v h e =
    let f : collapse (absolute p.path) [] (components (body p)) ≡ some r =
      ap (collapse (absolute p.path) []) (components-body p v) ∙ e in
    rw h (
      rw (f, normalize)
        (ap
          (λ cs. inr (
            normal_path (not (is_absent p.tsep) || ends_special cs) (absolute p.path) ce
              (join (reverse r))))
          (components-body p v)))

pub normalize-none :
    (p : BasicPath) (ce : Bool)
    → IsPath p
    → is_empty p.path ≡ false
    → collapse (absolute p.path) [] (components p.path) ≡ none
    → normalize p ce ≡ inl p.path
unfolding normalize
normalize-none p ce v h e = rw (h, components-body p v) (rw (e, normalize) refl)

pub normalize-empty : (p : BasicPath) (ce : Bool) → is_empty p.path ≡ true → normalize p ce ≡ inr p
unfolding normalize
normalize-empty p ce h = rw h refl

-- The result of normalizing a path denotes what the path denotes, seen from any place in a tree of
-- directories without links.
pub resolve-normalize_result :
    (l : Location) (p : BasicPath) (cur_empty : Bool)
    → IsPath p
    → resolve_result l (normalize p cur_empty) ≡ resolve l p.path
resolve-normalize_result l p ce v = elim (Bool-cases (is_empty p.path)) [
  | inl h ↦ ap (resolve_result l) (normalize-empty p ce h)
  | inr h ↦
      let walked = components-walk l p.path h ∙ sym (resolve_full l p.path h) in
      elim (Option-cases (collapse (absolute p.path) [] (components p.path))) [
        | inl e ↦
            ap (resolve_result l) (normalize-none p ce v h e) ∙ sym (ap (walk_option l) e) ∙ walked
        | inr (r, e) ↦
            ap (resolve_result l) (normalize-some p ce r v h e)
            ∙ resolve-normal_path l (absolute p.path) (to_directory p) ce r (collapsed p r v h e)
            ∙ sym (ap (walk_option l) e)
            ∙ walked
      ]
]
