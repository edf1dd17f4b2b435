-- ===== src/Path/Canonical.antt =====
-- The normal form of an absolute path.
use libbutl.Prelude.{
  Bool, true, false, not, ◌||◌, inl, inr, List, [], ◌∷◌, ◌++◌, ◌≡◌, Option-cases, refl, sym, ap,
  ◌∙◌, Bytes, is_empty, All, All-append, append-nil, append_assoc, arith, Bool-cases, reverse,
}
use mathlib.Core.Path.{subst}
use mathlib.Core.List.{reverse-cons}
use libbutl.Path.Traits.{is_separator, absolute, normalized, normalized_loop}
use libbutl.Path.Data.{BasicPath}
use libbutl.Path.Normalize.{components, collapse, join, normalize, normal_path}
use libbutl.Path.Collapse.{stack_ok, reduced, parent_first, Full}
use libbutl.Path.Split.{IsName}
use libbutl.Path.Shape.{
  IsPath, IsTrimmed, IsTrimmed-IsPath, nothing, just_root, names, shape, stack-reverse, join-Full,
}
use libbutl.Path.Prefix.{normalized_loop-name}
use libbutl.Path.Fixed.{Ordinary}
use libbutl.Path.Idempotent.{normalize_again}
use libbutl.Path.Normal.{Collapsed, collapsed, to_directory, normalize-some, normalize-none}

normalized_loop-join :
    (p c t : Bytes)
    → IsName c
    → absolute t ≡ false
    → Ordinary (p ++ c)
    → normalized_loop [] t ≡ true
    → normalized_loop p (c ++ b'/' ∷ t) ≡ true
unfolding normalized_loop
normalized_loop-join p [] t n a o k =
    let e : Ordinary p = subst Ordinary (append-nil p) o in rw a (ground (arith, e, k))
normalized_loop-join p (d ∷ c) t n a o k =
    let e : is_separator d ≡ false = ground (arith, n) in
    rw e (
      normalized_loop-join (p ++ d ∷ []) c t (ground (arith, n)) a
        (subst Ordinary (sym (append_assoc p (d ∷ []) c)) o) k)

absolute-join-Full :
    (c : Bytes) (cs : List Bytes) → Full c → IsName c → absolute (join (c ∷ cs)) ≡ false
unfolding join
absolute-join-Full [] cs f n = cc
absolute-join-Full (x ∷ c) [] f n = ground (arith, n)
absolute-join-Full (x ∷ c) (d ∷ cs) f n = ground (arith, n)

normalized-join :
    (c : Bytes) (cs : List Bytes)
    → IsName c
    → All Full cs
    → All IsName cs
    → All Ordinary (c ∷ cs)
    → normalized (join (c ∷ cs)) ≡ true
unfolding join normalized
normalized-join c [] n f m o = normalized_loop-name [] c n ∙ (let e = o.0 in ground (arith, e))
normalized-join c (d ∷ cs) n f m o =
    normalized_loop-join [] c (join (d ∷ cs)) n (absolute-join-Full d cs (f.0) (m.0)) (o.0)
      (normalized-join d cs (m.0) (f.1) (m.1) (o.1))

-- Nothing above the root is left.
pub stack-Ordinary :
    (r : List Bytes)
    → stack_ok true r ≡ true
    → reduced r ≡ true
    → All Ordinary r × (parent_first r ≡ false)
stack-Ordinary [] s k = cc
stack-Ordinary ([] ∷ []) s k = ((refl, tt), refl)
stack-Ordinary ((c ∷ d) ∷ []) s k = ground (arith, s)
stack-Ordinary (d ∷ e ∷ t) s k =
    let (o, p) = stack-Ordinary (e ∷ t) (ground (arith, s)) (ground (arith, k)) in
    ((ground (arith, k, p), o), ground (arith, k, p))

All-reverse : (P : Bytes → Type 0) (r : List Bytes) → All P r → All P (reverse r)
All-reverse P [] a = tt
All-reverse P (c ∷ r) a =
    subst (All P) (sym (reverse-cons c r))
      (All-append P (reverse r) (c ∷ []) (All-reverse P r (a.1)) (a.0, tt))

stack-normalized :
    (h : Bytes) (t : List Bytes)
    → stack_ok true (h ∷ t) ≡ true
    → All IsName (h ∷ t)
    → reduced (h ∷ t) ≡ true
    → normalized (join (reverse (h ∷ t))) ≡ true
stack-normalized h t s n k =
    let (c, cs, p, x, y, z) = stack-reverse true h t s n in
    let o = All-reverse Ordinary (h ∷ t) ((stack-Ordinary (h ∷ t) s k).0) in
    ap (λ r. normalized (join r)) p ∙ normalized-join c cs x y z (subst (All Ordinary) p o)

normal_path-path :
    (tsep abs ce : Bool) (s : Bytes) → is_empty s ≡ false → (normal_path tsep abs ce s).path ≡ s
unfolding normal_path
normal_path-path true abs ce s f = rw f refl
normal_path-path false abs ce s f = refl

normal_path-normalized :
    (tsep ce : Bool) (r : List Bytes)
    → Collapsed true tsep r
    → normalized (normal_path tsep true ce (join (reverse r))).path ≡ true
unfolding normal_path join normalized normalized_loop
normal_path-normalized tsep ce r c = elim (shape true r c.stack) [
  | nothing e a ↦ cc
  | just_root e a ↦
      let k : tsep ≡ true = elim c.ended [ inl k ↦ k | inr (h, t, x, y, z) ↦ cc ] in rw (e, k) refl
  | names h t e f ↦
      subst (λ x. normalized (normal_path tsep true ce (join (reverse x))).path ≡ true) (sym e)
        (ap normalized (normal_path-path tsep true ce (join (reverse (h ∷ t))) (join-Full h t f))
          ∙ stack-normalized h t (subst (λ x. stack_ok true x ≡ true) e c.stack)
              (subst (All IsName) e c.separated) (subst (λ x. reduced x ≡ true) e c.is_reduced))
]

pub absolute-full : (s : Bytes) → absolute s ≡ true → is_empty s ≡ false
absolute-full [] h = cc
absolute-full (c ∷ s) h = refl

normalize-normalized :
    (p q : BasicPath) (cur_empty : Bool)
    → IsPath p
    → absolute p.path ≡ true
    → normalize p cur_empty ≡ inr q
    → normalized q.path ≡ true
normalize-normalized p q ce v a e = elim (Bool-cases (is_empty p.path)) [
  | inl h ↦ (let no : true ≡ false = sym h ∙ absolute-full p.path a in cc)
  | inr h ↦ elim (Option-cases (collapse (absolute p.path) [] (components p.path))) [
    | inl k ↦ (let g : inl p.path ≡ inr q = sym (normalize-none p ce v h k) ∙ e in cc)
    | inr (r, k) ↦
        let c = subst (λ b. Collapsed b (to_directory p) r) a (collapsed p r v h k) in
        let g : inr (normal_path (to_directory p) (absolute p.path) ce (join (reverse r))) ≡ inr q =
          sym (normalize-some p ce r v h k) ∙ e in
        let s : normal_path (to_directory p) (absolute p.path) ce (join (reverse r)) ≡ q = cc in
        ap (λ x. normalized x.path) (sym s)
        ∙ ap (λ b. normalized (normal_path (to_directory p) b ce (join (reverse r))).path) a
        ∙ normal_path-normalized (to_directory p) ce r c
  ]
]

-- Normalizing a trimmed path gives a trimmed one, and normalizing that again changes nothing. What
-- an absolute path gives is accepted by `normalized`.
pub normalize-normalize :
    (p q : BasicPath) (cur_empty : Bool)
    → IsTrimmed p
    → normalize p cur_empty ≡ inr q
    → IsTrimmed q
      × (normalize q cur_empty ≡ inr q)
      × (not (absolute p.path) || normalized q.path ≡ true)
normalize-normalize p q ce v e =
    let (t, again) = normalize_again p q ce v e in
    (
      t,
      again,
      elim (Bool-cases (absolute p.path)) [
        | inl a ↦
            (let n = normalize-normalized p q ce (IsTrimmed-IsPath p v) a e in ground (arith, a, n))
        | inr a ↦ ground (arith, a)
      ],
    )
