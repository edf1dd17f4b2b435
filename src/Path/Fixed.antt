-- ===== src/Path/Fixed.antt =====
-- `normalize` and `normalized` agree.
use libbutl.Prelude.{
  ℕ, Bool, true, false, not, ◌||◌, inl, inr, some, none, List, [], ◌∷◌, ◌++◌, ◌≡◌, refl, sym, ap,
  ◌∙◌, Bytes, is_empty, All, append-nil, append_assoc, arith, Bool-cases, reverse,
}
use mathlib.Core.Path.{subst}
use mathlib.Core.List.{reverse-reverse}
use libbutl.Path.Traits.{
  is_separator, absolute, current, parent, ends_with_separator, normalized, normalized_loop,
}
use libbutl.Path.Data.{
  BasicPath, path_of, absent, slash, in_path, is_absent, pop_separator, TrailingSeparator,
}
use libbutl.Path.Normalize.{
  components, components_loop, collapse, join, normalize, normal_path, ends_special, is_special,
}
use libbutl.Path.Collapse.{reverse-cons-append}
use libbutl.Path.Shape.{IsTrimmed, IsTrimmed-IsPath}
use libbutl.Path.Parts.{separator_is, root_is, body_cases}
use libbutl.Path.Normal.{normalize-some, normalize-empty, to_directory}

abbrev pub Ordinary : Bytes → Type 0
Ordinary c = is_special c ≡ false

components_loop-first :
    (o : Bytes) (s : Bytes)
    → (c : Bytes) × (cs : List Bytes) × (components_loop (some o) s ≡ c ∷ cs)
unfolding components_loop
components_loop-first p [] = (p, [], refl)
components_loop-first p (c ∷ s) = elim (Bool-cases (is_separator c)) [
  | inl e ↦ (p, components_loop none s, rw e refl)
  | inr e ↦ (let (d, ds, f) = components_loop-first (p ++ c ∷ []) s in (d, ds, rw e f))
]

join-again :
    (p t : Bytes) (cs : List Bytes)
    → (c : Bytes) × (ds : List Bytes) × (cs ≡ c ∷ ds)
    → join cs ≡ t
    → join (p ∷ cs) ≡ p ++ b'/' ∷ t
unfolding join
join-again p t cs (c, ds, e) f = rw e (ap (λ x. p ++ b'/' ∷ x) (ap join (sym e) ∙ f))

-- No separator at the start of a normalized rest.
skip_same :
    (s : Bytes)
    → absolute s ≡ false
    → is_empty s ≡ false
    → components_loop none s ≡ components_loop (some []) s
unfolding components_loop
skip_same [] a e = cc
skip_same (c ∷ s) a e = rw a refl

-- The components of a normalized text are ordinary and join to the text.
abbrev Kept : Bytes → Bytes → Type 0
Kept p s = (join (components_loop (some p) s) ≡ p ++ s) × All Ordinary (components_loop (some p) s)

Kept-after :
    (p s : Bytes) (c : ℕ)
    → is_separator c ≡ true
    → Ordinary p
    → absolute s ≡ false
    → is_empty s ≡ false
    → Kept [] s
    → Kept p (c ∷ s)
unfolding components_loop
Kept-after p s c e o a f (j, n) =
    rw (e, skip_same s a f)
      (
        join-again p s (components_loop (some []) s) (components_loop-first [] s) j
            ∙ ap (λ d. p ++ d ∷ s) (sym (separator_is c e)),
        (o, n),
      )

ends_with-tail :
    (c : ℕ) (s : Bytes)
    → is_separator c ≡ false
    → ends_with_separator (c ∷ s) ≡ false
    → ends_with_separator s ≡ false
ends_with-tail c [] k e = refl
ends_with-tail c (d ∷ s) k e = e

ends_with-full :
    (c : ℕ) (s : Bytes)
    → is_separator c ≡ true
    → ends_with_separator (c ∷ s) ≡ false
    → is_empty s ≡ false
ends_with-full c [] k e = (let no : true ≡ false = sym k ∙ e in cc)
ends_with-full c (d ∷ s) k e = refl

ends_with-next :
    (c : ℕ) (s : Bytes)
    → is_empty s ≡ false
    → ends_with_separator (c ∷ s) ≡ false
    → ends_with_separator s ≡ false
ends_with-next c [] f e = cc
ends_with-next c (d ∷ s) f e = e

kept : (p s : Bytes) → normalized_loop p s ≡ true → ends_with_separator s ≡ false → Kept p s
unfolding normalized_loop components_loop join
kept p [] h e = (sym (append-nil p), (ground (arith, h), tt))
kept p (c ∷ s) h e = elim (Bool-cases (is_separator c)) [
  | inr k ↦
      let g : normalized_loop (p ++ c ∷ []) s ≡ true = ground (arith, h, k) in
      let (j, n) = kept (p ++ c ∷ []) s g (ends_with-tail c s k e) in
      rw k (j ∙ append_assoc p (c ∷ []) s, n)
  | inl k ↦
      let f : is_empty s ≡ false = ends_with-full c s k e in
      let a : absolute s ≡ false = ground (arith, h, k) in
      let g : normalized_loop [] s ≡ true = ground (arith, h, k) in
      let o : Ordinary p = ground (arith, h, k) in
      Kept-after p s c k o a f (kept [] s g (ends_with-next c s f e))
]

collapse-Ordinary :
    (abs : Bool) (r cs : List Bytes) → All Ordinary cs → collapse abs r cs ≡ some (reverse cs ++ r)
unfolding collapse
collapse-Ordinary abs r [] o = refl
collapse-Ordinary abs r (c ∷ cs) o =
    let k : current c ≡ false = ground (arith, o.0) in
    let p : parent c ≡ false = ground (arith, o.0) in
    rw (k, p)
      (collapse-Ordinary abs (c ∷ r) cs (o.1) ∙ ap (λ x. some x) (sym (reverse-cons-append c cs r)))

ends_special-Ordinary : (cs : List Bytes) → All Ordinary cs → ends_special cs ≡ false
ends_special-Ordinary [] o = refl
ends_special-Ordinary (c ∷ []) o = o.0
ends_special-Ordinary (c ∷ d ∷ cs) o = ends_special-Ordinary (d ∷ cs) (o.1)

or_false : (b : Bool) → b || false ≡ b
or_false true = refl
or_false false = refl

normal_path-again :
    (s : Bytes) (t : TrailingSeparator) (abs ce tsep : Bool)
    → is_empty s ≡ false
    → IsTrimmed (path_of s t)
    → ends_with_separator s ≡ false
    → tsep ≡ not (is_absent t)
    → normal_path tsep abs ce s ≡ path_of s t
unfolding normal_path
normal_path-again s absent abs ce tsep f v w e = rw e refl
normal_path-again s slash abs ce tsep f v w e = rw (e, f) refl
normal_path-again s in_path abs ce tsep f v w e =
    (let no : true ≡ false = sym (ap ends_with_separator (root_is s v)) ∙ w in cc)

normalize_kept :
    (p : BasicPath) (ce : Bool)
    → IsTrimmed p
    → is_empty p.path ≡ false
    → ends_with_separator p.path ≡ false
    → normalized p.path ≡ true
    → normalize p ce ≡ inr p
unfolding normalized components
normalize_kept p ce v f w n =
    let (j, o) = kept [] p.path n w in
    let cs = components p.path in
    let k : collapse (absolute p.path) [] cs ≡ some (reverse cs) =
      collapse-Ordinary (absolute p.path) [] cs o ∙ ap (λ x. some x) (append-nil (reverse cs)) in
    let t : to_directory p ≡ not (is_absent p.tsep) =
      rw (ends_special-Ordinary cs o) (or_false (not (is_absent p.tsep))) in
    normalize-some p ce (reverse cs) (IsTrimmed-IsPath p v) f k
    ∙ ap (λ x. inr (normal_path (to_directory p) (absolute p.path) ce (join x)))
        (reverse-reverse cs)
    ∙ ap (λ x. inr (normal_path (to_directory p) (absolute p.path) ce x)) j
    ∙ ap inr (normal_path-again p.path p.tsep (absolute p.path) ce (to_directory p) f v w t)

-- `normalize` leaves a trimmed path as it is that `normalized` accepts.
pub normalized-normalize :
    (p : BasicPath) (cur_empty : Bool)
    → IsTrimmed p
    → normalized p.path ≡ true
    → normalize p cur_empty ≡ inr p
unfolding normalize normal_path components components_loop collapse join pop_separator
normalized-normalize p ce v n = elim (Bool-cases (is_empty p.path)) [
  | inl h ↦ normalize-empty p ce h
  | inr f ↦ elim (body_cases p v) [
    | inl e ↦ subst (λ q. normalize q ce ≡ inr q) (sym e) refl
    | inr (b, w) ↦ normalize_kept p ce v f w n
  ]
]
