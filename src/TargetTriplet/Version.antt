-- ===== src/TargetTriplet/Version.antt =====
-- `string` puts the version back where the constructor has taken it from.
use libbutl.Prelude.{
  ℕ, suc, ◌+◌, ◌-◌, true, false, inl, inr, Option, none, some, List, [], ◌∷◌, ◌++◌, ◌≡◌, refl, sym,
  ap, ◌∙◌, ◌==◌, Bytes, length, length-append, take, drop, is_empty, codes, arith, All,
  append_assoc, append-nil, Bool-cases, Option-cases, ==_iff,
}
use libbutl.TargetTriplet.Triplet.{
  strip, starts, split_listed, versioned, at_dash, is_ios, split_version, append_part, dashed,
  add_version, string,
}

strip_sound : (p s : Bytes) {r : Bytes} → strip p s ≡ some r → s ≡ p ++ r
unfolding strip
strip_sound [] s h = cc
strip_sound (d ∷ p) [] h = cc
strip_sound (d ∷ p) (c ∷ s) {r} h = elim (Bool-cases (c == d)) [
  | inl e ↦ rw ((==_iff c d).0 e) (
      let f : strip (d ∷ p) (c ∷ s) ≡ strip p s = rw e refl in
      ap (λ x. d ∷ x) (strip_sound p s (sym f ∙ h)))
  | inr e ↦ (let f : strip (d ∷ p) (c ∷ s) ≡ none = rw e refl in cc)
]

-- A prefix that is followed by a version.
abbrev IsPlain : Bytes → Type 0
IsPlain p = (is_empty p ≡ false) × (starts (codes "ios") p ≡ false)

split_listed_sound :
    (ps : List Bytes) (s : Bytes) {p r : Bytes}
    → All IsPlain ps
    → split_listed ps s ≡ some (p, r)
    → (s ≡ p ++ r) × IsPlain p
unfolding split_listed
split_listed_sound [] s a h = cc
split_listed_sound (q ∷ ps) s {p} {r} a h = elim (Option-cases (strip q s)) [
  | inl e ↦
      let f : split_listed (q ∷ ps) s ≡ split_listed ps s = rw (e, split_listed) refl in
      split_listed_sound ps s (a.1) (sym f ∙ h)
  | inr (t, e) ↦
      let f : split_listed (q ∷ ps) s ≡ some (q, t) = rw (e, split_listed) refl in
      let g : ◌≡◌ {A = Option (Bytes × Bytes)} (some (q, t)) (some (p, r)) = sym f ∙ h in
      let same_prefix : q ≡ p = cc in
      let same_rest : t ≡ r = cc in rw⁻¹ (same_prefix, same_rest) (strip_sound q s e, a.0)
]

at_dash_join : (s : Bytes) → (at_dash s).0 ++ (at_dash s).1 ≡ s
unfolding at_dash
at_dash_join [] = refl
at_dash_join (c ∷ s) = elim (Bool-cases (c == b'-')) [
  | inl e ↦ rw e refl
  | inr e ↦ rw e (ap (λ x. c ∷ x) (at_dash_join s))
]

add_version-plain :
    (r vendor system version : Bytes)
    → is_ios vendor system ≡ false
    → add_version r vendor system version ≡ r ++ version
unfolding add_version
add_version-plain r vendor system [] h = sym (append-nil r)
add_version-plain r vendor system (c ∷ v) h = rw h refl

append_part-append :
    (r p v : Bytes) → is_empty p ≡ false → append_part r p ++ v ≡ append_part r (p ++ v)
append_part-append r [] v h = cc
append_part-append r (c ∷ p) v h = append_assoc (dashed r) (c ∷ p) v

length_cons : (c : ℕ) (d : Bytes) (n : ℕ) → length (c ∷ d) + n ≡ suc (length d + n)
length_cons c d n = omega arith

take-append : (d y : Bytes) (n : ℕ) → take (length d + n) (d ++ y) ≡ d ++ take n y
take-append [] y n = ap (λ k. take k y) (omega arith)
take-append (c ∷ d) y n =
    ap (λ k. take k (c ∷ d ++ y)) (length_cons c d n) ∙ ap (λ x. c ∷ x) (take-append d y n)

drop-append : (d y : Bytes) (n : ℕ) → drop (length d + n) (d ++ y) ≡ drop n y
drop-append [] y n = ap (λ k. drop k y) (omega arith)
drop-append (c ∷ d) y n = ap (λ k. drop k (c ∷ d ++ y)) (length_cons c d n) ∙ drop-append d y n

add_version-ios :
    (x vendor v q : Bytes)
    → is_ios vendor (codes "ios" ++ q) ≡ true
    → add_version (append_part x (codes "ios" ++ q)) vendor (codes "ios" ++ q) v
      ≡ append_part x (codes "ios" ++ (v ++ q))
unfolding add_version
add_version-ios x vendor [] q h = refl
add_version-ios x vendor (c ∷ v) q h =
    let d = dashed x in
    let y = codes "ios" ++ q in
    let n : length (d ++ y) - length y + 3 ≡ length d + 3 = omega (arith, length-append d y) in
    rw (h, n, take-append d y 3, drop-append d y 3)
      (append_assoc (d ++ codes "ios") (c ∷ v) q ∙ append_assoc d (codes "ios") (c ∷ v ++ q))

versioned-IsPlain : All IsPlain versioned
unfolding strip
versioned-IsPlain = (
  (refl, refl),
  (
    (refl, refl),
    (
      (refl, refl),
      (
        (refl, refl),
        (
          (refl, refl),
          ((refl, refl), ((refl, refl), ((refl, refl), ((refl, refl), ((refl, refl), tt))))),
        ),
      ),
    ),
  ),
)

-- The system after the three characters `ios`.
after_ios :
    (vendor system : Bytes) → is_ios vendor system ≡ true → codes "ios" ++ drop 3 system ≡ system
after_ios vendor system h = elim (Option-cases (strip (codes "ios") system)) [
  | inl e ↦ ground (arith, h, e)
  | inr (t, e) ↦ rw (strip_sound (codes "ios") system e) refl
]

is_ios-again :
    (vendor system q : Bytes)
    → is_ios vendor system ≡ true
    → is_ios vendor (codes "ios" ++ q) ≡ true
unfolding strip
is_ios-again vendor system q h = ground (arith, h)

add_version-split :
    (x vendor system : Bytes)
    → add_version
        (append_part x ((split_version vendor system).0))
        vendor
        ((split_version vendor system).0)
        ((split_version vendor system).1)
      ≡ append_part x system
unfolding split_version add_version
add_version-split x vendor system = elim (Option-cases (split_listed versioned system)) [
  | inr ((p, r), e) ↦
      let w : split_version vendor system ≡ (p, r) = rw (e, split_version) refl in
      let (found, plain) = split_listed_sound versioned system versioned-IsPlain e in
      ap (λ z. add_version (append_part x (z.0)) vendor (z.0) (z.1)) w
      ∙ add_version-plain (append_part x p) vendor p r (ground (arith, plain.1))
      ∙ append_part-append x p r (plain.0)
      ∙ ap (λ z. append_part x z) (sym found)
  | inl e ↦ elim (Bool-cases (is_ios vendor system)) [
    | inl f ↦
        let q = at_dash (drop 3 system) in
        let w : split_version vendor system ≡ (codes "ios" ++ q.1, q.0) =
          rw (e, split_version) (rw f refl) in
        ap (λ z. add_version (append_part x (z.0)) vendor (z.0) (z.1)) w
        ∙ add_version-ios x vendor (q.0) (q.1) (is_ios-again vendor system (q.1) f)
        ∙ ap (λ z. append_part x (codes "ios" ++ z)) (at_dash_join (drop 3 system))
        ∙ ap (λ z. append_part x z) (after_ios vendor system f)
    | inr f ↦
        let w : split_version vendor system ≡ (system, []) = rw (e, split_version) (rw f refl) in
        ap (λ z. add_version (append_part x (z.0)) vendor (z.0) (z.1)) w
  ]
]

-- The text that `string` gives for a vendor and a system whose version was split off: the CPU, the
-- vendor and the whole system, with a dash between each two that are not empty.
pub string-split_version :
    (cpu vendor system class : Bytes)
    → string (record {
      cpu = cpu;
      vendor = vendor;
      system = (split_version vendor system).0;
      version = (split_version vendor system).1;
      class = class;
    })
      ≡ append_part (append_part cpu vendor) system
unfolding string
string-split_version cpu vendor system class =
    add_version-split (append_part cpu vendor) vendor system
