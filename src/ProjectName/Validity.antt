-- ===== src/ProjectName/Validity.antt =====
-- Which strings are project names.
use libbutl.Prelude.{
  ℕ, suc, Bool, true, false, not, [], ◌∷◌, ◌++◌, ltb, Bytes, length, ◌≡◌, ◌↔◌, refl, sym, ap, ◌∙◌,
  arith, ◌⊎◌, inl, inr, Bool-cases, All, Result, ok, err, throw_if, ◌>>◌,
}
use libbutl.ProjectName.Names.{
  alpha, alnum, legal_char, illegal_prj_names, is_one_of, check_rest, check_first, project_name,
}

-- A rest that is legal: characters, and a last one that is a letter, a digit or a plus sign.
abbrev pub IsLegalRest : Bytes → Type 0
IsLegalRest s =
    (m : Bytes) × (d : ℕ) × (s ≡ m ++ d ∷ [])
    × All (λ c. legal_char c ≡ true) m
    × ((alnum d ≡ true) ⊎ (d ≡ 43))

abbrev pub IsProjectName : Bytes → Type 0
IsProjectName nm =
    (is_one_of nm illegal_prj_names ≡ false)
    × ((c : ℕ) × (s : Bytes) × (nm ≡ c ∷ s) × (alpha c ≡ true) × IsLegalRest s)

-- The last character.
legal_last : (c : ℕ) → check_rest (c ∷ []) ≡ ok tt → (alnum c ≡ true) ⊎ (c ≡ 43)
unfolding check_rest
legal_last c h = elim (Bool-cases (alnum c)) [ inl e ↦ inl e | inr e ↦ inr (ground (arith, h, e)) ]

last_legal : (c : ℕ) → (alnum c ≡ true) ⊎ (c ≡ 43) → check_rest (c ∷ []) ≡ ok tt
unfolding check_rest
last_legal c (inl e) = rw e refl
last_legal c (inr e) = rw e refl

check_rest-step :
    (c d : ℕ) (s : Bytes)
    → check_rest (c ∷ d ∷ s) ≡ ok tt
    → (legal_char c ≡ true) × (check_rest (d ∷ s) ≡ ok tt)
unfolding check_rest
check_rest-step c d s h = elim (Bool-cases (legal_char c)) [
  | inl e ↦ (e, ground (arith, h, e))
  | inr e ↦ absurd (ground (arith, h, e))
]

check_rest_sound : (c : ℕ) (s : Bytes) → check_rest (c ∷ s) ≡ ok tt → IsLegalRest (c ∷ s)
check_rest_sound c [] h = ([], c, refl, tt, legal_last c h)
check_rest_sound c (d ∷ s) h =
    let step = check_rest-step c d s h in
    let r = check_rest_sound d s step.1 in (c ∷ r.0, r.1, ap (λ x. c ∷ x) r.2, (step.0, r.3), r.4)

check_rest_complete :
    (m : Bytes) (d : ℕ)
    → All (λ c. legal_char c ≡ true) m
    → (alnum d ≡ true) ⊎ (d ≡ 43)
    → check_rest (m ++ d ∷ []) ≡ ok tt
unfolding check_rest
check_rest_complete [] d h hd = last_legal d hd
check_rest_complete (c ∷ []) d h hd = rw (h.0) (last_legal d hd)
check_rest_complete (c ∷ c' ∷ m) d h hd = rw (h.0) (check_rest_complete (c' ∷ m) d h.1 hd)

-- The steps of the constructor all succeed.
steps_ok :
    (illegal first : Bool) (rest : Result (Unit {0})) (nm n : Bytes)
    → (do
      throw_if illegal "illegal name"
      throw_if (not first) "illegal first character (must be alphabetic)" >> rest
      ok nm)
      ≡ ok n
    → (illegal ≡ false) × (first ≡ true) × (rest ≡ ok tt) × (n ≡ nm)
steps_ok true first rest nm n h = cc
steps_ok false false rest nm n h = cc
steps_ok false true (err e) nm n h = cc
steps_ok false true (ok u) nm n h = (refl, refl, refl, cc)

two_characters : (k : ℕ) → ltb (suc (suc k)) 2 ≡ false
two_characters k = ground arith

project_name-steps :
    (c d : ℕ) (s : Bytes)
    → project_name (c ∷ d ∷ s) ≡ (do
      throw_if (is_one_of (c ∷ d ∷ s) illegal_prj_names) "illegal name"
      throw_if (not (alpha c)) "illegal first character (must be alphabetic)" >> check_rest (d ∷ s)
      ok (c ∷ d ∷ s))
unfolding project_name check_first
project_name-steps c d s = rw (two_characters (length s)) refl

project_name_sound : (nm n : Bytes) → project_name nm ≡ ok n → (n ≡ nm) × IsProjectName nm
unfolding project_name check_first
project_name_sound [] n h = cc
project_name_sound (c ∷ []) n h = cc
project_name_sound (c ∷ d ∷ s) n h =
    let nm = c ∷ d ∷ s in
    let r =
      steps_ok (is_one_of nm illegal_prj_names) (alpha c) (check_rest (d ∷ s)) nm n
        (sym (project_name-steps c d s) ∙ h) in
    (r.3, (r.0, (c, d ∷ s, refl, r.1, check_rest_sound d s r.2)))

steps_all :
    (illegal first : Bool) (rest : Result (Unit {0})) (nm : Bytes)
    → illegal ≡ false
    → first ≡ true
    → rest ≡ ok tt
    → (do
      throw_if illegal "illegal name"
      throw_if (not first) "illegal first character (must be alphabetic)" >> rest
      ok nm)
      ≡ ok nm
steps_all illegal first rest nm hi hf hr = rw (hi, hf, hr) refl

project_name-checked :
    (c d : ℕ) (s : Bytes)
    → is_one_of (c ∷ d ∷ s) illegal_prj_names ≡ false
    → alpha c ≡ true
    → check_rest (d ∷ s) ≡ ok tt
    → project_name (c ∷ d ∷ s) ≡ ok (c ∷ d ∷ s)
project_name-checked c d s hi hf hr =
    project_name-steps c d s
    ∙ steps_all (is_one_of (c ∷ d ∷ s) illegal_prj_names) (alpha c) (check_rest (d ∷ s)) (c ∷ d ∷ s)
        hi hf hr

project_name-spelled :
    (c : ℕ) (m : Bytes) (d : ℕ)
    → is_one_of (c ∷ m ++ d ∷ []) illegal_prj_names ≡ false
    → alpha c ≡ true
    → check_rest (m ++ d ∷ []) ≡ ok tt
    → project_name (c ∷ m ++ d ∷ []) ≡ ok (c ∷ m ++ d ∷ [])
project_name-spelled c [] d = project_name-checked c d []
project_name-spelled c (x ∷ m) d = project_name-checked c x (m ++ d ∷ [])

project_name_complete : (nm : Bytes) → IsProjectName nm → project_name nm ≡ ok nm
project_name_complete nm (legal, (c, s, e, hc, (m, d, es, hm, hd))) =
    let spelled : nm ≡ c ∷ m ++ d ∷ [] = e ∙ ap (λ x. c ∷ x) es in
    let legal_spelled : is_one_of (c ∷ m ++ d ∷ []) illegal_prj_names ≡ false =
      ap (λ x. is_one_of x illegal_prj_names) (sym spelled) ∙ legal in
    rw spelled (project_name-spelled c m d legal_spelled hc (check_rest_complete m d hm hd))

-- The constructor accepts exactly the strings that are not reserved, start with a letter, end with
-- a letter, a digit or a plus sign after at least one character, and have letters, digits and the
-- characters _+-. in between; it keeps the string.
pub project_name-IsProjectName :
    (nm n : Bytes) → (project_name nm ≡ ok n) ↔ ((n ≡ nm) × IsProjectName nm)
project_name-IsProjectName nm n =
    (project_name_sound nm n, λ h. project_name_complete nm h.1 ∙ ap ok (sym h.0))
