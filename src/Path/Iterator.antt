-- ===== src/Path/Iterator.antt =====
-- The iterator over the components of a path, in libbutl/path.hxx and path.ixx.
use libbutl.Prelude.{
  false, ◌⊎◌, inl, inr, Option, none, some, [], ◌∷◌, ◌++◌, ◌≡◌, refl, sym, ap, ◌∙◌, if◌then◌else◌,
  Bytes, is_empty, append_assoc, Bool-cases, arith,
}
use mathlib.Core.Path.{subst}
use libbutl.Path.Traits.{is_separator, find_separator, rfind_separator, ends_with_separator}
use libbutl.Path.Data.{pop_separator}
use libbutl.Path.Split.{IsName}
use libbutl.Path.Collapse.{Full}
use libbutl.Path.Parts.{rfind-name, rfind-append, separator_is, pop_separator-snoc, ends_with-snoc}
use libbutl.Path.Joined.{ends_with-append_name}

-- The text before the component, the component, and what follows the separator after it. Without
-- that separator `e_` is npos.
pub data Iterator : Type 0 where
  past_end : Iterator
  at : (before component : Bytes) (after : Option Bytes) → Iterator

-- The component at the start of a text.
unfoldable pub first_at : Bytes → Bytes → Iterator
first_at b s = elim (find_separator s) [ none ↦ at b s none | some (x, y) ↦ at b x (some y) ]

unfoldable pub begin : Bytes → Iterator
begin [] = past_end
begin (c ∷ s) = first_at [] (c ∷ s)

unfoldable pub increment : Iterator → Iterator
increment past_end = past_end
increment (at b c none) = past_end
increment (at b c (some [])) = past_end
increment (at b c (some (d ∷ s))) = first_at (b ++ (c ++ b'/' ∷ [])) (d ∷ s)

-- The last component of a text.
unfoldable pub last_at : Bytes → Option Bytes → Iterator
last_at t a = elim (rfind_separator t) [ none ↦ at [] t a | some (x, y) ↦ at (x ++ b'/' ∷ []) y a ]

abbrev pub component_on : Bytes → Option Bytes → Bytes
component_on c none = c
component_on c (some t) = c ++ b'/' ∷ t

-- `--` of an iterator into the path `s`.
unfoldable pub decrement : Bytes → Iterator → Iterator
decrement s past_end =
    if ends_with_separator s then last_at (pop_separator s) (some []) else last_at s none
decrement s (at b c a) =
    if is_empty b then last_at s none else last_at (pop_separator b) (some (component_on c a))

-- An iterator into the path `s`: before the component is a separator or nothing, and the last
-- component is not empty.
abbrev pub Into : Bytes → Iterator → Type 0
Into s past_end = Unit
Into s (at b c a) =
    (s ≡ b ++ component_on c a)
    × IsName c
    × ((b ≡ []) ⊎ ((x : Bytes) × (b ≡ x ++ b'/' ∷ [])))
    × ((a ≡ none) → Full c)

last_at-append :
    (b c : Bytes) (a : Option Bytes)
    → IsName c
    → (b ≡ []) ⊎ ((x : Bytes) × (b ≡ x ++ b'/' ∷ []))
    → last_at (b ++ c) a ≡ at b c a
unfolding last_at
last_at-append b c a n (inl e) =
    subst (λ z. last_at (z ++ c) a ≡ at z c a) (sym e) (rw (rfind-name c n, last_at) refl)
last_at-append b c a n (inr (x, e)) =
    subst (λ z. last_at (z ++ c) a ≡ at z c a) (sym e)
      (rw (append_assoc x (b'/' ∷ []) c) (rw (rfind-append x c n, last_at) refl))

-- The text has no separator, or it is taken apart at the first one.
data First (s : Bytes) : Type 0 where
  whole : IsName s → find_separator s ≡ none → First s
  parts : (x y : Bytes) → IsName x → s ≡ x ++ b'/' ∷ y → find_separator s ≡ some (x, y) → First s

first : (s : Bytes) → First s
unfolding find_separator
first [] = whole refl refl
first (c ∷ s) = elim (Bool-cases (is_separator c)) [
  | inl a ↦ parts [] s refl (ap (λ d. d ∷ s) (separator_is c a)) (rw a refl)
  | inr a ↦ elim (first s) [
    | whole n f ↦ whole (ground (arith, a, n)) (rw (a, f) refl)
    | parts x y n e f ↦ parts (c ∷ x) y (ground (arith, a, n)) (ap (λ t. c ∷ t) e) (rw (a, f) refl)
  ]
]

empty_snoc : (p : Bytes) → is_empty (p ++ b'/' ∷ []) ≡ false
empty_snoc [] = refl
empty_snoc (c ∷ p) = refl

decrement-at :
    (s p c : Bytes) (a : Option Bytes)
    → decrement s (at (p ++ b'/' ∷ []) c a) ≡ last_at p (some (component_on c a))
unfolding decrement
decrement-at s p c a = rw (empty_snoc p, pop_separator-snoc p b'/') refl

decrement-first_at :
    (s p t : Bytes) → decrement s (first_at (p ++ b'/' ∷ []) t) ≡ last_at p (some t)
unfolding first_at
decrement-first_at s p t = elim (first t) [
  | whole n f ↦ rw (f, first_at) (decrement-at s p t none)
  | parts x y n e f ↦
      rw (f, first_at) (decrement-at s p x (some y) ∙ ap (λ z. last_at p (some z)) (sym e))
]

decrement_again :
    (s b c : Bytes) (a : Option Bytes)
    → Into s (at b c a)
    → decrement s (increment (at b c a)) ≡ at b c a
unfolding decrement increment
decrement_again s b c none (e, n, p, f) =
    rw (ap ends_with_separator e ∙ ends_with-append_name b c (f refl) n)
      (ap (λ t. last_at t none) e ∙ last_at-append b c none n p)
decrement_again s b c (some []) (e, n, p, f) =
    let q : s ≡ (b ++ c) ++ b'/' ∷ [] = e ∙ sym (append_assoc b c (b'/' ∷ [])) in
    rw (ap ends_with_separator q ∙ ends_with-snoc (b ++ c) b'/') (
      ap (λ t. last_at t (some [])) (ap pop_separator q ∙ pop_separator-snoc (b ++ c) b'/')
      ∙ last_at-append b c (some []) n p)
decrement_again s b c (some (d ∷ t)) (e, n, p, f) =
    ap (λ z. decrement s (first_at z (d ∷ t))) (sym (append_assoc b c (b'/' ∷ [])))
    ∙ decrement-first_at s (b ++ c) (d ∷ t)
    ∙ last_at-append b c (some (d ∷ t)) n p

first_at-Into :
    (s p t : Bytes)
    → Full t
    → (p ≡ []) ⊎ ((x : Bytes) × (p ≡ x ++ b'/' ∷ []))
    → s ≡ p ++ t
    → Into s (first_at p t)
unfolding first_at
first_at-Into s p t f o e = elim (first t) [
  | whole n h ↦ rw (h, first_at) (e, n, o, λ k. f)
  | parts x y n q h ↦
      rw (h, first_at)
        (e ∙ ap (λ z. p ++ z) q, n, o, λ k. absurd (let no : some y ≡ none = k in cc))
]

-- The first iterator points into the path.
pub begin-Into : (s : Bytes) → Into s (begin s)
unfolding begin
begin-Into [] = tt
begin-Into (c ∷ s) = first_at-Into (c ∷ s) [] (c ∷ s) refl (inl refl) refl

increment-Into :
    (s b c : Bytes) (a : Option Bytes) → Into s (at b c a) → Into s (increment (at b c a))
unfolding increment
increment-Into s b c none v = tt
increment-Into s b c (some []) v = tt
increment-Into s b c (some (d ∷ t)) (e, n, p, f) =
    first_at-Into s (b ++ (c ++ b'/' ∷ [])) (d ∷ t) refl
      (inr (b ++ c, sym (append_assoc b c (b'/' ∷ []))))
      (e
        ∙ ap (λ z. b ++ z) (sym (append_assoc c (b'/' ∷ []) (d ∷ t)))
        ∙ sym (append_assoc b (c ++ b'/' ∷ []) (d ∷ t)))

-- An iterator into a path that is not past the end stays in the path when it is incremented, and
-- decrementing it then gives it back.
pub decrement-increment :
    (s b c : Bytes) (a : Option Bytes)
    → Into s (at b c a)
    → Into s (increment (at b c a)) × (decrement s (increment (at b c a)) ≡ at b c a)
decrement-increment s b c a v = (increment-Into s b c a v, decrement_again s b c a v)
