-- ===== src/Manifest/PairText.antt =====
-- The pairs of a manifest's body, read by the loop of `parse_manifest`.
use libbutl.Prelude.{
  ℕ, suc, ◌≤◌, true, false, ◌⊎◌, inl, inr, List, [], ◌∷◌, ◌++◌, ◌≡◌, refl, ap, ◌∙◌, sym, Bytes, All,
  arith, is_empty, append_assoc, append-nil, length, map, length-append,
}
use libbutl.Manifest.Body.{normal, fresh, write_body-ReadsAs, parse_next-body, sum_cases}
use libbutl.Manifest.Names.{IsNameChar}
use libbutl.Manifest.Pairs.{NameValue, pair, body}
use libbutl.Manifest.Parser.{Parser, parser, parse_next, parse_pairs, with_pair}
use libbutl.Manifest.Serializer.{Serializer, write, write_body, write_next, write_at, write_pairs}
use libbutl.Manifest.Value.{at_end}

write_next-body :
    (s : Serializer) (n v : Bytes)
    → s.stage ≡ body
    → is_empty n ≡ false
    → write_next s n v ≡ write_body s n v
unfolding write_next write_at
write_next-body s n v h e =
    ap (λ g. write_at g s n v) h ∙ (let f : write_at body s n v ≡ write_body s n v = rw e refl in f)

at_end-name : (n y : Bytes) → All IsNameChar n → at_end (n ++ b':' ∷ y) ≡ false
at_end-name [] y h = refl
at_end-name (c ∷ n) y h = ground (arith, h.0)

-- The text of one pair.
abbrev pub PairText : Bytes → Bytes → Bytes → Type 0
PairText n v w =
    ((t : Bytes) → fresh (w ++ t) ≡ true)
    × ((t ver : Bytes)
        → fresh t ≡ true
        → parse_next (parser (w ++ t) body ver) ≡ inr (pair n v, parser t body ver))

write_next-PairText :
    (s u : Serializer) (n v : Bytes)
    → s.stage ≡ body
    → is_empty n ≡ false
    → write_next s n v ≡ inr u
    → (c : ℕ) × (w : Bytes) × (u ≡ write s (c ∷ w)) × PairText n (normal v) (c ∷ w)
write_next-PairText s u [] v h e r = cc
write_next-PairText s u (c ∷ n) v h e r =
    let (w, g, x, k, a) =
      write_body-ReadsAs s u c n v (sym (write_next-body s (c ∷ n) v h e) ∙ r) in
    let text = n ++ b':' ∷ (w ++ b'\n' ∷ []) in
    let split : (t : Bytes) → text ++ t ≡ n ++ b':' ∷ (w ++ b'\n' ∷ t) = λ t.
      append_assoc n (b':' ∷ (w ++ b'\n' ∷ [])) t
      ∙ ap (λ x. n ++ b':' ∷ x) (append_assoc w (b'\n' ∷ []) t) in
    (
      c,
      text,
      g,
      (
        (λ t. rw (split t, at_end-name n (w ++ b'\n' ∷ t) (a.1)) (ground arith)),
        (λ t ver f. rw (split t) (parse_next-body c n w (normal v) t ver k a x f)),
      ),
    )

-- The fuel for some pairs and what follows them.
abbrev pub rounds : List NameValue → ℕ → ℕ
rounds [] f = f
rounds (r ∷ rs) f = suc (rounds rs f)

abbrev pub with_pairs :
    List NameValue → Bytes ⊎ List NameValue × Parser → Bytes ⊎ List NameValue × Parser
with_pairs [] x = x
with_pairs (r ∷ rs) x = with_pair r (with_pairs rs x)

abbrev pub normal_pair : NameValue → NameValue
normal_pair r = pair r.name (normal r.value)

abbrev pub AllNamed : List NameValue → Type 0
AllNamed = All (λ r. is_empty r.name ≡ false)

parse_pairs-pair :
    (f : ℕ) (p q : Parser) (n v : Bytes)
    → is_empty n ≡ false
    → parse_next p ≡ inr (pair n v, q)
    → parse_pairs (suc f) p ≡ with_pair (pair n v) (parse_pairs f q)
unfolding parse_pairs
parse_pairs-pair f p q n v e h = rw (h, parse_pairs) (rw e refl)

pub write_pairs-PairText :
    (s u : Serializer) (rs : List NameValue)
    → s.stage ≡ body
    → AllNamed rs
    → write_pairs s rs ≡ inr u
    → (w : Bytes) × (u ≡ write s w)
      × (length rs ≤ length w)
      × ((t : Bytes) → fresh t ≡ true → fresh (w ++ t) ≡ true)
      × ((t ver : Bytes) (f : ℕ)
          → fresh t ≡ true
          → parse_pairs (rounds rs f) (parser (w ++ t) body ver)
            ≡ with_pairs (map normal_pair rs) (parse_pairs f (parser t body ver)))
unfolding write_pairs
write_pairs-PairText s u [] h a e =
    let same : s ≡ u = cc in
    (
      [],
      sym same ∙ ap (λ x. record s { output = x }) (sym (append-nil s.output)),
      omega arith,
      (λ t f. f),
      (λ t ver f k. refl),
    )
write_pairs-PairText s u (r ∷ rs) h a e = elim (sum_cases (write_next s r.name r.value)) [
  | inl (m, g) ↦
      let bad : write_pairs s (r ∷ rs) ≡ inl m = rw (g, write_pairs) refl in
      let no : inl m ≡ inr u = sym bad ∙ e in cc
  | inr (q, g) ↦
      let (c, x, p, (x_fresh, x_read)) = write_next-PairText s q r.name r.value h (a.0) g in
      let rest : write_pairs q rs ≡ inr u =
        (let step : write_pairs s (r ∷ rs) ≡ write_pairs q rs = rw (g, write_pairs) refl in
          sym step ∙ e) in
      let q_body : q.stage ≡ body = ap (λ z. z.stage) p ∙ h in
      let (y, w, l, y_fresh, y_read) = write_pairs-PairText q u rs q_body (a.1) rest in
      (
        (c ∷ x) ++ y,
        w
            ∙ ap (λ z. write z y) p
            ∙ ap (λ o. record s { output = o }) (append_assoc s.output (c ∷ x) y),
        omega (arith, l, length-append (c ∷ x) y),
        (λ t f. ap fresh (append_assoc (c ∷ x) y t) ∙ x_fresh (y ++ t)),
        (λ t ver f k.
            ap (λ z. parse_pairs (suc (rounds rs f)) (parser z body ver)) (append_assoc (c ∷ x) y t)
            ∙ parse_pairs-pair (rounds rs f) _ (parser (y ++ t) body ver) r.name (normal r.value)
                (a.0) (x_read (y ++ t) ver (y_fresh t k))
            ∙ ap (λ z. with_pair (normal_pair r) z) (y_read t ver f k)),
      )
]
