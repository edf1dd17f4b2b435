-- ===== src/Manifest/RoundTrip.antt =====
-- `parse_manifest` reads back what `serialize_manifest` writes.
use libbutl.Prelude.{
  bytes_eq, ℕ, suc, ◌+◌, ◌-◌, Bool, true, false, ◌||◌, ◌⊎◌, inl, inr, List, [], ◌∷◌, ◌++◌, ◌≡◌,
  refl, ap, ◌∙◌, sym, ◌==◌, if◌then◌else◌, Bytes, arith, codes, is_empty, append_assoc, length, map,
  length-append, Bool-cases, ==_iff,
}
use libbutl.Manifest.Body.{fresh, parse_value-empty}
use libbutl.Manifest.Pairs.{NameValue, pair, start, body, end}
use libbutl.Manifest.PairText.{AllNamed, normal_pair, rounds, with_pairs, write_pairs-PairText}
use libbutl.Manifest.Parser.{
  Parser, parser, parse_next, parse_pairs, parse_manifest, at_colon, parse_pair, parse_rest,
  parse_name, check_pair,
}
use libbutl.Manifest.Serializer.{
  Serializer, write, write_next, write_at, write_start, serialize_manifest, and_then,
}
use libbutl.Manifest.Spaces.{skip_spaces, skip_spaces_loop}
use libbutl.Manifest.Value.{parse_value, introducer, value_loop}
use libbutl.Manifest.Value.RoundTrip.{parse_value-simple, value_end}

-- What may follow a manifest: the end of the text or the next one.
abbrev pub follows : Bytes → Bool
follows t = is_empty t || at_colon t

-- The parser after a manifest.
abbrev pub after_manifest : Bytes → Parser
after_manifest t = parser t (if is_empty t then end else start) (codes "1")

fresh-follows : (t : Bytes) → follows t ≡ true → fresh t ≡ true
fresh-follows [] h = refl
fresh-follows (c ∷ t) h = ground (arith, h)

parse_pairs-follows :
    (f : ℕ) (t : Bytes)
    → follows t ≡ true
    → parse_pairs (suc f) (parser t body (codes "1")) ≡ inr ([], after_manifest t)
unfolding parse_pairs parse_next parse_pair parse_rest parse_name skip_spaces_loop
parse_pairs-follows f [] h = refl
parse_pairs-follows f (c ∷ t) h = rw ((==_iff c b':').0 h) refl

with_pairs-inr : (rs : List NameValue) (p : Parser) → with_pairs rs (inr ([], p)) ≡ inr (rs, p)
with_pairs-inr [] p = refl
with_pairs-inr (r ∷ rs) p = rw (with_pairs-inr rs p) refl

length-rounds : (rs : List NameValue) (g : ℕ) → rounds rs g ≡ length rs + g
length-rounds [] g = omega arith
length-rounds (r ∷ rs) g = omega (arith, length-rounds rs g)

parse_value-version : (u : Bytes) → parse_value (codes "1\n" ++ u) ≡ (codes "1", b'\n' ∷ u)
unfolding introducer value_loop
parse_value-version u =
    parse_value-simple (codes "1\n" ++ u) (codes "1") (b'\n' ∷ u) 1 refl (value_end u (codes "1") 1)

-- The start of a manifest: the text with the version, or without it if it is the current one.
parse_next-start :
    (u v : Bytes)
    → parse_next (parser (codes ": 1\n" ++ u) start v)
      ≡ inr (pair [] (codes "1"), parser u body (codes "1"))
unfolding parse_next parse_pair parse_rest parse_name skip_spaces_loop check_pair
parse_next-start u v = rw (parse_value-version u) refl

skip_spaces-colon : (b : Bool) (s : Bytes) → skip_spaces b (b':' ∷ s) ≡ b':' ∷ s
skip_spaces-colon b s = unfold skip_spaces_loop in refl

parse_next-same :
    (u : Bytes)
    → fresh u ≡ true
    → parse_next (parser (codes ":\n" ++ u) start (codes "1"))
      ≡ inr (pair [] (codes "1"), parser u body (codes "1"))
unfolding parse_next parse_pair parse_rest parse_name check_pair
parse_next-same u h =
    rw
      (
        skip_spaces-colon true (b'\n' ∷ u),
        skip_spaces-colon false (b'\n' ∷ u),
        parse_value-empty u h,
      )
      refl

bytes_eq_sound : (s t : Bytes) → bytes_eq s t ≡ true → s ≡ t
bytes_eq_sound [] [] h = refl
bytes_eq_sound [] (d ∷ t) h = cc
bytes_eq_sound (c ∷ s) [] h = cc
bytes_eq_sound (c ∷ s) (d ∷ t) h =
    let e : (c == d) ≡ true = ground (arith, h) in
    rw ((==_iff c d).0 e, bytes_eq_sound s t (ground (arith, h))) refl

-- The text of the start of a manifest.
abbrev pub StartText : Bytes → Bytes → Type 0
StartText v h =
    (u : Bytes)
    → fresh u ≡ true
    → parse_next (parser (h ++ u) start v) ≡ inr (pair [] (codes "1"), parser u body (codes "1"))

write_start-StartText :
    (s a : Serializer)
    → write_start s [] (codes "1") ≡ inr a
    → (h : Bytes) × (a ≡ record s { output = s.output ++ h; stage = body; version = codes "1" })
      × StartText s.version h
unfolding write_start
write_start-StartText s a e = elim (Bool-cases (bytes_eq (codes "1") s.version)) [
  | inl f ↦
      let v : codes "1" ≡ s.version = bytes_eq_sound (codes "1") s.version f in
      let g : inr a ≡ inr (record (write s (codes ":\n")) { stage = body }) = sym e ∙ rw f refl in
      let k : a ≡ record (write s (codes ":\n")) { stage = body } = cc in
      (
        codes ":\n",
        k ∙ ap (λ x. record (write s (codes ":\n")) { stage = body; version = x }) (sym v),
        (λ u h.
            ap (λ x. parse_next (parser (codes ":\n" ++ u) start x)) (sym v) ∙ parse_next-same u h),
      )
  | inr f ↦
      let g : inr a ≡ inr (record (write s (codes ": 1\n")) { stage = body; version = codes "1" }) =
        sym e ∙ rw f refl in
      (codes ": 1\n", cc, (λ u h. parse_next-start u s.version))
]

write_next-start :
    (s : Serializer) (n v : Bytes) → s.stage ≡ start → write_next s n v ≡ write_start s n v
unfolding write_next write_at
write_next-start s n v h = ap (λ g. write_at g s n v) h

write_next-end :
    (s : Serializer) → s.stage ≡ body → write_next s [] [] ≡ inr (record s { stage = start })
unfolding write_next write_at
write_next-end s h = ap (λ g. write_at g s [] []) h

write_next-eos :
    (s : Serializer) → s.stage ≡ start → write_next s [] [] ≡ inr (record s { stage = end })
unfolding write_start
write_next-eos s h = write_next-start s [] [] h

and_then-inr :
    (x : Bytes ⊎ Serializer) (f : Serializer → Bytes ⊎ Serializer) (u : Serializer)
    → and_then x f ≡ inr u
    → (a : Serializer) × (x ≡ inr a) × (f a ≡ inr u)
and_then-inr (inl e) f u h = cc
and_then-inr (inr a) f u h = (a, refl, h)

parse_manifest-started :
    (s u v : Bytes)
    → parse_next (parser s start v) ≡ inr (pair [] (codes "1"), parser u body (codes "1"))
    → parse_manifest (parser s start v)
      ≡ parse_pairs (suc (suc (length u))) (parser u body (codes "1"))
unfolding parse_manifest
parse_manifest-started s u v h = rw (h, parse_manifest) refl

eos-output :
    (eos : Bool) (c u : Serializer)
    → c.stage ≡ start
    → (if eos then write_next c [] [] else inr c) ≡ inr u
    → u.output ≡ c.output
eos-output true c u h e =
    let f : inr u ≡ inr (record c { stage = end }) = sym e ∙ write_next-eos c h in
    let g : u ≡ record c { stage = end } = cc in ap (λ x. x.output) g
eos-output false c u h e = let g : c ≡ u = cc in ap (λ x. x.output) (sym g)

-- What `serialize_manifest` writes, after the manifests before it, is read by `parse_manifest` with
-- the same current format version as the same list of pairs, in whose values each `\r\n` and each
-- other `\r` has become a newline, if all pairs have names: nothing is left over before what follows, the end of
-- the text or the next manifest, and the fuel is enough.
pub parse_manifest-serialize_manifest :
    (s u : Serializer) (rs : List NameValue) (eos : Bool) (t : Bytes)
    → s.stage ≡ start
    → AllNamed rs
    → follows t ≡ true
    → serialize_manifest s rs eos ≡ inr u
    → (w : Bytes) × (u.output ≡ s.output ++ w)
      × (parse_manifest (parser (w ++ t) start s.version)
          ≡ inr (map normal_pair rs, after_manifest t))
unfolding serialize_manifest
parse_manifest-serialize_manifest s u rs eos t hs named ft e =
    let (a, p, k) = and_then-inr _ _ u e in
    let (b, q, l) = and_then-inr _ _ u k in
    let (c, r, m) = and_then-inr _ _ u l in
    let (h, ha, read) =
      write_start-StartText s a (sym (write_next-start s [] (codes "1") hs) ∙ p) in
    let a_body : a.stage ≡ body = ap (λ x. x.stage) ha in
    let (w, wb, enough, wf, read_pairs) = write_pairs-PairText a b rs a_body named q in
    let b_body : b.stage ≡ body = ap (λ x. x.stage) wb ∙ a_body in
    let ended : inr c ≡ inr (record b { stage = start }) = sym r ∙ write_next-end b b_body in
    let started : c ≡ record b { stage = start } = cc in
    let f = fresh-follows t ft in
    let g = suc (length (w ++ t)) - length rs in
    let fuel : suc (suc (length (w ++ t))) ≡ rounds rs (suc g) =
      omega (arith, enough, length-append w t, length-rounds rs (suc g)) in
    (
      h ++ w,
      eos-output eos c u (ap (λ x. x.stage) started) m
          ∙ ap (λ x. x.output) started
          ∙ ap (λ x. x.output) wb
          ∙ ap (λ x. x.output ++ w) ha
          ∙ append_assoc s.output h w,
      ap (λ x. parse_manifest (parser x start s.version)) (append_assoc h w t)
          ∙ parse_manifest-started (h ++ (w ++ t)) (w ++ t) s.version (read (w ++ t) (wf t f))
          ∙ ap (λ n. parse_pairs n (parser (w ++ t) body (codes "1"))) fuel
          ∙ read_pairs t (codes "1") (suc g) f
          ∙ ap (λ x. with_pairs (map normal_pair rs) x) (parse_pairs-follows g t ft)
          ∙ with_pairs-inr (map normal_pair rs) (after_manifest t),
    )
