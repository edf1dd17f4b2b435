-- ===== src/Manifest/Exact.antt =====
-- Values without carriage returns are read back as they are.
use libbutl.Prelude.{
  Bool, true, false, inr, List, [], ◌∷◌, ◌++◌, ◌≡◌, refl, ap, ◌∙◌, Bytes, All, map, has_byte,
}
use libbutl.Manifest.Pairs.{NameValue, pair, start}
use libbutl.Manifest.PairText.{normal_pair, AllNamed}
use libbutl.Manifest.Parser.{parser, parse_manifest}
use libbutl.Manifest.RoundTrip.{follows, after_manifest, parse_manifest-serialize_manifest}
use libbutl.Manifest.Serializer.{Serializer, serialize_manifest}
use libbutl.Manifest.Value.Newlines.{newlines_id}

abbrev pub AllWithoutReturn : List NameValue → Type 0
AllWithoutReturn = All (λ r. has_byte b'\r' r.value ≡ false)

normal_pairs_id : (rs : List NameValue) → AllWithoutReturn rs → map normal_pair rs ≡ rs
normal_pairs_id [] h = refl
normal_pairs_id (r ∷ rs) h =
    ap (λ v. pair r.name v ∷ map normal_pair rs) (newlines_id r.value (h.0))
    ∙ ap (λ x. r ∷ x) (normal_pairs_id rs (h.1))

-- What `serialize_manifest` writes, after the manifests before it, is read by `parse_manifest` with
-- the same current format version as exactly the pairs that it was given, if all pairs have names
-- and no value has a carriage return.
pub parse_manifest-serialize_manifest_exact :
    (s u : Serializer) (rs : List NameValue) (eos : Bool) (t : Bytes)
    → s.stage ≡ start
    → AllNamed rs
    → AllWithoutReturn rs
    → follows t ≡ true
    → serialize_manifest s rs eos ≡ inr u
    → (w : Bytes) × (u.output ≡ s.output ++ w)
      × (parse_manifest (parser (w ++ t) start s.version) ≡ inr (rs, after_manifest t))
parse_manifest-serialize_manifest_exact s u rs eos t hs named plain ft e =
    let (w, o, p) = parse_manifest-serialize_manifest s u rs eos t hs named ft e in
    (w, o, p ∙ ap (λ x. inr (x, after_manifest t)) (normal_pairs_id rs plain))
