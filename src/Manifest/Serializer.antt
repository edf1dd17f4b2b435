-- ===== src/Manifest/Serializer.antt =====
-- `manifest_serializer` of libbutl/manifest-serializer.{hxx,cxx}, and `serialize_manifest`.
--
-- An exception is its description. No filter is set, so `next` is `write_next`.
use libbutl.Prelude.{
  bytes_eq, ℕ, suc, ◌+◌, Bool, true, false, not, ◌&&◌, ◌||◌, ◌⊎◌, inl, inr, some, List, [], ◌∷◌,
  ◌++◌, ◌==◌, if◌then◌else◌, Bytes, is_empty, codes,
}
use libbutl.Manifest.Pairs.{NameValue, Stage, start, body, end}
use libbutl.Manifest.Spaces.{blank}
use libbutl.Manifest.Value.{write_value, graphic_validator}
use libbutl.Unicode.{graphic}
use libbutl.Utf8.{Utf8Validator, validate, utf8_length}

-- `manifest_serializer`: what is written, the stage, the current format version and `long_lines_`.
pub record Serializer : Type 0 where
  pub output : Bytes
  pub stage : Stage
  pub version : Bytes
  pub long_lines : Bool

abbrev pub write : Serializer → Bytes → Serializer
write s t = record s { output = s.output ++ t }

-- The loop of `write_name`: the number of codepoints.
unfoldable pub name_loop : Utf8Validator → Bool → ℕ → Bytes → Bytes ⊎ ℕ
name_loop val last r [] =
    if not last then inl (codes "invalid name: incomplete UTF-8 sequence") else inr r
name_loop val last r (c ∷ n) =
    let p = validate val c in
    let rest = name_loop p.1 p.0.last (if p.0.last then suc r else r) n in
    if not p.0.valid
    then inl (codes "invalid name: " ++ p.0.what)
    else if p.0.last && (blank c || c == b'\r' || c == b'\n')
    then inl (codes "name contains whitespace")
    else if p.0.last && c == b':'
    then inl (codes "name contains ':'")
    else rest

-- `write_name`, which then writes the name.
unfoldable pub check_name : Bytes → Bytes ⊎ ℕ
check_name [] = inl (codes "empty name")
check_name (c ∷ n) =
    if c == b'#'
    then inl (codes "name starts with '#'")
    else name_loop graphic_validator false 0 (c ∷ n)

-- `start` of `write_next`.
unfoldable pub write_start : Serializer → Bytes → Bytes → Bytes ⊎ Serializer
write_start s n v =
    if not (is_empty n)
    then inl (codes "format version pair expected")
    else if is_empty v
    then inr (record s { stage = end })
    else if not (bytes_eq v (codes "1"))
    then inl (codes "unsupported format version " ++ v)
    else if not (bytes_eq v s.version)
    then inr (record (write s (codes ": " ++ v ++ b'\n' ∷ [])) { stage = body; version = v })
    else inr (record (write s (codes ":\n")) { stage = body })

-- A pair of the body with a name.
unfoldable pub write_body : Serializer → Bytes → Bytes → Bytes ⊎ Serializer
write_body s n v = elim (check_name n) [
  | inl e ↦ inl e
  | inr l ↦
      if is_empty v
      then inr (write s (n ++ codes ":\n"))
      else elim (write_value s.long_lines v (l + 1)) [
        | inl e ↦ inl e
        | inr t ↦ inr (write s (n ++ b':' ∷ t ++ b'\n' ∷ []))
      ]
]

-- The switch of `write_next` over the stage.
unfoldable pub write_at : Stage → Serializer → Bytes → Bytes → Bytes ⊎ Serializer
write_at start s n v = write_start s n v
write_at body s n v =
    if is_empty n
    then (if is_empty v
        then inr (record s { stage = start })
        else write_start (record s { stage = start }) n v)
    else write_body s n v
write_at end s n v = inl (codes "serialization after eos")

-- `write_next`.
unfoldable pub write_next : Serializer → Bytes → Bytes → Bytes ⊎ Serializer
write_next s n v = write_at s.stage s n v

abbrev pub is_end : Stage → Bool
is_end start = false
is_end body = false
is_end end = true

-- `comment`.
unfoldable pub comment : Serializer → Bytes → Bytes ⊎ Serializer
comment s t =
    if is_end s.stage
    then inl (codes "serialization after eos")
    else elim (utf8_length t graphic (some (b'\n' ∷ b'\r' ∷ b'\t' ∷ []))) [
      | inl what ↦ inl (codes "invalid comment: " ++ what)
      | inr n ↦ inr (write s (b'#' ∷ (if is_empty t then [] else b' ' ∷ t) ++ b'\n' ∷ []))
    ]

-- The pairs of `serialize_manifest` between its start and its end.
unfoldable pub write_pairs : Serializer → List NameValue → Bytes ⊎ Serializer
write_pairs s [] = inr s
write_pairs s (r ∷ rs) = elim (write_next s r.name r.value) [
  | inl e ↦ inl e
  | inr t ↦ write_pairs t rs
]

abbrev pub and_then : Bytes ⊎ Serializer → (Serializer → Bytes ⊎ Serializer) → Bytes ⊎ Serializer
and_then (inl e) f = inl e
and_then (inr s) f = f s

-- `serialize_manifest`.
unfoldable pub serialize_manifest : Serializer → List NameValue → Bool → Bytes ⊎ Serializer
serialize_manifest s rs eos = and_then (write_next s [] (codes "1")) (λ a.
    and_then (write_pairs a rs)
      (λ b. and_then (write_next b [] []) (λ c. if eos then write_next c [] [] else inr c)))
