-- ===== src/Manifest/Parser.antt =====
-- `manifest_parser::parse_next` and `parse_manifest` of libbutl/manifest-parser.cxx.
--
-- The text is what the scanner gives. Lines, columns and positions are left out, and an exception
-- is its description. No filter is set, so `next` is `parse_next`.
use libbutl.Prelude.{
  bytes_eq, ℕ, zero, suc, Bool, true, false, not, ◌||◌, ◌⊎◌, inl, inr, List, [], ◌∷◌, ◌++◌, ◌==◌,
  if◌then◌else◌, Bytes, length, is_empty, codes,
}
use libbutl.Manifest.Pairs.{NameValue, pair, empty, Stage, start, body, end}
use libbutl.Manifest.Spaces.{blank, skip_spaces}
use libbutl.Manifest.Value.{parse_value, rest_of}

-- `manifest_parser`: the text that is left, the stage and the current format version.
pub record Parser : Type 0 where
  pub input : Bytes
  pub stage : Stage
  pub version : Bytes

abbrev pub parser : Bytes → Stage → Bytes → Parser
parser i s v = record { input = i; stage = s; version = v }

-- `parse_name`: the name and the text that is left.
unfoldable pub parse_name : Bytes → Bytes × Bytes
parse_name [] = ([], [])
parse_name (c ∷ s) =
    let r = parse_name s in
    if c == b':' || blank c || c == b'\n' then ([], c ∷ s) else (c ∷ r.0, r.1)

-- What `parse_next` does with the pair that it has read, before the text `t`.
unfoldable pub check_pair : Parser → NameValue → Bytes → Bytes ⊎ NameValue × Parser
check_pair p r t =
    let started : Bytes ⊎ NameValue × Parser =
      if not (is_empty r.name)
      then inl (codes "format version pair expected")
      else if is_empty r.value
      then (if is_empty p.version
          then inl (codes "format version value expected")
          else inr (pair r.name p.version, parser t body p.version))
      else if not (bytes_eq r.value (codes "1"))
      then inl (codes "unsupported format version " ++ r.value)
      else inr (r, parser t body r.value) in
    elim p.stage [
      | start ↦ started
      | body ↦ inr (r, parser t body p.version)
      | end ↦ inr (r, parser t end p.version)
    ]

-- From the colon on.
unfoldable pub parse_rest : Parser → Bytes → Bytes → Bytes ⊎ NameValue × Parser
parse_rest p n [] =
    if not (is_empty n)
    then inl (codes "':' expected after name")
    else inr (pair [] [], parser [] end p.version)
parse_rest p n (c ∷ s) =
    let v = parse_value (skip_spaces false s) in
    if not (c == b':')
    then inl (codes "':' expected after name")
    else check_pair p (pair n v.0) (rest_of v.1)

-- From the name on.
unfoldable pub parse_pair : Parser → Bytes → Bytes ⊎ NameValue × Parser
parse_pair p s = let n = parse_name s in parse_rest p n.0 (skip_spaces false n.1)

abbrev pub at_colon : Bytes → Bool
at_colon [] = false
at_colon (c ∷ s) = c == b':'

-- `parse_next`. It is called at the beginning of a line, before a colon or at the end of the text.
unfoldable pub parse_next : Parser → Bytes ⊎ NameValue × Parser
parse_next p =
    let s = skip_spaces true p.input in
    elim p.stage [
      | start ↦ parse_pair p s
      | body ↦ if at_colon s then inr (pair [] [], parser s start p.version) else parse_pair p s
      | end ↦ inr (pair [] [], p)
    ]

-- `r.push_back (nv)`, before the pairs of the rest of the loop.
abbrev pub with_pair : NameValue → Bytes ⊎ List NameValue × Parser → Bytes ⊎ List NameValue × Parser
with_pair r (inl e) = inl e
with_pair r (inr (rs, p)) = inr (r ∷ rs, p)

-- The loop of `try_parse_manifest`, on fuel: the pairs up to the empty one.
unfoldable pub parse_pairs : ℕ → Parser → Bytes ⊎ List NameValue × Parser
parse_pairs zero p = inl (codes "out of fuel")
parse_pairs (suc f) p = elim (parse_next p) [
  | inl e ↦ inl e
  | inr (r, q) ↦ if empty r then inr ([], q) else with_pair r (parse_pairs f q)
]

-- `parse_manifest`. Each pair takes at least two characters.
unfoldable pub parse_manifest : Parser → Bytes ⊎ List NameValue × Parser
parse_manifest p = elim (parse_next p) [
  | inl e ↦ inl e
  | inr (r, q) ↦
      if not (is_empty r.name) || empty r
      then inl (codes "start of manifest expected")
      else parse_pairs (suc (suc (length q.input))) q
]
