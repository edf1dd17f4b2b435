-- ===== src/Url/Normalize.antt =====
-- basic_url_host::normalize of libbutl/url.txx.
use libbutl.Prelude.{
  ℕ, zero, suc, ◌+◌, ◌-◌, Bool, true, false, not, ◌&&◌, ◌||◌, Option, none, some, List, [], ◌∷◌,
  ◌++◌, ◌==◌, ltb, if◌then◌else◌, Bytes, length, take, drop, replicate, is_empty, bytes_eq, codes,
  map,
}
use libbutl.ProjectName.{lcase}
use libbutl.Url.Host.{Host, ipv4, ipv6, name, last_byte}

-- `start`: no digits were added since the last octet.
unfoldable pub normalize_ipv4 : Bool → Bytes → Bytes
normalize_ipv4 start [] = if start then b'0' ∷ [] else []
normalize_ipv4 start (c ∷ s) =
    let dot = b'.' ∷ normalize_ipv4 true s in
    let skip = normalize_ipv4 true s in
    let add = c ∷ normalize_ipv4 false s in
    if c == b'.'
    then (if start then b'0' ∷ dot else dot)
    else if not (c == b'0') || not start
    then add
    else skip

-- The hextets, the current one, the index of the double-colon and whether zeros were stripped.
pub record Hextets : Type 0 where
  pub done : List Bytes
  pub hex : Bytes
  pub squashed : Option ℕ
  pub stripped : Bool

abbrev pub zero_hextet : Bytes
zero_hextet = codes "0"

abbrev pub add_hex : Hextets → Hextets
add_hex v =
    if not (is_empty v.hex)
    then record { done = v.done ++ v.hex ∷ []; hex = []; squashed = v.squashed; stripped = false }
    else if not v.stripped
    then record v { squashed = some (length v.done); stripped = false }
    else record v { done = v.done ++ zero_hextet ∷ []; stripped = false }

unfoldable pub read_hextets : Hextets → Bytes → Hextets
read_hextets v [] = v
read_hextets v (c ∷ s) =
    let next = read_hextets (add_hex v) s in
    let strip = read_hextets (record v { stripped = true }) s in
    let add = read_hextets (record v { hex = v.hex ++ lcase c ∷ [] }) s in
    if c == b':' then next else if c == b'0' && is_empty v.hex then strip else add

-- The trailing hextet.
abbrev pub last_hextet : Hextets → List Bytes
last_hextet v =
    if not (is_empty v.hex)
    then v.done ++ v.hex ∷ []
    else if v.stripped
    then v.done ++ zero_hextet ∷ []
    else v.done

unfoldable pub expand : Option ℕ → List Bytes → List Bytes
expand none v = v
expand (some i) v = take i v ++ (replicate (8 - length v) zero_hextet ++ drop i v)

abbrev pub is_zero : Bytes → Bool
is_zero h = bytes_eq h zero_hextet

unfoldable pub run_length : List Bytes → ℕ
run_length [] = 0
run_length (h ∷ v) = let rest = run_length v in if is_zero h then suc rest else 0

-- The longest run of zeros: its start and length. The hextet before the index `i` may be zero.
unfoldable pub longest_run : ℕ → Bool → ℕ × ℕ → List Bytes → ℕ × ℕ
longest_run i before best [] = best
longest_run i before best (h ∷ v) =
    let n = run_length (h ∷ v) in
    let longer = longest_run (i + 1) (is_zero h) (i, n) v in
    let other = longest_run (i + 1) (is_zero h) best v in
    if is_zero h && not before && ltb best.1 n then longer else other

-- The hextets from the index `i` on, less `skip` of them, behind the text `r`.
unfoldable pub compose : ℕ × ℕ → ℕ → ℕ → Bytes → List Bytes → Bytes
compose best i skip r [] = r
compose best i (suc skip) r (h ∷ v) = compose best (i + 1) skip r v
compose best i zero r (h ∷ v) =
    let squash = compose best (i + 1) (best.1 - 1) (r ++ codes "::") v in
    let colon = if not (is_empty r) && not (last_byte 0 r == b':') then r ++ b':' ∷ [] else r in
    let add = compose best (i + 1) zero (colon ++ h) v in
    if ltb 1 best.1 && i == best.0 then squash else add

unfoldable pub normalize_ipv6 : Bytes → Bytes
normalize_ipv6 s =
    let h = read_hextets (record { done = []; hex = []; squashed = none; stripped = false }) s in
    let v = expand h.squashed (last_hextet h) in compose (longest_run 0 false (0, 1) v) 0 0 [] v

unfoldable pub normalize : Host → Host
normalize h = elim h.kind [
  | name ↦ record h { value = map lcase h.value }
  | ipv4 ↦ record h { value = normalize_ipv4 true h.value }
  | ipv6 ↦ record h { value = normalize_ipv6 h.value }
]
