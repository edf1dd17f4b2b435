-- ===== src/Url/Host.antt =====
-- basic_url_host of libbutl/url.txx.
use libbutl.Prelude.{
  ℕ, ◌+◌, ◌-◌, Bool, true, false, not, ◌&&◌, ◌||◌, Option, none, some, [], ◌∷◌, ◌++◌, ◌==◌, ltb,
  leb, if◌then◌else◌, Bytes, length, take, is_empty, has_byte, Result, ok, err, ◌>>=◌,
}
use libbutl.ProjectName.{digit}
use libbutl.Number.{scan}
use libbutl.Url.Codec.{xdigit, unreserved, sub_delim, encode, decode}

-- url_host_kind.
pub data HostKind : Type 0 where
  ipv4 ipv6 name : HostKind

pub record Host : Type 0 where
  pub value : Bytes
  pub kind : HostKind

abbrev pub bad_ip : {A : Type 0} → Result A
bad_ip = err "invalid IPv6 address"

-- The number of hextets: those before this one and the length of this one.
unfoldable pub hextets_loop : ℕ → ℕ → Bytes → Result ℕ
hextets_loop r n [] = if n == 0 || ltb 4 n then bad_ip else ok (r + 1)
hextets_loop r n (c ∷ s) =
    let more = hextets_loop r (n + 1) s in
    let next = hextets_loop (r + 1) 0 s in
    if xdigit c
    then more
    else if not (c == b':')
    then bad_ip
    else if n == 0 || ltb 4 n
    then bad_ip
    else next

unfoldable pub hextets : Bytes → Result ℕ
hextets [] = ok 0
hextets (c ∷ s) = hextets_loop 0 0 (c ∷ s)

-- The texts before and after the first double-colon.
unfoldable pub find_squashed : Bytes → Option (Bytes × Bytes)
find_squashed [] = none
find_squashed (c ∷ []) = none
find_squashed (c ∷ d ∷ s) =
    let rest = find_squashed (d ∷ s) in
    if c == b':' && d == b':'
    then some ([], s)
    else elim rest [ none ↦ none | some (x, y) ↦ some (c ∷ x, y) ]

abbrev pub less_last : Bytes → Bytes
less_last s = take (length s - 1) s

abbrev pub last_byte : ℕ → Bytes → ℕ
last_byte c [] = c
last_byte c (d ∷ s) = last_byte d s

-- The text behind the opening bracket.
unfoldable pub ipv6_host : Bytes → Result Host
ipv6_host s =
    let value : Result Host = ok (record { value = less_last s; kind = ipv6 }) in
    if not (last_byte b'[' s == b']') then bad_ip else elim (find_squashed s) [
      | none ↦ hextets (less_last s) >>= λ n. if n == 8 then value else bad_ip
      | some (x, y) ↦ hextets x >>= λ n1.
          hextets (less_last y) >>= λ n2. if ltb (n1 + n2) 8 then value else bad_ip
    ]

-- The octet `oct` after `n` others is valid.
abbrev pub ipv4_oct : ℕ → Bytes → Bool
ipv4_oct n oct = not (n == 4 || is_empty oct || ltb 3 (length oct) || ltb 255 (scan 0 oct).0)

unfoldable pub is_ipv4 : ℕ → Bytes → Bytes → Bool
is_ipv4 n oct [] = ipv4_oct n oct && n + 1 == 4
is_ipv4 n oct (c ∷ s) =
    let more = is_ipv4 n (oct ++ c ∷ []) s in
    let next = is_ipv4 (n + 1) [] s in
    if digit c then more else if not (c == b'.') || not (ipv4_oct n oct) then false else next

unfoldable pub check_host : Bytes → Bool
check_host [] = true
check_host (c ∷ s) = (unreserved c || sub_delim c || c == b'%') && check_host s

unfoldable pub name_host : Bytes → Result Host
name_host v =
    if not (check_host v)
    then err "invalid host name"
    else if has_byte b'%' v
    then (decode (λ c. c) v >>= λ s. ok (record { value = s; kind = name }))
    else ok (record { value = v; kind = name })

-- The constructor from a string.
unfoldable pub host : Bytes → Result Host
host [] = name_host []
host (c ∷ s) =
    if c == b'['
    then ipv6_host s
    else if is_ipv4 0 [] (c ∷ s)
    then ok (record { value = c ∷ s; kind = ipv4 })
    else name_host (c ∷ s)

-- `string`.
unfoldable pub string : Host → Bytes
string h = if is_empty h.value then [] else elim h.kind [
  | ipv4 ↦ h.value
  | ipv6 ↦ b'[' ∷ (h.value ++ b']' ∷ [])
  | name ↦ encode (λ c. (c, leb 0x80 c)) h.value
]
