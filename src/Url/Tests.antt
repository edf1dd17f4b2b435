-- ===== src/Url/Tests.antt =====
-- Runs of the URL code, after tests/url, and the theorems at concrete inputs.
use libbutl.Prelude.{not, inl, inr, ◌≡◌, refl, [], ok, err, false, codes, arith}
use libbutl.Url.Codec.{encode, decode, unreserved}
use libbutl.Url.Host.{
  host, string, name, ipv4, ipv6, name_host, check_host, is_ipv4, ipv6_host, hextets, hextets_loop,
  find_squashed,
}
use libbutl.Url.Normalize.{
  normalize, normalize_ipv4, normalize_ipv6, read_hextets, expand, longest_run, run_length, compose,
}
use libbutl.Url.RoundTrip.{decode-encode_matching}
use libbutl.Url.Names.{host-string}
use libbutl.Number.{scan}

squashed_longest :
    normalize (record { value = codes "0ABC::1:0:0:0:0"; kind = ipv6 })
    ≡ record { value = codes "abc:0:0:1::"; kind = ipv6 }
unfolding normalize normalize_ipv6 read_hextets expand longest_run run_length compose
squashed_longest = refl

stripped_octets :
    normalize (record { value = codes "000.01.10.100"; kind = ipv4 })
    ≡ record { value = codes "0.1.10.100"; kind = ipv4 }
unfolding normalize normalize_ipv4
stripped_octets = refl

host_ipv6 : host (codes "[::1]") ≡ ok (record { value = codes "::1"; kind = ipv6 })
unfolding host ipv6_host hextets hextets_loop find_squashed
host_ipv6 = refl

host_ipv6_long : host (codes "[1:2:3:4:5:6:7::8]") ≡ err "invalid IPv6 address"
unfolding host ipv6_host hextets hextets_loop find_squashed
host_ipv6_long = refl

host_ipv4 : host (codes "127.0.0.1") ≡ ok (record { value = codes "127.0.0.1"; kind = ipv4 })
unfolding host is_ipv4 scan
host_ipv4 = refl

-- A name with a space is written without its encoding, and not read back.
host_space : host (codes "a%20b") ≡ ok (record { value = codes "a b"; kind = name })
unfolding host is_ipv4 scan name_host check_host decode
host_space = refl

string_space : host (string (record { value = codes "a b"; kind = name })) ≡ err "invalid host name"
unfolding host is_ipv4 scan name_host check_host decode string encode
string_space = refl

decode-encode_matching_example :
    decode (λ c. c) (encode (λ c. (c, not (unreserved c))) (codes "a %/")) ≡ ok (codes "a %/")
decode-encode_matching_example =
    decode-encode_matching (λ c. (c, not (unreserved c))) (λ c. c) (codes "a %/") (omega arith)
      (
        λ h. inr (refl, refl, refl),
        (λ h. inl (refl, refl), (λ h. inl (refl, refl), (λ h. inl (refl, refl), tt))),
      )

not_ipv4 : is_ipv4 0 [] (string (record { value = codes "a-b"; kind = name })) ≡ false
unfolding string encode is_ipv4
not_ipv4 = refl

host-string_example :
    host (string (record { value = codes "a-b"; kind = name }))
    ≡ ok (record { value = codes "a-b"; kind = name })
host-string_example = host-string (codes "a-b") (omega arith) (refl, (refl, (refl, tt))) not_ipv4
