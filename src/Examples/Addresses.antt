-- ===== src/Examples/Addresses.antt =====
-- Client addresses behind a proxy, with addresses as texts and networks of one address.
use strait.Base.{
  inl, inr, arith, ◌||◌, Option, none, some, [], ◌∷◌, Bytes, codes, same, has_prefix, if◌then◌else◌,
  ◌≡◌, ◌⊎◌, refl,
}
use strait.Limiter.Address.{NetLib, extract_client_ip, trim_ipv6_brackets}
use strait.Limiter.Address.Networks.{IsRemote, AreRead, AreTrusting}
use strait.Limiter.Address.Safe.{IsAddress, extract_client_ip-safe}
use strait.Limiter.Address.Forwarded.{extract_client_ip-first}

abbrev unspaced : Bytes → Bytes
unspaced s = s

abbrev known_ip : Bytes → Option Bytes
known_ip s = if same s (codes "10.0.0.1") || same s (codes "9.9.9.9") then some s else none

abbrev known_host : Bytes → Option Bytes
known_host s = if same s (codes "10.0.0.1:80") then some (codes "10.0.0.1") else none

-- Networks of one address, which are written as the address is.
abbrev one_address : NetLib
one_address = record {
  Ip = Bytes;
  Net = Bytes;
  trim_space = unspaced;
  parse_ip = known_ip;
  ip_text = unspaced;
  split_host_port = known_host;
  holds = same;
  parse_cidr = some;
}

abbrev client : Bytes → Bytes
client xff = extract_client_ip one_address (codes "10.0.0.1:80") xff [] (codes "10.0.0.1" ∷ [])

client_of_dirty : client (codes "unknown,9.9.9.9") ≡ codes "9.9.9.9"
unfolding extract_client_ip same has_prefix
client_of_dirty = refl

client_of_none : client [] ≡ codes "10.0.0.1"
unfolding extract_client_ip same has_prefix
client_of_none = refl

extract_client_ip-safe_example :
    (remote : Bytes) × IsRemote one_address (codes "10.0.0.1:80") remote
    × ((client (codes "unknown,9.9.9.9") ≡ remote)
        ⊎ AreRead one_address (codes "10.0.0.1" ∷ [])
          × AreTrusting one_address (codes "10.0.0.1" ∷ []) remote
          × IsAddress one_address (client (codes "unknown,9.9.9.9")))
extract_client_ip-safe_example =
    extract_client_ip-safe one_address (codes "10.0.0.1:80") (codes "unknown,9.9.9.9") []
      (codes "10.0.0.1" ∷ [])

extract_client_ip-first_example : client (codes "unknown,9.9.9.9,10.0.0.1") ≡ codes "9.9.9.9"
unfolding same has_prefix trim_ipv6_brackets
extract_client_ip-first_example =
    extract_client_ip-first one_address (codes "10.0.0.1:80") (codes "10.0.0.1")
      (codes "unknown" ∷ []) (codes "9.9.9.9") (some (codes "10.0.0.1")) [] (codes "10.0.0.1" ∷ [])
      (codes "9.9.9.9") (inr (refl, refl)) (ground arith, tt) (inl (refl, refl)) (ground arith, tt)
      ((λ ip h. h.1), tt) (ground arith) (refl, refl) refl refl
