-- ===== src/Limiter/Address.antt =====
-- The address of a client: internal/middleware/ip_cidr.go and `extractClientIP` of
-- internal/middleware/ratelimit.go. The package `net` and `strings.TrimSpace` are a parameter.
pub mod Entries
pub mod Networks
pub mod Safe
pub mod Forwarded
use strait.Base.{
  ℕ, suc, ap, ◌∙◌, sym, subst, arith, Every, ◌≢◌, ◌↔◌, Bool, true, false, not, ◌&&◌, ◌||◌, Option,
  none, some, List, [], ◌∷◌, ◌++◌, append_assoc, append-nil, Bytes, is_empty, length, take, drop,
  ◌-◌, ◌==◌, leb, has_prefix, if◌then◌else◌, ◌≡◌, ◌⊎◌, refl, inl, inr, Bool-cases,
}

-- `strings.Split(xff, ",")`
unfoldable pub split_commas : Bytes → Bytes → List Bytes
split_commas part [] = part ∷ []
split_commas part (c ∷ s) = elim (c == b',') [
  | true ↦ part ∷ split_commas [] s
  | false ↦ split_commas (part ++ c ∷ []) s
]

unfoldable pub ends_in_bracket : Bytes → Bool
ends_in_bracket [] = false
ends_in_bracket (c ∷ s) = let rest = ends_in_bracket s in if is_empty s then c == b']' else rest

-- `trimIPv6Brackets`
unfoldable pub trim_ipv6_brackets : Bytes → Bytes
unfolding ends_in_bracket
trim_ipv6_brackets s =
    if leb 2 (length s) && has_prefix s (b'[' ∷ []) && ends_in_bracket s
    then take (length s - 2) (drop 1 s)
    else s

unfoldable pub valid_or : Bytes → Bytes → Bytes
valid_or ip other = if is_empty ip then other else ip

-- What the code uses of other packages: addresses and networks, `strings.TrimSpace`, `net.ParseIP`,
-- `String` of an address, the host of `net.SplitHostPort`, `Contains` and `net.ParseCIDR`.
pub record NetLib : Type 1 where
  pub Ip : Type 0
  pub Net : Type 0
  pub trim_space : Bytes → Bytes
  pub parse_ip : Bytes → Option Ip
  pub ip_text : Ip → Bytes
  pub split_host_port : Bytes → Option Bytes
  pub holds : Net → Ip → Bool
  pub parse_cidr : Bytes → Option Net

module _ (lib : NetLib) where
  open lib use {Ip, Net, trim_space, parse_ip, ip_text, split_host_port, holds, parse_cidr}

  unfoldable pub add_net : Option Net → Option (List Net) → Option (List Net)
  add_net none rest = none
  add_net (some n) none = none
  add_net (some n) (some ns) = some (n ∷ ns)

  -- `parseCIDRs`; `none` for an error
  unfoldable pub parse_cidrs : List Bytes → Option (List Net)
  unfolding add_net
  parse_cidrs [] = some []
  parse_cidrs (cidr ∷ cidrs) =
      let rest = parse_cidrs cidrs in
      if is_empty (trim_space cidr) then rest else add_net (parse_cidr (trim_space cidr)) rest

  unfoldable pub host_or_all : Bytes → Option Bytes → Bytes
  host_or_all remote_addr none = remote_addr
  host_or_all remote_addr (some host) = trim_space host

  -- `remoteIP`, on `RemoteAddr`
  unfoldable pub remote_ip : Bytes → Bytes
  unfolding host_or_all
  remote_ip addr =
      if is_empty (trim_space addr)
      then []
      else host_or_all (trim_space addr) (split_host_port (trim_space addr))

  unfoldable pub held_by : List Net → Option Ip → Bool
  held_by nets none = false
  held_by [] (some ip) = false
  held_by (n ∷ nets) (some ip) = holds n ip || held_by nets (some ip)

  -- `ipInCIDRs`
  unfoldable pub ip_in_cidrs : Bytes → List Net → Bool
  unfolding held_by
  ip_in_cidrs ip nets = held_by nets (parse_ip (trim_space ip))

  unfoldable pub text_or_empty : Option Ip → Bytes
  text_or_empty none = []
  text_or_empty (some ip) = ip_text ip

  unfoldable pub host_candidate : Option Bytes → Bytes
  unfolding text_or_empty trim_ipv6_brackets
  host_candidate none = []
  host_candidate (some host) = text_or_empty (parse_ip (trim_space (trim_ipv6_brackets host)))

  unfoldable pub direct_or_host : Bytes → Option Ip → Bytes
  unfolding host_candidate
  direct_or_host candidate none = host_candidate (split_host_port candidate)
  direct_or_host candidate (some ip) = ip_text ip

  -- `normalizeIPCandidate`
  unfoldable pub normalize_ip_candidate : Bytes → Bytes
  unfolding direct_or_host trim_ipv6_brackets
  normalize_ip_candidate raw =
      let candidate = trim_space raw in
      if is_empty candidate
      then []
      else direct_or_host candidate (parse_ip (trim_ipv6_brackets candidate))

  unfoldable pub first_candidate : List Bytes → Bytes
  unfolding normalize_ip_candidate valid_or
  first_candidate [] = []
  first_candidate (part ∷ parts) = valid_or (normalize_ip_candidate part) (first_candidate parts)

  -- `firstValidForwardedIP`
  unfoldable pub first_valid_forwarded_ip : Bytes → Bytes
  unfolding first_candidate split_commas
  first_valid_forwarded_ip xff =
      if is_empty (trim_space xff) then [] else first_candidate (split_commas [] xff)

  -- `extractClientIPFromTrustedProxy`, on `RemoteAddr`, `X-Forwarded-For` and `X-Real-IP`
  unfoldable pub extract_client_ip_from_trusted_proxy : Bytes → Bytes → Bytes → List Net → Bytes
  unfolding remote_ip ip_in_cidrs first_valid_forwarded_ip valid_or
  extract_client_ip_from_trusted_proxy addr xff real_ip nets =
      if not (ip_in_cidrs (remote_ip addr) nets)
      then remote_ip addr
      else valid_or (first_valid_forwarded_ip xff)
          (valid_or (normalize_ip_candidate real_ip) (remote_ip addr))

  unfoldable pub with_nets : Bytes → Bytes → Bytes → Option (List Net) → Bytes
  unfolding extract_client_ip_from_trusted_proxy
  with_nets addr xff real_ip none = remote_ip addr
  with_nets addr xff real_ip (some nets) =
      extract_client_ip_from_trusted_proxy addr xff real_ip nets

  -- `extractClientIP`, with the trusted networks of the configuration
  unfoldable pub extract_client_ip : Bytes → Bytes → Bytes → List Bytes → Bytes
  unfolding with_nets parse_cidrs
  extract_client_ip addr xff real_ip cidrs = with_nets addr xff real_ip (parse_cidrs cidrs)
