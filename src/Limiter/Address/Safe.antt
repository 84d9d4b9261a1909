-- ===== src/Limiter/Address/Safe.antt =====
-- Who may choose the client address of internal/middleware/ip_cidr.go.
use strait.Base.{
  ◌∙◌, sym, subst, true, Option, none, some, List, [], ◌∷◌, Bytes, is_empty, ◌≡◌, ◌⊎◌, refl, inl,
  inr, Bool-cases,
}
use strait.Limiter.Address.{
  NetLib, split_commas, trim_ipv6_brackets, valid_or, parse_cidrs, remote_ip, ip_in_cidrs,
  text_or_empty, host_candidate, direct_or_host, normalize_ip_candidate, first_candidate,
  first_valid_forwarded_ip, extract_client_ip_from_trusted_proxy, with_nets, extract_client_ip,
}
use strait.Limiter.Address.Networks.{
  IsRemote, AreRead, AreTrusting, IsReading, parse_cidrs-IsReading, remote_ip-IsRemote,
  ip_in_cidrs-trusting,
}

module _ (lib : NetLib) where
  open lib use {Ip, Net, trim_space, parse_ip, ip_text, split_host_port, holds, parse_cidr}

  -- A text that `String` wrote for an address `net.ParseIP` read.
  abbrev pub IsAddress : Bytes → Type 0
  IsAddress out = (s : Bytes) × (ip : Ip) × (parse_ip s ≡ some ip) × (out ≡ ip_text ip)

  abbrev IsBlankOrAddress : Bytes → Type 0
  IsBlankOrAddress out = (out ≡ []) ⊎ IsAddress out

  text_or_empty-IsBlankOrAddress :
      (s : Bytes) (found : Option Ip)
      → parse_ip s ≡ found
      → IsBlankOrAddress (text_or_empty lib found)
  unfolding text_or_empty
  text_or_empty-IsBlankOrAddress s none h = inl refl
  text_or_empty-IsBlankOrAddress s (some ip) h = inr (s, ip, h, refl)

  host_candidate-IsBlankOrAddress :
      (host : Option Bytes) → IsBlankOrAddress (host_candidate lib host)
  unfolding host_candidate
  host_candidate-IsBlankOrAddress none = inl refl
  host_candidate-IsBlankOrAddress (some host) =
      text_or_empty-IsBlankOrAddress (trim_space (trim_ipv6_brackets host)) _ refl

  direct_or_host-IsBlankOrAddress :
      (s candidate : Bytes) (found : Option Ip)
      → parse_ip s ≡ found
      → IsBlankOrAddress (direct_or_host lib candidate found)
  unfolding direct_or_host
  direct_or_host-IsBlankOrAddress s candidate none h =
      host_candidate-IsBlankOrAddress (split_host_port candidate)
  direct_or_host-IsBlankOrAddress s candidate (some ip) h = inr (s, ip, h, refl)

  normalize_ip_candidate-IsBlankOrAddress :
      (raw : Bytes) → IsBlankOrAddress (normalize_ip_candidate lib raw)
  unfolding normalize_ip_candidate
  normalize_ip_candidate-IsBlankOrAddress raw = elim (Bool-cases (is_empty (trim_space raw))) [
    | inl e ↦ rw e (inl refl)
    | inr e ↦ rw e (
        direct_or_host-IsBlankOrAddress (trim_ipv6_brackets (trim_space raw)) (trim_space raw) _
          refl)
  ]

  -- `valid_or` keeps the second text, or the first one is an address.
  valid_or-cases :
      (ip other : Bytes)
      → IsBlankOrAddress ip
      → (valid_or ip other ≡ other) ⊎ IsAddress (valid_or ip other)
  unfolding valid_or
  valid_or-cases ip other (inl blank) = rw (blank) (inl refl)
  valid_or-cases ip other (inr found) = elim (Bool-cases (is_empty ip)) [
    | inl e ↦ rw e (inl refl)
    | inr e ↦ rw e (inr found)
  ]

  first_candidate-IsBlankOrAddress :
      (parts : List Bytes) → IsBlankOrAddress (first_candidate lib parts)
  unfolding first_candidate
  first_candidate-IsBlankOrAddress [] = inl refl
  first_candidate-IsBlankOrAddress (part ∷ parts) =
      elim (valid_or-cases (normalize_ip_candidate lib part) (first_candidate lib parts)
        (normalize_ip_candidate-IsBlankOrAddress part)) [
          | inl e ↦ subst IsBlankOrAddress (sym e) (first_candidate-IsBlankOrAddress parts)
          | inr found ↦ inr found
        ]

  first_valid_forwarded_ip-IsBlankOrAddress :
      (xff : Bytes) → IsBlankOrAddress (first_valid_forwarded_ip lib xff)
  unfolding first_valid_forwarded_ip
  first_valid_forwarded_ip-IsBlankOrAddress xff = elim (Bool-cases (is_empty (trim_space xff))) [
    | inl e ↦ rw e (inl refl)
    | inr e ↦ rw e (first_candidate-IsBlankOrAddress (split_commas [] xff))
  ]

  extract_client_ip_from_trusted_proxy-safe :
      (addr xff real_ip : Bytes) (nets : List Net)
      → (extract_client_ip_from_trusted_proxy lib addr xff real_ip nets ≡ remote_ip lib addr)
        ⊎ ((ip_in_cidrs lib (remote_ip lib addr) nets ≡ true)
            × IsAddress (extract_client_ip_from_trusted_proxy lib addr xff real_ip nets))
  unfolding extract_client_ip_from_trusted_proxy
  extract_client_ip_from_trusted_proxy-safe addr xff real_ip nets =
      elim (Bool-cases (ip_in_cidrs lib (remote_ip lib addr) nets)) [
        | inr e ↦ rw e (inl refl)
        | inl e ↦
            rw e
              (elim (valid_or-cases (first_valid_forwarded_ip lib xff)
                (valid_or (normalize_ip_candidate lib real_ip) (remote_ip lib addr))
                (first_valid_forwarded_ip-IsBlankOrAddress xff)) [
                  | inr found ↦ inr (refl, found)
                  | inl kept ↦
                      elim (valid_or-cases (normalize_ip_candidate lib real_ip) (remote_ip lib addr)
                        (normalize_ip_candidate-IsBlankOrAddress real_ip)) [
                          | inl same_kept ↦ inl (kept ∙ same_kept)
                          | inr found ↦ inr (refl, subst IsAddress (sym kept) found)
                        ]
                ])
      ]

  with_nets-safe :
      (addr xff real_ip : Bytes) (cidrs : List Bytes) (read : Option (List Net))
      → IsReading lib cidrs read
      → (with_nets lib addr xff real_ip read ≡ remote_ip lib addr)
        ⊎ AreRead lib cidrs
          × AreTrusting lib cidrs (remote_ip lib addr)
          × IsAddress (with_nets lib addr xff real_ip read)
  unfolding with_nets
  with_nets-safe addr xff real_ip cidrs none k = inl refl
  with_nets-safe addr xff real_ip cidrs (some nets) k =
      elim (extract_client_ip_from_trusted_proxy-safe addr xff real_ip nets) [
        | inl kept ↦ inl kept
        | inr (trusted, found) ↦
            inr (k.0, (ip_in_cidrs-trusting lib (remote_ip lib addr) cidrs nets k).0 trusted, found)
      ]

  -- The client address is the address of the connection without its port, whatever the two headers
  -- hold, or every configured network that is not blank can be read, one of them contains the
  -- address of the connection, and the client address is the text of an address that was parsed.
  pub extract_client_ip-safe :
      (addr xff real_ip : Bytes) (cidrs : List Bytes)
      → (remote : Bytes) × IsRemote lib addr remote
        × ((extract_client_ip lib addr xff real_ip cidrs ≡ remote)
            ⊎ AreRead lib cidrs
              × AreTrusting lib cidrs remote
              × IsAddress (extract_client_ip lib addr xff real_ip cidrs))
  unfolding extract_client_ip
  extract_client_ip-safe addr xff real_ip cidrs = (
    remote_ip lib addr,
    remote_ip-IsRemote lib addr,
    with_nets-safe addr xff real_ip cidrs (parse_cidrs lib cidrs) (parse_cidrs-IsReading lib cidrs),
  )
