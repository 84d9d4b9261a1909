-- ===== src/Limiter/Address/Forwarded.antt =====
-- The entry of X-Forwarded-For that `extractClientIP` of internal/middleware/ratelimit.go takes.
use strait.Base.{
  ap, ◌∙◌, sym, subst, Every, false, Option, none, some, List, [], ◌∷◌, ◌++◌, Bytes, is_empty, ◌≡◌,
  refl, inl, inr, Bool-cases,
}
use strait.Limiter.Address.{
  NetLib, valid_or, parse_cidrs, remote_ip, text_or_empty, host_candidate, direct_or_host,
  normalize_ip_candidate, first_candidate, first_valid_forwarded_ip,
  extract_client_ip_from_trusted_proxy, with_nets, extract_client_ip,
}
use strait.Limiter.Address.Networks.{
  IsRemote, AreRead, AreTrusting, IsReading, parse_cidrs-IsReading, ip_in_cidrs-trusting,
  IsRemote-remote_ip,
}
use strait.Limiter.Address.Entries.{
  HasNoComma, between_commas, split_commas-between, unbracketed, trim_ipv6_brackets-lem,
}

module _ (lib : NetLib) where
  open lib use {Ip, Net, trim_space, parse_ip, ip_text, split_host_port, holds, parse_cidr}

  abbrev NamesHost : Option Bytes → Ip → Type 0
  NamesHost none ip = ⊥
  NamesHost (some host) ip = parse_ip (trim_space (unbracketed host)) ≡ some ip

  abbrev NamesDirect : Bytes → Option Ip → Ip → Type 0
  NamesDirect entry none ip = NamesHost (split_host_port entry) ip
  NamesDirect entry (some found) ip = found ≡ ip

  -- The entry, without spaces around it, is an address, with brackets or without them, or else the
  -- address has a port.
  abbrev pub Names : Bytes → Ip → Type 0
  Names entry ip =
      (is_empty (trim_space entry) ≡ false)
      × NamesDirect (trim_space entry) (parse_ip (unbracketed (trim_space entry))) ip

  -- The entry is no address.
  abbrev pub IsJunk : Bytes → Type 0
  IsJunk entry = (ip : Ip) → Names entry ip → ⊥

  text_or_empty-NamesHost :
      (host : Option Bytes) (ip : Ip) → NamesHost host ip → host_candidate lib host ≡ ip_text ip
  unfolding host_candidate text_or_empty
  text_or_empty-NamesHost none ip h = absurd h
  text_or_empty-NamesHost (some host) ip h = rw (trim_ipv6_brackets-lem host, h) refl

  direct_or_host-NamesDirect :
      (entry : Bytes) (o : Option Ip) (ip : Ip)
      → NamesDirect entry o ip
      → direct_or_host lib entry o ≡ ip_text ip
  unfolding direct_or_host
  direct_or_host-NamesDirect entry none ip h = text_or_empty-NamesHost (split_host_port entry) ip h
  direct_or_host-NamesDirect entry (some found) ip h = ap ip_text h

  normalize_ip_candidate-Names :
      (entry : Bytes) (ip : Ip) → Names entry ip → normalize_ip_candidate lib entry ≡ ip_text ip
  unfolding normalize_ip_candidate
  normalize_ip_candidate-Names entry ip (e, h) =
      rw (e, trim_ipv6_brackets-lem (trim_space entry))
        (direct_or_host-NamesDirect (trim_space entry) _ ip h)

  text_or_empty-junk :
      (found : Option Ip) → ((ip : Ip) → found ≡ some ip → ⊥) → text_or_empty lib found ≡ []
  unfolding text_or_empty
  text_or_empty-junk none h = refl
  text_or_empty-junk (some ip) h = absurd (h ip refl)

  host_candidate-junk :
      (host : Option Bytes) → ((ip : Ip) → NamesHost host ip → ⊥) → host_candidate lib host ≡ []
  unfolding host_candidate text_or_empty
  host_candidate-junk none h = refl
  host_candidate-junk (some host) h = rw (trim_ipv6_brackets-lem host) (text_or_empty-junk _ h)

  direct_or_host-junk :
      (entry : Bytes) (o : Option Ip)
      → ((ip : Ip) → NamesDirect entry o ip → ⊥)
      → direct_or_host lib entry o ≡ []
  unfolding direct_or_host
  direct_or_host-junk entry none h = host_candidate-junk (split_host_port entry) h
  direct_or_host-junk entry (some found) h = absurd (h found refl)

  normalize_ip_candidate-IsJunk :
      (entry : Bytes) → IsJunk entry → normalize_ip_candidate lib entry ≡ []
  unfolding normalize_ip_candidate
  normalize_ip_candidate-IsJunk entry h = elim (Bool-cases (is_empty (trim_space entry))) [
    | inl e ↦ rw e refl
    | inr e ↦
        rw (e, trim_ipv6_brackets-lem (trim_space entry))
          (direct_or_host-junk (trim_space entry) _ (λ ip k. h ip (e, k)))
  ]

  -- After entries that are junk the first address is the result.
  first_candidate-after :
      (junk : List Bytes) (entry : Bytes) (rest : List Bytes) (ip : Ip)
      → Every IsJunk junk
      → Names entry ip
      → is_empty (ip_text ip) ≡ false
      → first_candidate lib (junk ++ entry ∷ rest) ≡ ip_text ip
  unfolding first_candidate valid_or
  first_candidate-after [] entry rest ip j k shown =
      rw (normalize_ip_candidate-Names entry ip k, shown) refl
  first_candidate-after (x ∷ junk) entry rest ip (h, j) k shown =
      rw (normalize_ip_candidate-IsJunk x h) (first_candidate-after junk entry rest ip j k shown)

  first_valid_forwarded_ip-first :
      (junk : List Bytes) (entry : Bytes) (others : Option Bytes) (ip : Ip)
      → Every HasNoComma junk
      → Every IsJunk junk
      → HasNoComma entry
      → Names entry ip
      → is_empty (ip_text ip) ≡ false
      → is_empty (trim_space (between_commas junk entry others)) ≡ false
      → first_valid_forwarded_ip lib (between_commas junk entry others) ≡ ip_text ip
  unfolding first_valid_forwarded_ip
  first_valid_forwarded_ip-first junk entry others ip plain_junk none_named plain named shown
        written =
      let parts = split_commas-between junk entry others plain_junk plain in
      rw (written, parts.1) (first_candidate-after junk entry parts.0 ip none_named named shown)

  with_nets-trusting :
      (addr xff real_ip : Bytes) (cidrs : List Bytes) (read : Option (List Net))
      → IsReading lib cidrs read
      → AreRead lib cidrs
      → AreTrusting lib cidrs (remote_ip lib addr)
      → is_empty (first_valid_forwarded_ip lib xff) ≡ false
      → with_nets lib addr xff real_ip read ≡ first_valid_forwarded_ip lib xff
  unfolding with_nets extract_client_ip_from_trusted_proxy valid_or
  with_nets-trusting addr xff real_ip cidrs none k all trusting shown = absurd (k all)
  with_nets-trusting addr xff real_ip cidrs (some nets) k all trusting shown =
      rw ((ip_in_cidrs-trusting lib (remote_ip lib addr) cidrs nets k).1 trusting, shown) refl

  -- When every configured network that is not blank can be read and one of them contains the
  -- address of the connection, the client address is the first entry of X-Forwarded-For that is an
  -- address, behind any entries that are none and whatever follows it: entries stand between
  -- commas and have none themselves, the header is not blank, and the text of the address is not
  -- empty.
  pub extract_client_ip-first :
      (addr remote : Bytes) (junk : List Bytes) (entry : Bytes) (others : Option Bytes)
      (real_ip : Bytes) (cidrs : List Bytes) (ip : Ip)
      → IsRemote lib addr remote
      → AreRead lib cidrs
      → AreTrusting lib cidrs remote
      → Every HasNoComma junk
      → Every IsJunk junk
      → HasNoComma entry
      → Names entry ip
      → is_empty (ip_text ip) ≡ false
      → is_empty (trim_space (between_commas junk entry others)) ≡ false
      → extract_client_ip lib addr (between_commas junk entry others) real_ip cidrs ≡ ip_text ip
  unfolding extract_client_ip
  extract_client_ip-first addr remote junk entry others real_ip cidrs ip at all trusting plain_junk
        none_named plain named shown written =
      let first =
        first_valid_forwarded_ip-first junk entry others ip plain_junk none_named plain named shown
          written in
      with_nets-trusting addr (between_commas junk entry others) real_ip cidrs
        (parse_cidrs lib cidrs) (parse_cidrs-IsReading lib cidrs) all
        (subst (AreTrusting lib cidrs) (IsRemote-remote_ip lib addr remote at) trusting)
        (subst (λ s. is_empty s ≡ false) (sym first) shown)
      ∙ first
