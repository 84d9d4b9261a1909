-- ===== src/Limiter/Address/Networks.antt =====
-- Trusted networks and the address of a connection, internal/middleware/ip_cidr.go, said without it.
use strait.Base.{
  arith, ◌≢◌, ◌↔◌, true, false, Option, none, some, List, [], ◌∷◌, Bytes, is_empty, ◌≡◌, ◌⊎◌, refl,
  inl, inr, Bool-cases,
}
use strait.Limiter.Address.{
  NetLib, add_net, parse_cidrs, host_or_all, remote_ip, held_by, ip_in_cidrs,
}

module _ (lib : NetLib) where
  open lib use {Ip, Net, trim_space, parse_ip, ip_text, split_host_port, holds, parse_cidr}

  abbrev pub IsHost : Bytes → Option Bytes → Bytes → Type 0
  IsHost addr none remote = remote ≡ addr
  IsHost addr (some host) remote = remote ≡ trim_space host

  -- The address without its port, or all of it where it has none.
  abbrev pub IsRemote : Bytes → Bytes → Type 0
  IsRemote addr remote =
      (is_empty (trim_space addr) ≡ true) × (remote ≡ [])
      ⊎ (is_empty (trim_space addr) ≡ false)
        × IsHost (trim_space addr) (split_host_port (trim_space addr)) remote

  -- Every configured network that is not blank can be read.
  abbrev pub AreRead : List Bytes → Type 0
  AreRead [] = Unit
  AreRead (cidr ∷ cidrs) =
      ((is_empty (trim_space cidr) ≡ true) ⊎ (parse_cidr (trim_space cidr) ≢ none)) × AreRead cidrs

  abbrev pub Contains : Option Net → Ip → Type 0
  Contains none ip = ⊥
  Contains (some n) ip = holds n ip ≡ true

  -- Some configured network that is not blank contains the address.
  abbrev pub Hold : List Bytes → Ip → Type 0
  Hold [] ip = ⊥
  Hold (cidr ∷ cidrs) ip =
      (is_empty (trim_space cidr) ≡ false) × Contains (parse_cidr (trim_space cidr)) ip
      ⊎ Hold cidrs ip

  abbrev pub HoldRead : List Bytes → Option Ip → Type 0
  HoldRead cidrs none = ⊥
  HoldRead cidrs (some ip) = Hold cidrs ip

  -- The text is an address that some configured network contains.
  abbrev pub AreTrusting : List Bytes → Bytes → Type 0
  AreTrusting cidrs remote = HoldRead cidrs (parse_ip (trim_space remote))

  abbrev pub IsReading : List Bytes → Option (List Net) → Type 0
  IsReading cidrs none = AreRead cidrs → ⊥
  IsReading cidrs (some nets) =
      AreRead cidrs × ((ip : Ip) → (held_by lib nets (some ip) ≡ true) ↔ Hold cidrs ip)

  pub add_net-IsReading :
      (cidr : Bytes) (cidrs : List Bytes) (o : Option Net) (rest : Option (List Net))
      → is_empty (trim_space cidr) ≡ false
      → parse_cidr (trim_space cidr) ≡ o
      → IsReading cidrs rest
      → IsReading (cidr ∷ cidrs) (add_net lib o rest)
  unfolding add_net held_by
  add_net-IsReading cidr cidrs none rest e h k = ground arith
  add_net-IsReading cidr cidrs (some n) none e h k = ground (arith, k)
  add_net-IsReading cidr cidrs (some n) (some ns) e h k =
      ((ground arith, k.0), λ ip. rw (e, h) (ground (arith, k.1 ip)))

  pub blank-IsReading :
      (cidr : Bytes) (cidrs : List Bytes) (rest : Option (List Net))
      → is_empty (trim_space cidr) ≡ true
      → IsReading cidrs rest
      → IsReading (cidr ∷ cidrs) rest
  blank-IsReading cidr cidrs none e k = ground (arith, k)
  blank-IsReading cidr cidrs (some ns) e k = ((inl e, k.0), λ ip. ground (arith, k.1 ip))

  pub parse_cidrs-IsReading : (cidrs : List Bytes) → IsReading cidrs (parse_cidrs lib cidrs)
  unfolding parse_cidrs held_by
  parse_cidrs-IsReading [] = (tt, λ ip. ground arith)
  parse_cidrs-IsReading (cidr ∷ cidrs) = elim (Bool-cases (is_empty (trim_space cidr))) [
    | inl e ↦ rw e (blank-IsReading cidr cidrs _ e (parse_cidrs-IsReading cidrs))
    | inr e ↦ rw e (
        add_net-IsReading cidr cidrs _ (parse_cidrs lib cidrs) e refl (parse_cidrs-IsReading cidrs))
  ]

  pub host_or_all-IsHost :
      (addr : Bytes) (host : Option Bytes) → IsHost addr host (host_or_all lib addr host)
  unfolding host_or_all
  host_or_all-IsHost addr none = refl
  host_or_all-IsHost addr (some host) = refl

  pub remote_ip-IsRemote : (addr : Bytes) → IsRemote addr (remote_ip lib addr)
  unfolding remote_ip
  remote_ip-IsRemote addr = elim (Bool-cases (is_empty (trim_space addr))) [
    | inl e ↦ rw e (inl (refl, refl))
    | inr e ↦
        rw e (inr (refl, host_or_all-IsHost (trim_space addr) (split_host_port (trim_space addr))))
  ]

  pub held_by-HoldRead :
      (cidrs : List Bytes) (nets : List Net) (o : Option Ip)
      → IsReading cidrs (some nets)
      → (held_by lib nets o ≡ true) ↔ HoldRead cidrs o
  unfolding held_by
  held_by-HoldRead cidrs nets none k = ground arith
  held_by-HoldRead cidrs nets (some ip) k = k.1 ip

  pub ip_in_cidrs-trusting :
      (remote : Bytes) (cidrs : List Bytes) (nets : List Net)
      → IsReading cidrs (some nets)
      → (ip_in_cidrs lib remote nets ≡ true) ↔ AreTrusting cidrs remote
  unfolding ip_in_cidrs held_by
  ip_in_cidrs-trusting remote cidrs nets k =
      held_by-HoldRead cidrs nets (parse_ip (trim_space remote)) k

  pub IsHost-host_or_all :
      (addr : Bytes) (host : Option Bytes) (remote : Bytes)
      → IsHost addr host remote
      → remote ≡ host_or_all lib addr host
  unfolding host_or_all
  IsHost-host_or_all addr none remote h = h
  IsHost-host_or_all addr (some host) remote h = h

  pub IsRemote-remote_ip :
      (addr remote : Bytes) → IsRemote addr remote → remote ≡ remote_ip lib addr
  unfolding remote_ip
  IsRemote-remote_ip addr remote (inl (e, h)) = rw e h
  IsRemote-remote_ip addr remote (inr (e, h)) =
      rw e (IsHost-host_or_all (trim_space addr) (split_host_port (trim_space addr)) remote h)
