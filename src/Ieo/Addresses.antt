-- ===== src/Ieo/Addresses.antt =====
-- ieo/file_relay.go: which addresses the relay may reach. A netip.Addr is the zero Addr, the four bytes
-- of an IPv4 address or the sixteen of an IPv6 address; a zone changes no answer here. The predicates
-- of net/netip follow their documentation for addresses that are not IPv4-mapped, as which
-- they are only called.
pub mod Ranges
pub mod Dialing
use mcpplane.Common.{
  ℕ, zero, suc, ◌+◌, ◌*◌, ◌/◌, ◌%◌, ◌^◌, ◌≡◌, refl, Bool, true, false, ◌&&◌, ◌||◌, not, List, [],
  ◌∷◌, Option, none, some, ltb, leb, ◌==◌, if◌then◌else◌, Bytes,
}

pub data Addr : Type 0 where
  invalid : Addr
  v4 : ℕ → ℕ → ℕ → ℕ → Addr
  v6 : Bytes → Addr

abbrev pub byte_at : ℕ → Bytes → ℕ
byte_at n [] = 0
byte_at zero (b ∷ s) = b
byte_at (suc n) (b ∷ s) = byte_at n s

-- The first n bytes are zero.
abbrev pub zeros : ℕ → Bytes → Bool
zeros zero s = true
zeros (suc n) [] = true
zeros (suc n) (b ∷ s) = if b == 0 then zeros n s else false

abbrev pub is4 : Addr → Bool
is4 (v4 a b c d) = true
is4 addr = false

abbrev pub is6 : Addr → Bool
is6 (v6 s) = true
is6 addr = false

-- ::ffff:a.b.c.d
abbrev pub is4in6 : Addr → Bool
is4in6 (v6 s) =
    if zeros 10 s then (if byte_at 10 s == 255 then byte_at 11 s == 255 else false) else false
is4in6 addr = false

-- The IPv4 address in the last four bytes.
abbrev pub last_four : Bytes → Addr
last_four s = v4 (byte_at 12 s) (byte_at 13 s) (byte_at 14 s) (byte_at 15 s)

abbrev pub unmap : Addr → Addr
unmap (v6 s) = if is4in6 (v6 s) then last_four s else v6 s
unmap addr = addr

abbrev pub is_unspecified : Addr → Bool
is_unspecified (v4 a b c d) = a == 0 && b == 0 && c == 0 && d == 0
is_unspecified (v6 s) = zeros 16 s
is_unspecified invalid = false

abbrev pub is_loopback : Addr → Bool
is_loopback (v4 a b c d) = a == 127
is_loopback (v6 s) = zeros 15 s && byte_at 15 s == 1
is_loopback invalid = false

-- Addr.IsPrivate: 10/8, 172.16/12, 192.168/16 and fc00::/7.
abbrev pub is_private : Addr → Bool
is_private (v4 a b c d) = a == 10 || a == 172 && b / 16 == 1 || a == 192 && b == 168
is_private (v6 s) = byte_at 0 s / 2 == 126
is_private invalid = false

abbrev pub is_link_local_unicast : Addr → Bool
is_link_local_unicast (v4 a b c d) = a == 169 && b == 254
is_link_local_unicast (v6 s) = byte_at 0 s == 254 && byte_at 1 s / 64 == 2
is_link_local_unicast invalid = false

abbrev pub is_link_local_multicast : Addr → Bool
is_link_local_multicast (v4 a b c d) = a == 224 && b == 0 && c == 0
is_link_local_multicast (v6 s) = byte_at 0 s == 255 && byte_at 1 s % 16 == 2
is_link_local_multicast invalid = false

abbrev pub is_multicast : Addr → Bool
is_multicast (v4 a b c d) = a / 16 == 14
is_multicast (v6 s) = byte_at 0 s == 255
is_multicast invalid = false

unfoldable pub is_ipv4_compatible : Addr → Bool
is_ipv4_compatible (v6 s) =
    if zeros 12 s then not (is_unspecified (v6 s)) && not (is_loopback (v6 s)) else false
is_ipv4_compatible addr = false

-- An IPv4 address as a number.
abbrev pub value : ℕ → ℕ → ℕ → ℕ → ℕ
value a b c d = ((a * 256 + b) * 256 + c) * 256 + d

-- Whether an IPv4 address has the first bits of a network, whose other bits count below `hosts`.
unfoldable pub in_cidr : Addr → ℕ → ℕ → Bool
in_cidr (v4 a b c d) network hosts = value a b c d / hosts == network / hosts
in_cidr addr network hosts = false

-- `isPrivateIP` after the conversion of its first lines.
unfoldable pub is_special : Addr → Bool
unfolding in_cidr
is_special ip =
    if is_private ip
      || is_loopback ip
      || is_link_local_unicast ip
      || is_link_local_multicast ip
      || is_unspecified ip
      || is_multicast ip
    then true
    else if not (is4 ip)
    then false
    else (in_cidr ip (value 100 64 0 0) (2 ^ 22)
        || in_cidr ip (value 192 0 0 0) (2 ^ 8)
        || in_cidr ip (value 198 18 0 0) (2 ^ 17)
        || in_cidr ip (value 192 88 99 0) (2 ^ 8))

-- The conversion of an IPv4 address in IPv6 form.
unfoldable pub to_ipv4 : Addr → Addr
unfolding is_ipv4_compatible
to_ipv4 (v6 s) =
    if is4in6 (v6 s) then last_four s else if is_ipv4_compatible (v6 s) then last_four s else v6 s
to_ipv4 addr = addr

unfoldable pub is_private_ip : Addr → Bool
unfolding to_ipv4 is_special
is_private_ip ip = is_special (to_ipv4 ip)

-- strings and the resolver: ParseAddr, and the addresses of a host, `none` for an error.
pub record Network : Type 0 where
  pub parse_addr : Bytes → Option Addr
  pub lookup_net_ip : Bytes → Option (List Addr)

abbrev pub is_invalid : Addr → Bool
is_invalid invalid = true
is_invalid addr = false

-- The end of resolvePublicIP.
unfoldable pub pick_public : Addr × Addr → Option Addr
unfolding is_private_ip
pick_public (ipv4, ipv6) =
    let ip : Addr = if is_invalid ipv4 then ipv6 else ipv4 in
    if is_invalid ip then none else if is_private_ip ip then none else some ip

-- The loop of resolvePublicIP: the first address of each kind, `invalid` for none yet.
unfoldable pub first_addresses : Addr → Addr → List Addr → Addr × Addr
first_addresses ipv4 ipv6 [] = (ipv4, ipv6)
first_addresses ipv4 ipv6 (addr ∷ addrs) =
    let ip = unmap addr in
    first_addresses (if is4 ip && is_invalid ipv4 then ip else ipv4)
      (if is6 ip && is_invalid ipv6 then ip else ipv6) addrs

unfoldable pub resolve_public_ip : Network → Bytes → Option Addr
unfolding first_addresses pick_public is_private_ip
resolve_public_ip net host = elim (net.parse_addr host) [
  | some ip ↦ if is_private_ip ip then none else some ip
  | none ↦ elim (net.lookup_net_ip host) [
    | none ↦ none
    | some addrs ↦ pick_public (first_addresses invalid invalid addrs)
  ]
]

-- for _, addr := range addrs { if !isPrivateIP(addr.Unmap()) { return nil } }
unfoldable pub any_public : List Addr → Bool
unfolding is_private_ip
any_public [] = false
any_public (addr ∷ addrs) = if not (is_private_ip (unmap addr)) then true else any_public addrs

-- strings.TrimSuffix(host, ".")
unfoldable pub trim_dot : Bytes → Bytes
trim_dot [] = []
trim_dot (c ∷ []) = if c == b'.' then [] else c ∷ []
trim_dot (c ∷ d ∷ s) = c ∷ trim_dot (d ∷ s)

-- Whether rejectPrivateHost returns nil.
unfoldable pub accepts_host : Network → Bytes → Bool
unfolding any_public trim_dot is_private_ip
accepts_host net host = elim (net.parse_addr (trim_dot host)) [
  | some ip ↦ not (is_private_ip ip)
  | none ↦ elim (net.lookup_net_ip (trim_dot host)) [ none ↦ false | some addrs ↦ any_public addrs ]
]
