-- ===== src/Ieo/Addresses/Dialing.antt =====
-- The addresses that the relay dials, and the hosts that a redirect may lead to.
use mcpplane.Common.{
  ◌≡◌, ◌↔◌, refl, sym, ap, ◌∙◌, Bool, true, false, ◌&&◌, ◌||◌, List, [], ◌∷◌, Option, none, some,
  if◌then◌else◌, Bytes, All, arith, Bool-cases, Option-cases, inl, inr,
}
use mathlib.Core.Path.{subst, ap₂}
use mcpplane.Ieo.Addresses.{
  Addr, invalid, v4, v6, is4, is6, is_invalid, unmap, is_private_ip, Network, pick_public,
  first_addresses, resolve_public_ip, any_public, accepts_host, trim_dot,
}

checked :
    (ip ip' : Addr)
    → (if is_private_ip ip then none else some ip) ≡ some ip'
    → is_private_ip ip' ≡ false
checked ip ip' h = elim (Bool-cases (is_private_ip ip)) [
  | inl e ↦ absurd (none-ne-some (sym (rw (e, if◌then◌else◌)) ∙ h))
  | inr e ↦
      let k : some ip ≡ some ip' = sym (rw (e, if◌then◌else◌)) ∙ h in
      let q : ip ≡ ip' = cc in subst (λ x. is_private_ip x ≡ false) q e
]
  where
    none-ne-some : {a : Addr} → none ≡ some a → ⊥
    none-ne-some q = cc

pick_public-public :
    (ipv4 ipv6 ip : Addr) → pick_public (ipv4, ipv6) ≡ some ip → is_private_ip ip ≡ false
unfolding pick_public
pick_public-public ipv4 ipv6 ip h =
    elim (Bool-cases (is_invalid (if is_invalid ipv4 then ipv6 else ipv4))) [
      | inl e ↦ absurd (let k = rw e at h in cc)
      | inr e ↦ checked (if is_invalid ipv4 then ipv6 else ipv4) ip (rw e at h)
    ]

module _ (net : Network) (host : Bytes) where
  resolve_literal :
      (ip : Addr)
      → net.parse_addr host ≡ some ip
      → resolve_public_ip net host ≡ (if is_private_ip ip then none else some ip)
  unfolding resolve_public_ip
  resolve_literal ip e = rw (e, resolve_public_ip)

  resolve_failed :
      net.parse_addr host ≡ none → net.lookup_net_ip host ≡ none → resolve_public_ip net host ≡ none
  unfolding resolve_public_ip
  resolve_failed e f = rw (e, f, resolve_public_ip)

  resolve_name :
      (addrs : List Addr)
      → net.parse_addr host ≡ none
      → net.lookup_net_ip host ≡ some addrs
      → resolve_public_ip net host ≡ pick_public (first_addresses invalid invalid addrs)
  unfolding resolve_public_ip
  resolve_name addrs e f = rw (e, f, resolve_public_ip)

-- An address that the relay dials, literal or resolved, is none that it refuses.
pub resolve_public_ip-public :
    (net : Network) (host : Bytes) (ip : Addr)
    → resolve_public_ip net host ≡ some ip
    → is_private_ip ip ≡ false
resolve_public_ip-public net host ip h = elim (Option-cases (net.parse_addr host)) [
  | inr (a, e) ↦ checked a ip (sym (resolve_literal net host a e) ∙ h)
  | inl e ↦ elim (Option-cases (net.lookup_net_ip host)) [
    | inl f ↦ absurd (let k = sym (resolve_failed net host e f) ∙ h in cc)
    | inr (addrs, f) ↦
        let p = first_addresses invalid invalid addrs in
        pick_public-public p.0 p.1 ip (sym (resolve_name net host addrs e f) ∙ h)
  ]
]

-- The first address, without the IPv6 form of an IPv4 address, that passes a test.
pub find : (Addr → Bool) → List Addr → Addr
find p [] = invalid
find p (addr ∷ addrs) = if p (unmap addr) then unmap addr else find p addrs

is4_valid : (ip : Addr) → is4 ip ≡ true → is_invalid ip ≡ false
is4_valid invalid h = cc
is4_valid (v4 a b c d) h = refl
is4_valid (v6 s) h = refl

is6_valid : (ip : Addr) → is6 ip ≡ true → is_invalid ip ≡ false
is6_valid invalid h = cc
is6_valid (v4 a b c d) h = refl
is6_valid (v6 s) h = refl

found : (ip : Addr) → (if is_invalid ip then invalid else ip) ≡ ip
found invalid = refl
found (v4 a b c d) = refl
found (v6 s) = refl

-- A loop that keeps the first valid address.
joined :
    (p : Addr → Bool) (acc ip rest : Addr)
    → (p ip ≡ true → is_invalid ip ≡ false)
    → (let acc' = if p ip && is_invalid acc then ip else acc in
        if is_invalid acc' then rest else acc')
      ≡ (if is_invalid acc then if p ip then ip else rest else acc)
joined p acc ip rest h = ground arith

first_addresses-find :
    (ipv4 ipv6 : Addr) (addrs : List Addr)
    → first_addresses ipv4 ipv6 addrs ≡ (
      if is_invalid ipv4 then find is4 addrs else ipv4,
      if is_invalid ipv6 then find is6 addrs else ipv6,
    )
unfolding first_addresses find
first_addresses-find ipv4 ipv6 [] = ap₂ (λ a b. (a, b)) (sym (found ipv4)) (sym (found ipv6))
first_addresses-find ipv4 ipv6 (addr ∷ addrs) =
    first_addresses-find (if is4 (unmap addr) && is_invalid ipv4 then unmap addr else ipv4)
      (if is6 (unmap addr) && is_invalid ipv6 then unmap addr else ipv6) addrs
    ∙ ap₂ (λ a b. (a, b)) (joined is4 ipv4 (unmap addr) (find is4 addrs) (is4_valid (unmap addr)))
        (joined is6 ipv6 (unmap addr) (find is6 addrs) (is6_valid (unmap addr)))

either :
    (p q : Bool) (x : Option Addr)
    → (if p then none else if q then none else x) ≡ (if p || q then none else x)
either p q x = ground arith

-- The relay dials the first IPv4 address of a host that is a name, or the first IPv6 address of a host
-- without one; it dials none if that address is refused.
pub resolve_public_ip-find :
    (net : Network) (host : Bytes) (addrs : List Addr)
    → net.parse_addr host ≡ none
    → net.lookup_net_ip host ≡ some addrs
    → resolve_public_ip net host ≡ (
        let ip = if is_invalid (find is4 addrs) then find is6 addrs else find is4 addrs in
        if is_invalid ip || is_private_ip ip then none else some ip)
unfolding pick_public
resolve_public_ip-find net host addrs e f =
    let ip : Addr = if is_invalid (find is4 addrs) then find is6 addrs else find is4 addrs in
    resolve_name net host addrs e f
    ∙ ap pick_public (first_addresses-find invalid invalid addrs)
    ∙ either (is_invalid ip) (is_private_ip ip) (some ip)

any_public-All :
    (addrs : List Addr)
    → (any_public addrs ≡ false) ↔ All (λ addr. is_private_ip (unmap addr) ≡ true) addrs
unfolding any_public
any_public-All [] = (λ h. tt, λ h. refl)
any_public-All (addr ∷ addrs) = elim (Bool-cases (is_private_ip (unmap addr))) [
  | inl e ↦
      let r = any_public-All addrs in
      (λ h. (e, r.0 (ground (arith, h))), λ h. ground (arith, r.1 h.1))
  | inr e ↦ (λ h. absurd (ground (arith, h)), λ h. absurd (let q = h.0 in ground arith))
]

-- A redirect to a host that is a name is refused exactly when all its addresses are.
pub accepts_host-All :
    (net : Network) (host : Bytes) (addrs : List Addr)
    → net.parse_addr (trim_dot host) ≡ none
    → net.lookup_net_ip (trim_dot host) ≡ some addrs
    → (accepts_host net host ≡ false) ↔ All (λ addr. is_private_ip (unmap addr) ≡ true) addrs
unfolding accepts_host
accepts_host-All net host addrs e f =
    let q : accepts_host net host ≡ any_public addrs = rw (e, f, accepts_host) in
    rw q (any_public-All addrs)
