-- ===== src/Ieo/Hosts/Accepted.antt =====
-- Which hosts the two checks accept.
use mcpplane.Common.{
  ◌+◌, ◌≡◌, ◌⊎◌, ◌↔◌, refl, sym, true, false, List, [], ◌∷◌, ◌++◌, some, if◌then◌else◌, Bytes,
  codes, bytes_eq, cut_prefix, cut_suffix, to_lower, trim_space, has_byte, leb, ◌&&◌, arith,
  Bool-cases, Option-cases, inl, inr, bytes_eq→≡, bytes_eq_self, cut_suffix-append,
  cut_suffix-append_self, cut_prefix-append,
}
use mathlib.Core.Path.{subst}
use mcpplane.Ieo.Addresses.{trim_dot}
use mcpplane.Ieo.Hosts.{
  matches, host_allowed, blob_suffix, any_prefix, account_allowed, chatgpt_blob_host_allowed,
}

-- A host is the candidate or a name below it.
abbrev pub Below : Bytes → Bytes → Type 0
Below host candidate = (host ≡ candidate) ⊎ ((sub : Bytes) × (host ≡ sub ++ b'.' ∷ candidate))

matches-Below : (host candidate : Bytes) → matches host candidate ≡ true → Below host candidate
matches-Below host candidate h = elim (Bool-cases (bytes_eq host candidate)) [
  | inl e ↦ inl (bytes_eq→≡ host candidate e)
  | inr e ↦ elim (Option-cases (cut_suffix (b'.' ∷ candidate) host)) [
    | inl f ↦ absurd (ground arith)
    | inr (sub, f) ↦ inr (sub, cut_suffix-append (b'.' ∷ candidate) host sub f)
  ]
]

Below-matches : (host candidate : Bytes) → Below host candidate → matches host candidate ≡ true
Below-matches host candidate (inl e) =
    let q : bytes_eq host candidate ≡ true = rw e (bytes_eq_self candidate) in ground arith
Below-matches host candidate (inr (sub, e)) =
    let q : cut_suffix (b'.' ∷ candidate) host ≡ some sub =
      rw e (cut_suffix-append_self (b'.' ∷ candidate) sub) in
    ground arith

to_lower_idem : (s : Bytes) → to_lower (to_lower s) ≡ to_lower s
unfolding to_lower
to_lower_idem [] = refl
to_lower_idem (c ∷ s) =
    let q : (let d = if leb 65 c && leb c 90 then c + 32 else c in
          if leb 65 d && leb d 90 then d + 32 else d)
        ≡ (if leb 65 c && leb c 90 then c + 32 else c) =
      ground arith in
    cc (q, to_lower_idem s)

-- Some entry of the allowlist, without spaces and in lower case, is the host or a domain above it.
pub data Listed (host : Bytes) : List Bytes → Type 0 where
  here :
      (candidate : Bytes) (allowed : List Bytes)
      → Below host (to_lower (trim_space candidate))
      → Listed host (candidate ∷ allowed)
  there :
      (candidate : Bytes) (allowed : List Bytes)
      → Listed host allowed
      → Listed host (candidate ∷ allowed)

listed :
    (host : Bytes) (allowed : List Bytes)
    → host_allowed host allowed ≡ true
    → Listed (to_lower host) allowed
unfolding host_allowed
listed host [] h = cc
listed host (candidate ∷ allowed) h =
    elim (Bool-cases (matches (to_lower host) (to_lower (trim_space candidate)))) [
      | inl e ↦
          Listed.here candidate allowed
            (matches-Below (to_lower host) (to_lower (trim_space candidate)) e)
      | inr e ↦
          let l = listed (to_lower host) allowed (ground arith) in
          Listed.there candidate allowed (subst (λ s. Listed s allowed) (to_lower_idem host) l)
    ]

allowed_of :
    (host : Bytes) (allowed : List Bytes)
    → Listed (to_lower host) allowed
    → host_allowed host allowed ≡ true
unfolding host_allowed
allowed_of host [] l = elim l [ ]
allowed_of host (candidate ∷ allowed) (Listed.here _ _ b) =
    let q = Below-matches (to_lower host) (to_lower (trim_space candidate)) b in ground arith
allowed_of host (candidate ∷ allowed) (Listed.there _ _ l) =
    let q =
      allowed_of (to_lower host) allowed
        (subst (λ s. Listed s allowed) (sym (to_lower_idem host)) l) in
    ground arith

-- The relay's allowlist admits exactly the hosts that, in lower case, are an entry, without its
-- outer spaces and in lower case, or a name below one.
pub host_allowed-Listed :
    (host : Bytes) (allowed : List Bytes)
    → (host_allowed host allowed ≡ true) ↔ Listed (to_lower host) allowed
host_allowed-Listed host allowed = (listed host allowed, allowed_of host allowed)

-- A storage account of OpenAI's: one name, which begins with the reserved prefix.
pub record IsBlobHost (host account : Bytes) : Type 0 where
  pub shape : host ≡ account ++ blob_suffix
  pub one_name : has_byte b'.' account ≡ false
  pub reserved : (rest : Bytes) × (account ≡ codes "oaisd" ++ rest)

-- A host that the allowance for ChatGPT's files accepts is, without outer spaces and a final dot
-- and in lower case, one name that begins with oaisd followed by .blob.core.windows.net.
pub chatgpt_blob_host_allowed-IsBlobHost :
    (host : Bytes)
    → chatgpt_blob_host_allowed host ≡ true
    → (account : Bytes) × IsBlobHost (to_lower (trim_dot (trim_space host))) account
unfolding chatgpt_blob_host_allowed account_allowed any_prefix
chatgpt_blob_host_allowed-IsBlobHost host h =
    elim (Option-cases (cut_suffix blob_suffix (to_lower (trim_dot (trim_space host))))) [
      | inl e ↦ absurd (ground arith)
      | inr (account, e) ↦ elim (Option-cases (cut_prefix (codes "oaisd") account)) [
        | inl f ↦ absurd (ground arith)
        | inr (rest, f) ↦ (
          account,
          record {
            shape = cut_suffix-append blob_suffix (to_lower (trim_dot (trim_space host))) account e;
            one_name = ground arith;
            reserved = (rest, cut_prefix-append (codes "oaisd") account rest f);
          },
        )
      ]
    ]
