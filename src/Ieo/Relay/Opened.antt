-- ===== src/Ieo/Relay/Opened.antt =====
-- What the relay opens, and what it leaves open.
use mcpplane.Common.{
  ℕ, suc, ◌+◌, ◌≡◌, ◌≢◌, ◌≤◌, ◌<◌, refl, sym, ap, ◌∙◌, Bool, true, false, List, [], ◌∷◌, Option,
  none, some, if◌then◌else◌, length, All, Bytes, codes, pos, negsuc, arith, Bool-cases, inl, inr,
  bytes_eq→≡,
}
use mcpplane.Ieo.Addresses.{Addr, is_private_ip, accepts_host}
use mcpplane.Ieo.Addresses.Dialing.{resolve_public_ip-public}
use mcpplane.Ieo.Relay.{
  Url, Web, FileRelayOptions, RelayError, Answer, no_request, unreachable, answered, Effects,
  Opening, failed, opened, validate_http_file_url, is_excluded, check_redirect, follows, has_cancel,
  relay_limit, take_answer, hostname_of, open_file_url, close_body, dial_context,
}

-- Redirects that the client may follow after `via` requests.
pub record IsFollowed (web : Web) (allowed : List Bytes) (u : Url) : Type 0 where
  pub secure : u.scheme ≡ codes "https"
  pub listed : is_excluded u.hostname allowed ≡ false
  pub public_host : accepts_host web.network u.hostname ≡ true

check_redirect-IsFollowed :
    (web : Web) (allowed : List Bytes) (u : Url) (via : ℕ)
    → check_redirect web allowed u via ≡ true
    → IsFollowed web allowed u × (via < 3)
unfolding check_redirect
check_redirect-IsFollowed web allowed u via h = (
  record {
    secure = bytes_eq→≡ u.scheme (codes "https") (ground arith);
    listed = ground arith;
    public_host = ground arith;
  },
  ground arith,
)

follows-IsFollowed :
    (web : Web) (allowed : List Bytes) (via : ℕ) (us : List Url)
    → follows web allowed via us ≡ true
    → via ≤ 3
    → All (IsFollowed web allowed) us × (via + length us ≤ 3)
unfolding follows
follows-IsFollowed web allowed via [] h k = (tt, omega arith)
follows-IsFollowed web allowed via (u ∷ us) h k =
    let c : check_redirect web allowed u via ≡ true = ground arith in
    let (a, l) = check_redirect-IsFollowed web allowed u via c in
    let (b, m) = follows-IsFollowed web allowed (suc via) us (ground arith) (omega arith) in
    ((a, b), omega arith)

-- What a success has.
pub record IsOpened (web : Web) (raw : Bytes) (opts : FileRelayOptions) (answer : Answer) (m n : ℕ)
    : Type 0 where
  pub valid : validate_http_file_url web raw (relay_limit opts.max_bytes) ≡ true
  pub listed : is_excluded (hostname_of (web.parse_url raw)) opts.allowed_hosts ≡ false
  pub limit : relay_limit opts.max_bytes ≡ pos m
  pub within : n ≤ m
  pub redirects : List Url
  pub status : ℕ
  pub received : answer ≡ answered redirects status (pos n)
  pub success : (200 ≤ status) × (status < 300)
  pub followed : All (IsFollowed web opts.allowed_hosts) redirects
  pub few : length redirects ≤ 2

-- The part of it that the answer shows.
record Taken (web : Web) (opts : FileRelayOptions) (us : List Url) (status k m n : ℕ) : Type 0 where
  limit : relay_limit opts.max_bytes ≡ pos m
  within : n ≤ m
  length_eq : k ≡ n
  low : 200 ≤ status
  high : status < 300
  all_followed : follows web opts.allowed_hosts 1 us ≡ true

failed-ne-opened :
    (r : RelayError) (x : Effects) {m n : ℕ} {c : Bool} {e : Effects} → failed r x ≢ opened m n c e
failed-ne-opened r x q = cc

take_unknown :
    (web : Web) (opts : FileRelayOptions) (us : List Url) (status k m n : ℕ) (c : Bool)
    (e : Effects)
    → take_answer web opts (answered us status (negsuc k)) ≢ opened m n c e
unfolding take_answer
take_unknown web opts us status k m n c e h =
    elim (Bool-cases (follows web opts.allowed_hosts 1 us)) [
      | inl f ↦ ground arith
      | inr f ↦ ground arith
    ]

take_answer-Taken :
    (web : Web) (opts : FileRelayOptions) (us : List Url) (status k m n : ℕ) (c : Bool)
    (e : Effects)
    → take_answer web opts (answered us status (pos k)) ≡ opened m n c e
    → Taken web opts us status k m n
unfolding take_answer
take_answer-Taken web opts us status k m n c e h = ground arith

opened_by :
    (web : Web) (raw : Bytes) (opts : FileRelayOptions) (answer : Answer) (m n : ℕ) (c : Bool)
    (e : Effects)
    → validate_http_file_url web raw (relay_limit opts.max_bytes) ≡ true
    → is_excluded (hostname_of (web.parse_url raw)) opts.allowed_hosts ≡ false
    → take_answer web opts answer ≡ opened m n c e
    → IsOpened web raw opts answer m n
opened_by web raw opts no_request m n c e v l h = absurd (unfold take_answer in let k = h in cc)
opened_by web raw opts unreachable m n c e v l h = absurd (unfold take_answer in let k = h in cc)
opened_by web raw opts (answered us status (negsuc k)) m n c e v l h =
    absurd (take_unknown web opts us status k m n c e h)
opened_by web raw opts (answered us status (pos k)) m n c e v l h =
    let t = take_answer-Taken web opts us status k m n c e h in
    let (a, b) = follows-IsFollowed web opts.allowed_hosts 1 us t.all_followed (omega arith) in
    record {
      valid = v;
      listed = l;
      limit = t.limit;
      within = t.within;
      redirects = us;
      status = status;
      received = ap (λ x. answered us status (pos x)) t.length_eq;
      success = (t.low, t.high);
      followed = a;
      few = omega arith;
    }

-- A file that OpenFileURL opens has a URL that passed the check, its host on the allowlist if
-- there is one, a status of 200 to 299, a declared length within the limit, and at most two
-- redirects before it, each to an HTTPS URL whose host is allowed and passes the check of its
-- addresses.
pub open_file_url-IsOpened :
    (web : Web) (raw : Bytes) (opts : FileRelayOptions) (answer : Answer) (m n : ℕ) (c : Bool)
    (e : Effects)
    → open_file_url web raw opts answer ≡ opened m n c e
    → IsOpened web raw opts answer m n
unfolding open_file_url
open_file_url-IsOpened web raw opts answer m n c e h =
    elim (Bool-cases (validate_http_file_url web raw (relay_limit opts.max_bytes))) [
      | inr f ↦ absurd (
          failed-ne-opened RelayError.invalid_reference (record { cancels = 0; closes = 0 })
            (sym (rw (f, open_file_url)) ∙ h))
      | inl f ↦
          elim (Bool-cases (is_excluded (hostname_of (web.parse_url raw)) opts.allowed_hosts)) [
            | inl g ↦ absurd (
                failed-ne-opened RelayError.host_not_allowed (record { cancels = 0; closes = 0 })
                  (sym (rw (f, g, open_file_url)) ∙ h))
            | inr g ↦ opened_by web raw opts answer m n c e f g (sym (rw (f, g, open_file_url)) ∙ h)
          ]
    ]

-- What was done once the caller has closed a reader that it was given.
pub settled : Opening → Effects
settled (failed r e) = e
settled (opened m n c e) = close_body c e

-- Whether a response arrived, whose body has to be closed.
pub arrived : Web → FileRelayOptions → Answer → Bool
arrived web opts no_request = false
arrived web opts unreachable = false
arrived web opts (answered us status n) = follows web opts.allowed_hosts 1 us

abbrev pub one_if : Bool → ℕ
one_if b = if b then 1 else 0

-- On every path after the checks of OpenFileURL, once the caller has closed a reader that it was
-- given, the request's context was cancelled exactly once if it has a deadline and never
-- otherwise, and the body was closed exactly once if a response arrived and never otherwise.
pub take_answer-settled :
    (web : Web) (opts : FileRelayOptions) (answer : Answer)
    → settled (take_answer web opts answer)
      ≡ record { cancels = one_if (has_cancel opts); closes = one_if (arrived web opts answer) }
unfolding settled arrived take_answer close_body
take_answer-settled web opts no_request = refl
take_answer-settled web opts unreachable = refl
take_answer-settled web opts (answered us status (negsuc k)) = ground arith
take_answer-settled web opts (answered us status (pos k)) = ground arith

-- The address that is dialed for a client of the relay's own, literal or resolved, is none that
-- the relay refuses.
pub dial_context-public :
    (web : Web) (target : Option (Bytes × Bytes)) (ip : Addr) (port : Bytes)
    → dial_context web target ≡ some (ip, port)
    → is_private_ip ip ≡ false
unfolding dial_context
dial_context-public web none ip port h = absurd (none-ne-some h)
  where
    none-ne-some : {x : Addr × Bytes} → none ≡ some x → ⊥
    none-ne-some q = cc
dial_context-public web (some (host, p)) ip port h =
    resolve_public_ip-public web.network host ip (ground arith)
