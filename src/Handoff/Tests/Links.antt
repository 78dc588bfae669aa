-- ===== src/Handoff/Tests/Links.antt =====
-- Concrete links, on which the theorems on handoff/handoff.go are applied.
use mcpplane.Common.{
  ℕ, ◌≡◌, ◌≢◌, refl, ap, str_eq, String, true, false, some, [], ◌∷◌, lookup, insert, pos,
  String-discrete, arith,
}
use mcpplane.Handoff.Endpoint.{
  Item, Endpoint, active, inactive, reason_used, new, mint, prune_spent, prune_order, resolve,
  resolve_item, claim,
}
use mcpplane.Handoff.Endpoint.OneTime.{resolve-resolve_expired}
use mcpplane.Handoff.Endpoint.History.{mints, resolves, run, claim-once}

abbrev empty_endpoint : Endpoint ℕ
empty_endpoint = new (pos 30)

-- A link minted at 100 with the payload 7.
abbrev one_link : Endpoint ℕ
one_link = mint 100 "t" 7 empty_endpoint

abbrev seven : Item ℕ
seven = record { payload = 7; expires_at = 130 }

u_ne_t : ◌≢◌ {A = String} "u" "t"
unfolding String-discrete
u_ne_t q = let clash : true ≡ false = ap (str_eq "u") q in ground (arith, clash)

claim-once_example :
    ((claim 140 "t" (run (resolves 120 "t" ∷ mints 121 "u" 8 ∷ []) (claim 110 "t" one_link).1)).0
      ≡ false)
    × ((resolve 140 "t"
          (run (resolves 120 "t" ∷ mints 121 "u" 8 ∷ []) (claim 110 "t" one_link).1)).0
        ≢ active seven)
unfolding claim mint new lookup insert String-discrete
claim-once_example =
    claim-once 110 140 "t" (resolves 120 "t" ∷ mints 121 "u" 8 ∷ []) seven one_link refl
      (u_ne_t, tt)

resolve-resolve_expired_example :
    (resolve 141 "t" (resolve 140 "t" one_link).1).0 ≡ inactive (some reason_used)
unfolding mint new lookup insert resolve resolve_item prune_spent prune_order String-discrete
resolve-resolve_expired_example = resolve-resolve_expired 140 141 "t" one_link refl refl
