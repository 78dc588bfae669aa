-- ===== src/Ieo/Addresses/Ranges.antt =====
-- The addresses that the relay refuses, as ranges of 32-bit numbers.
use mcpplane.Common.{
  ℕ, ◌/◌, ◌^◌, ◌≡◌, ◌<◌, refl, Bool, true, false, ◌&&◌, ◌||◌, List, [], ◌∷◌, leb, ◌==◌,
  if◌then◌else◌, arith,
}
use mathlib.Core.Path.{◌∙◌}
use mcpplane.Ieo.Addresses.{v4, v6, value, is_private_ip}

-- The first and the last address of each range, of IANA's special-purpose registry.
abbrev pub refused_ranges : List (ℕ × ℕ)
refused_ranges =
    (value 0 0 0 0, value 0 0 0 0)
    ∷ (value 10 0 0 0, value 10 255 255 255)
    ∷ (value 100 64 0 0, value 100 127 255 255)
    ∷ (value 127 0 0 0, value 127 255 255 255)
    ∷ (value 169 254 0 0, value 169 254 255 255)
    ∷ (value 172 16 0 0, value 172 31 255 255)
    ∷ (value 192 0 0 0, value 192 0 0 255)
    ∷ (value 192 88 99 0, value 192 88 99 255)
    ∷ (value 192 168 0 0, value 192 168 255 255)
    ∷ (value 198 18 0 0, value 198 19 255 255)
    ∷ (value 224 0 0 0, value 239 255 255 255)
    ∷ []

abbrev pub covers : ℕ → ℕ → ℕ → Bool
covers n lo hi = if leb lo n then leb n hi else false

abbrev pub in_ranges : ℕ → List (ℕ × ℕ) → Bool
in_ranges n [] = false
in_ranges n ((lo, hi) ∷ rs) = covers n lo hi || in_ranges n rs

-- The tests of the code in the order of the ranges.
in_order :
    (p1 p2 p3 lo llu llm un mu c1 c2 c3 c4 : Bool)
    → (llm ≡ true → mu ≡ true)
    → (if (p1 || p2 || p3) || lo || llu || llm || un || mu then true else c1 || c2 || c3 || c4) ≡ (
        un
        || (p1 || (c1 || (lo || (llu || (p2 || (c2 || (c4 || (p3 || (c3 || (mu || (false))))))))))))
in_order p1 p2 p3 lo llu llm un mu c1 c2 c3 c4 h = ground arith

module _ (a b c d : ℕ) (ha : a < 256) (hb : b < 256) (hc : c < 256) (hd : d < 256) where
  unspecified_range :
      (a == 0 && b == 0 && c == 0 && d == 0)
      ≡ covers (value a b c d) (value 0 0 0 0) (value 0 0 0 0)
  unspecified_range = ground arith

  ten_range : (a == 10) ≡ covers (value a b c d) (value 10 0 0 0) (value 10 255 255 255)
  ten_range = ground arith

  shared_range :
      (value a b c d / 2 ^ 22 == value 100 64 0 0 / 2 ^ 22)
      ≡ covers (value a b c d) (value 100 64 0 0) (value 100 127 255 255)
  shared_range = ground arith

  loopback_range : (a == 127) ≡ covers (value a b c d) (value 127 0 0 0) (value 127 255 255 255)
  loopback_range = ground arith

  link_local_range :
      (a == 169 && b == 254) ≡ covers (value a b c d) (value 169 254 0 0) (value 169 254 255 255)
  link_local_range = ground arith

  private_b_range :
      (a == 172 && b / 16 == 1) ≡ covers (value a b c d) (value 172 16 0 0) (value 172 31 255 255)
  private_b_range = ground arith

  protocol_range :
      (value a b c d / 2 ^ 8 == value 192 0 0 0 / 2 ^ 8)
      ≡ covers (value a b c d) (value 192 0 0 0) (value 192 0 0 255)
  protocol_range = ground arith

  relay_range :
      (value a b c d / 2 ^ 8 == value 192 88 99 0 / 2 ^ 8)
      ≡ covers (value a b c d) (value 192 88 99 0) (value 192 88 99 255)
  relay_range = ground arith

  private_c_range :
      (a == 192 && b == 168) ≡ covers (value a b c d) (value 192 168 0 0) (value 192 168 255 255)
  private_c_range = ground arith

  benchmark_range :
      (value a b c d / 2 ^ 17 == value 198 18 0 0 / 2 ^ 17)
      ≡ covers (value a b c d) (value 198 18 0 0) (value 198 19 255 255)
  benchmark_range = ground arith

  multicast_range :
      (a / 16 == 14) ≡ covers (value a b c d) (value 224 0 0 0) (value 239 255 255 255)
  multicast_range = ground arith

-- The relay refuses exactly the IPv4 addresses of eleven ranges of 32-bit numbers: 0.0.0.0, 10/8,
-- 100.64/10, 127/8, 169.254/16, 172.16/12, 192.0.0/24, 192.88.99/24, 192.168/16, 198.18/15 and
-- 224/4.
pub is_private_ip-v4 :
    (a b c d : ℕ)
    → a < 256
    → b < 256
    → c < 256
    → d < 256
    → is_private_ip (v4 a b c d) ≡ in_ranges (value a b c d) refused_ranges
unfolding is_private_ip
is_private_ip-v4 a b c d ha hb hc hd =
    in_order (a == 10) (a == 172 && b / 16 == 1) (a == 192 && b == 168) (a == 127)
      (a == 169 && b == 254) (a == 224 && b == 0 && c == 0) (a == 0 && b == 0 && c == 0 && d == 0)
      (a / 16 == 14) (value a b c d / 2 ^ 22 == value 100 64 0 0 / 2 ^ 22)
      (value a b c d / 2 ^ 8 == value 192 0 0 0 / 2 ^ 8)
      (value a b c d / 2 ^ 17 == value 198 18 0 0 / 2 ^ 17)
      (value a b c d / 2 ^ 8 == value 192 88 99 0 / 2 ^ 8) (λ h. ground arith)
    ∙ rw (
      unspecified_range a b c d ha hb hc hd,
      ten_range a b c d ha hb hc hd,
      shared_range a b c d ha hb hc hd,
      loopback_range a b c d ha hb hc hd,
      link_local_range a b c d ha hb hc hd,
      private_b_range a b c d ha hb hc hd,
      protocol_range a b c d ha hb hc hd,
      relay_range a b c d ha hb hc hd,
      private_c_range a b c d ha hb hc hd,
      benchmark_range a b c d ha hb hc hd,
      multicast_range a b c d ha hb hc hd,
    )

-- An IPv4 address in an IPv6 address, in the mapped form ::ffff:a.b.c.d, is refused exactly as it
-- is by itself, and so it is in the compatible form ::a.b.c.d, but for ::1, which is refused.
pub is_private_ip-v6 :
    (a b c d : ℕ)
    → (is_private_ip (v6 (0 ∷ 0 ∷ 0 ∷ 0 ∷ 0 ∷ 0 ∷ 0 ∷ 0 ∷ 0 ∷ 0 ∷ 255 ∷ 255 ∷ a ∷ b ∷ c ∷ d ∷ []))
        ≡ is_private_ip (v4 a b c d))
      × (is_private_ip (v6 (0 ∷ 0 ∷ 0 ∷ 0 ∷ 0 ∷ 0 ∷ 0 ∷ 0 ∷ 0 ∷ 0 ∷ 0 ∷ 0 ∷ a ∷ b ∷ c ∷ d ∷ []))
          ≡ (if a == 0 && b == 0 && c == 0 && d == 1 then true else is_private_ip (v4 a b c d)))
unfolding is_private_ip
is_private_ip-v6 a b c d = (refl, ground arith)
