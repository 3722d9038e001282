-- ===== src/Webhook/Address.antt =====
-- `isPrivateIP` of webhook.service.ts: the addresses that a webhook must not reach.
use Prim.Native.Char.{code}
use trustflow_backend.Prelude.{
  ℕ, String, Option, none, some, List, [], ◌∷◌, map, Bool, false, if◌then◌else◌, not, ◌&&◌, ◌||◌,
  ◌==◌, leb, str_eq, starts_with, includes, split, after_last, digits, any,
}

-- net.isIP, by its test for IPv6 and toLowerCase.
pub record Addresses : Type 0 where
  pub is_ipv6 : String → Bool
  pub to_lower_case : String → String

-- Number(part) for a part of a dotted address; `none` is NaN.
unfoldable pub number_of : String → Option ℕ
unfolding digits
number_of part = if str_eq part "" then none else digits 0 part

abbrev pub zero_led : String → Bool
zero_led String.[] = false
zero_led (String.◌∷◌ c s) = code c == b'0'

-- A part of a dotted address has no zero in front, and is at most 255.
unfoldable pub is_octet : String → Bool
unfolding number_of
is_octet part = elim (number_of part) [
  | none ↦ false
  | some n ↦ leb n 255 && (str_eq part "0" || not (zero_led part))
]

abbrev pub four_octets : List String → Bool
four_octets (a ∷ b ∷ c ∷ d ∷ []) = is_octet a && is_octet b && is_octet c && is_octet d
four_octets _ = false

-- net.isIP(ip) === 4
unfoldable pub is_ipv4 : String → Bool
unfolding is_octet split
is_ipv4 ip = four_octets (split b'.' ip)

-- The tests of the branch for IPv4, in their order.
unfoldable pub private_parts : ℕ → ℕ → ℕ → ℕ → Bool
unfolding any
private_parts a b c d =
    any (λ test. test)
      ((a == 0)
        ∷ (a == 10)
        ∷ (a == 127)
        ∷ (a == 169 && b == 254)
        ∷ (a == 172 && leb 16 b && leb b 31)
        ∷ (a == 192 && b == 168)
        ∷ (a == 100 && leb 64 b && leb b 127)
        ∷ (a == 192 && b == 0 && c == 2)
        ∷ (a == 198 && b == 51 && c == 100)
        ∷ (a == 203 && b == 0 && c == 113)
        ∷ leb 224 a
        ∷ [])

-- The branch for IPv4: parts that are no numbers up to 255, or not four, are no private address.
abbrev pub private_numbers : List (Option ℕ) → Bool
private_numbers (some a ∷ some b ∷ some c ∷ some d ∷ []) =
    leb a 255 && leb b 255 && leb c 255 && leb d 255 && private_parts a b c d
private_numbers _ = false

unfoldable pub private_ipv4 : String → Bool
unfolding private_parts number_of split
private_ipv4 ip = private_numbers (map number_of (split b'.' ip))

-- The branch for IPv6; its call of isPrivateIP on a dotted part ends in the branch for IPv4.
unfoldable pub private_ipv6 : String → Bool
unfolding private_ipv4 is_ipv4 after_last
private_ipv6 lower =
    let v4part = after_last b':' lower in
    str_eq lower "::1"
    || str_eq lower "::"
    || str_eq lower "::0"
    || starts_with lower "fc"
    || starts_with lower "fd"
    || starts_with lower "fe80:"
    || starts_with lower "fe90:"
    || starts_with lower "fea"
    || starts_with lower "feb"
    || starts_with lower "ff"
    || includes lower "." && is_ipv4 v4part && private_ipv4 v4part
    || str_eq lower "::ffff:127.0.0.1"

module _ ⦃N : Addresses⦄ where
  unfoldable pub is_ip : String → ℕ
  unfolding is_ipv4
  is_ip ip = if is_ipv4 ip then 4 else if N.is_ipv6 ip then 6 else 0

  unfoldable pub is_private_ip : String → Bool
  unfolding private_ipv4 private_ipv6 is_ipv4
  is_private_ip ip =
      str_eq (N.to_lower_case ip) "localhost"
      || (if is_ipv4 ip
          then private_ipv4 ip
          else if N.is_ipv6 ip
          then private_ipv6 (N.to_lower_case ip)
          else false)
