-- ===== src/Webhook/Blocks.antt =====
-- The dotted addresses that are refused are those of a list of blocks of the address space.
use trustflow_backend.Prelude.{
  ℕ, ◌+◌, ◌-◌, ◌*◌, ◌/◌, ◌^◌, ◌≤◌, ◌≡◌, String, Option, some, List, [], ◌∷◌, map, Bool, true, false,
  ◌&&◌, ◌||◌, ◌==◌, leb, arith, any, split, Option-cases, Option, inl, inr,
}
use trustflow_backend.Webhook.Address.{
  is_octet, number_of, is_ipv4, four_octets, private_parts, private_numbers, private_ipv4,
}

-- A block by its first address and the number of its leading bits.
pub record Block : Type 0 where
  pub first : ℕ
  pub free_bits : ℕ  -- 32 less the leading bits

abbrev pub address : ℕ → ℕ → ℕ → ℕ → ℕ
address a b c d = a * 16777216 + b * 65536 + c * 256 + d

abbrev pub in_block : ℕ → Block → Bool
in_block n block = n / 2 ^ block.free_bits == block.first / 2 ^ block.free_bits

abbrev block : ℕ → ℕ → Block
block first bits = record { first = first; free_bits = 32 - bits }

-- "This" network, private use, loopback, link-local, private use, private use, shared address space,
-- the three blocks for documentation, multicast and reserved.
abbrev pub blocks : List Block
blocks =
    block (address 0 0 0 0) 8
    ∷ block (address 10 0 0 0) 8
    ∷ block (address 127 0 0 0) 8
    ∷ block (address 169 254 0 0) 16
    ∷ block (address 172 16 0 0) 12
    ∷ block (address 192 168 0 0) 16
    ∷ block (address 100 64 0 0) 10
    ∷ block (address 192 0 2 0) 24
    ∷ block (address 198 51 100 0) 24
    ∷ block (address 203 0 113 0) 24
    ∷ block (address 224 0 0 0) 4
    ∷ block (address 240 0 0 0) 4
    ∷ []

either : {x y z w : Bool} → x ≡ y → z ≡ w → (x || z) ≡ (y || w)
either p q i = p i || q i

module _ (a b c d : ℕ) (hb : b ≤ 255) (hc : c ≤ 255) (hd : d ≤ 255) where
  one_part : (k : ℕ) → (a == k) ≡ in_block (address a b c d) (block (address k 0 0 0) 8)
  one_part k = ground arith

  two_parts :
      (k l : ℕ)
      → l ≤ 255
      → (a == k && b == l) ≡ in_block (address a b c d) (block (address k l 0 0) 16)
  two_parts k l hl = ground arith

  three_parts :
      (k l m : ℕ)
      → l ≤ 255
      → m ≤ 255
      → (a == k && b == l && c == m) ≡ in_block (address a b c d) (block (address k l m 0) 24)
  three_parts k l m hl hm = ground arith

  twelve_bits :
      (a == 172 && leb 16 b && leb b 31)
      ≡ in_block (address a b c d) (block (address 172 16 0 0) 12)
  twelve_bits = ground arith

  ten_bits :
      (a == 100 && leb 64 b && leb b 127)
      ≡ in_block (address a b c d) (block (address 100 64 0 0) 10)
  ten_bits = ground arith

  top_bits :
      a ≤ 255
      → (leb 224 a || false) ≡ (
          in_block (address a b c d) (block (address 224 0 0 0) 4)
          || (in_block (address a b c d) (block (address 240 0 0 0) 4) || false))
  top_bits ha = ground arith

  private_parts-blocks : a ≤ 255 → private_parts a b c d ≡ any (in_block (address a b c d)) blocks
  unfolding private_parts
  private_parts-blocks ha =
      let p = top_bits ha in
      let p = either (three_parts 203 0 113 (omega arith) (omega arith)) p in
      let p = either (three_parts 198 51 100 (omega arith) (omega arith)) p in
      let p = either (three_parts 192 0 2 (omega arith) (omega arith)) p in
      let p = either (ten_bits) p in
      let p = either (two_parts 192 168 (omega arith)) p in
      let p = either (twelve_bits) p in
      let p = either (two_parts 169 254 (omega arith)) p in
      let p = either (one_part 127) p in
      let p = either (one_part 10) p in let p = either (one_part 0) p in p

number-octet :
    (part : String) → is_octet part ≡ true → (n : ℕ) × (number_of part ≡ some n) × (n ≤ 255)
unfolding is_octet
number-octet part h = elim (Option-cases (number_of part)) [
  | inl nan ↦ ground (arith, nan)
  | inr (n, value) ↦ (n, value, ground (arith, value))
]

four_true :
    (w x y z : Bool) → (w && x && y && z) ≡ true → (w ≡ true) × (x ≡ true) × (y ≡ true) × (z ≡ true)
four_true w x y z h = (ground arith, ground arith, ground arith, ground arith)

numbers-blocks :
    (a b c d : ℕ) (parts : List (Option ℕ))
    → a ≤ 255
    → b ≤ 255
    → c ≤ 255
    → d ≤ 255
    → parts ≡ some a ∷ some b ∷ some c ∷ some d ∷ []
    → private_numbers parts ≡ any (in_block (address a b c d)) blocks
numbers-blocks a b c d parts ha hb hc hd e = rw e (test (private_parts-blocks a b c d hb hc hd ha))
  where
    test :
        {t : Bool}
        → private_parts a b c d ≡ t
        → (leb a 255 && leb b 255 && leb c 255 && leb d 255 && private_parts a b c d) ≡ t
    test h = ground (arith, h, ha, hb, hc, hd)

-- An address that net.isIP takes for IPv4 has four parts up to 255, and is private exactly when the number
-- they make lies in one of the blocks: 0/8, 10/8, 127/8, 169.254/16, 172.16/12, 192.168/16, 100.64/10,
-- 192.0.2/24, 198.51.100/24, 203.0.113/24, 224/4 and 240/4.
pub private_ipv4-blocks :
    (ip : String)
    → is_ipv4 ip ≡ true
    → (a : ℕ) × (b : ℕ) × (c : ℕ) × (d : ℕ) × (map number_of (split b'.' ip)
        ≡ some a ∷ some b ∷ some c ∷ some d ∷ [])
      × (a ≤ 255)
      × (b ≤ 255)
      × (c ≤ 255)
      × (d ≤ 255)
      × (private_ipv4 ip ≡ any (in_block (address a b c d)) blocks)
unfolding is_ipv4 private_ipv4
private_ipv4-blocks ip h = go (split b'.' ip) h
  where
    go :
        (parts : List String)
        → four_octets parts ≡ true
        → (a : ℕ) × (b : ℕ) × (c : ℕ) × (d : ℕ) × (map number_of parts
            ≡ some a ∷ some b ∷ some c ∷ some d ∷ [])
          × (a ≤ 255)
          × (b ≤ 255)
          × (c ≤ 255)
          × (d ≤ 255)
          × (private_numbers (map number_of parts) ≡ any (in_block (address a b c d)) blocks)
    go [] k = cc
    go (p ∷ []) k = cc
    go (p ∷ q ∷ []) k = cc
    go (p ∷ q ∷ r ∷ []) k = cc
    go (p ∷ q ∷ r ∷ s ∷ t ∷ rest) k = cc
    go (p ∷ q ∷ r ∷ s ∷ []) k =
        let (hp, hq, hr, hs) = four_true (is_octet p) (is_octet q) (is_octet r) (is_octet s) k in
        let (a, ea, ha) = number-octet p hp in
        let (b, eb, hb) = number-octet q hq in
        let (c, ec, hc) = number-octet r hr in
        let (d, ed, hd) = number-octet s hs in
        let values : map number_of (p ∷ q ∷ r ∷ s ∷ []) ≡ some a ∷ some b ∷ some c ∷ some d ∷ [] =
          λ i. ea i ∷ eb i ∷ ec i ∷ ed i ∷ [] in
        (a, b, c, d, values, ha, hb, hc, hd, numbers-blocks a b c d _ ha hb hc hd values)
