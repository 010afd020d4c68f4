-- ===== src/Auth/ClientIp/Blocks.antt =====
-- Networks as blocks of addresses (api/auth.rs).
use native.Mathlib.Nat.{mul-le-mul_right, one-le-pow}
use snx_edge.Common.{
  ℕ, zero, suc, ◌+◌, ◌-◌, ◌*◌, ◌/◌, ◌%◌, ◌^◌, ◌≤◌, ◌<◌, ◌≡◌, ◌↔◌, refl, sym, ◌∙◌, ◌⊎◌, true, false,
  not, Option, some, Text, ltb, ◌==◌, ==_iff, arith, inl, inr, split_and,
}
use snx_edge.Common.Decimals.{parse_uint}
use snx_edge.Gateway.Guard.{IpAddr, v4, split_once}
use snx_edge.Gateway.Guard.Ranges.{to_u32}
use snx_edge.Auth.ClientIp.{masked, same_network, cidr_contains}

-- Both numbers lie in one block of `size` numbers that starts at a multiple of `size`.
abbrev pub Together : ℕ → ℕ → ℕ → Type 0
Together size x y =
    (k : ℕ) × (k * size ≤ x) × (x < k * size + size) × (k * size ≤ y) × (y < k * size + size)

block-start : (m k x : ℕ) → 0 < m → k * m ≤ x → x < k * m + m → x / m * m ≡ k * m
block-start m k x pos low high = elim (order (x / m) k) [
  | inl (inl lt) ↦ absurd (below lt)
  | inl (inr gt) ↦ absurd (above gt)
  | inr same ↦ rw same refl
]
  where
    order : (a b : ℕ) → ((a < b) ⊎ (b < a)) ⊎ (a ≡ b)
    order a b = ground arith

    start : x / m * m + x % m ≡ x
    start = omega arith

    short : x % m < m
    short = omega arith

    below : x / m < k → ⊥
    below lt =
        let at : (x / m + 1) * m ≤ k * m = mul-le-mul_right m (omega (arith, lt)) in
        grind (arith, at, start, short)

    above : k < x / m → ⊥
    above lt =
        let at : (k + 1) * m ≤ x / m * m = mul-le-mul_right m (omega (arith, lt)) in
        grind (arith, at, start)

masks-Together : (m x y : ℕ) → 0 < m → (x / m * m ≡ y / m * m) ↔ Together m x y
masks-Together m x y pos = (
  (λ same. (x / m, omega arith, omega arith, omega (arith, same), omega (arith, same))),
  (λ (k, low, high, low', high').
      block-start m k x pos low high ∙ sym (block-start m k y pos low' high')),
)

size_pos : (n : ℕ) → 0 < 2 ^ n
size_pos n = one-le-pow n 2 (omega arith)

masked-suc :
    (width p x : ℕ) → masked width (suc p) x ≡ x / 2 ^ (width - suc p) * 2 ^ (width - suc p)
masked-suc width p x = let not_zero : (suc p == 0) ≡ false = ground arith in rw not_zero refl

same_network-Together :
    (width prefix x y : ℕ)
    → prefix ≤ width
    → x < 2 ^ width
    → y < 2 ^ width
    → (same_network width prefix x y ≡ true) ↔ Together (2 ^ (width - prefix)) x y
same_network-Together width zero x y le hx hy =
    let all : width - 0 ≡ width = omega arith in
    let fits : not (ltb width 0) ≡ true = ground arith in
    (
      (λ _. rw all (0, omega arith, omega (arith, hx), omega arith, omega (arith, hy))),
      (λ _. rw fits refl),
    )
same_network-Together width (suc p) x y le hx hy =
    let (to, from) = masks-Together (2 ^ (width - suc p)) x y (size_pos (width - suc p)) in
    let fits : not (ltb width (suc p)) ≡ true = ground (arith, le) in
    (
      (λ h.
          let same = (==_iff _ _).0 ((split_and (not (ltb width (suc p))) _ h).1) in
          to (sym (masked-suc width p x) ∙ same ∙ masked-suc width p y)),
      (λ h. rw fits ((==_iff _ _).1 (masked-suc width p x ∙ from h ∙ sym (masked-suc width p y)))),
    )

-- An entry of the trusted proxies that reads as an address of version 4 and a prefix of at most 32
-- contains an address of version 4 exactly when both lie in the same block of 2^(32 - prefix)
-- addresses that starts at a multiple of its size; the octets give numbers below 2^32.
pub cidr_contains-Together :
    (parse_ip : Text → Option IpAddr) (show_ip : IpAddr → Text) (cidr net_str prefix_str : Text)
    (a b c d e f g h prefix : ℕ)
    → split_once 47 cidr ≡ some (net_str, prefix_str)
    → parse_ip net_str ≡ some (v4 a b c d)
    → parse_uint 255 prefix_str ≡ some prefix
    → prefix ≤ 32
    → to_u32 a b c d < 2 ^ 32
    → to_u32 e f g h < 2 ^ 32
    → (cidr_contains parse_ip show_ip cidr (v4 e f g h) ≡ true)
      ↔ Together (2 ^ (32 - prefix)) (to_u32 a b c d) (to_u32 e f g h)
unfolding cidr_contains
cidr_contains-Together parse_ip show_ip cidr net_str prefix_str a b c d e f g h prefix cut net len
      le hn hh =
    rw (cut, net, len) (same_network-Together 32 prefix (to_u32 a b c d) (to_u32 e f g h) le hn hh)
