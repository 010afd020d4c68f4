-- ===== src/Gateway/Guard/Ranges.antt =====
-- The ranges of addresses that the guard refuses, and the hosts that it lets pass (api/tunnel.rs).
use snx_edge.Common.{
  ℕ, ◌+◌, ◌*◌, ◌/◌, ◌%◌, ◌<◌, ◌≡◌, ◌≢◌, ◌↔◌, refl, ◌∙◌, Bool, true, false, ◌&&◌, ◌||◌, List, [],
  ◌∷◌, Option, none, some, Text, ltb, leb, ◌==◌, any, All, arith, inl, inr, Bool-cases,
}
use snx_edge.Errors.{ok}
use snx_edge.Net.{is_empty}
use snx_edge.Gateway.Guard.{
  IpAddr, v6, is_internal_v4, is_internal_addr, check_all, split_host_port, reject_internal_target,
  check_host, check_resolved,
}

-- An address as one number.
abbrev pub to_u32 : ℕ → ℕ → ℕ → ℕ → ℕ
to_u32 a b c d = ((a * 256 + b) * 256 + c) * 256 + d

abbrev pub within : ℕ → ℕ × ℕ → Bool
within n (first, last) = leb first n && leb n last

-- First and last address of 0.0.0.0/8, 10.0.0.0/8, 100.64.0.0/10, 127.0.0.0/8, 169.254.0.0/16,
-- 172.16.0.0/12, 192.168.0.0/16, 224.0.0.0/4 and 255.255.255.255/32.
abbrev pub internal_ranges : List (ℕ × ℕ)
internal_ranges =
    (to_u32 0 0 0 0, to_u32 0 255 255 255)
    ∷ (to_u32 10 0 0 0, to_u32 10 255 255 255)
    ∷ (to_u32 100 64 0 0, to_u32 100 127 255 255)
    ∷ (to_u32 127 0 0 0, to_u32 127 255 255 255)
    ∷ (to_u32 169 254 0 0, to_u32 169 254 255 255)
    ∷ (to_u32 172 16 0 0, to_u32 172 31 255 255)
    ∷ (to_u32 192 168 0 0, to_u32 192 168 255 255)
    ∷ (to_u32 224 0 0 0, to_u32 239 255 255 255)
    ∷ (to_u32 255 255 255 255, to_u32 255 255 255 255)
    ∷ []

-- A block of addresses that the first octet decides.
first_octet :
    (lo hi a b c d : ℕ)
    → b < 256
    → c < 256
    → d < 256
    → (leb lo a && leb a hi) ≡ within (to_u32 a b c d) (to_u32 lo 0 0 0, to_u32 hi 255 255 255)
first_octet lo hi a b c d hb hc hd = ground arith

two_octets :
    (x lo hi a b c d : ℕ)
    → b < 256
    → c < 256
    → d < 256
    → hi < 256
    → (a == x && leb lo b && leb b hi)
      ≡ within (to_u32 a b c d) (to_u32 x lo 0 0, to_u32 x hi 255 255)
two_octets x lo hi a b c d hb hc hd hh = ground arith

whole_address :
    (x y z w a b c d : ℕ)
    → b < 256
    → c < 256
    → d < 256
    → y < 256
    → z < 256
    → w < 256
    → (a == x && b == y && c == z && d == w)
      ≡ within (to_u32 a b c d) (to_u32 x y z w, to_u32 x y z w)
whole_address x y z w a b c d hb hc hd hy hz hw = ground arith

one_octet :
    (x a b c d : ℕ)
    → b < 256
    → c < 256
    → d < 256
    → (a == x) ≡ within (to_u32 a b c d) (to_u32 x 0 0 0, to_u32 x 255 255 255)
one_octet x a b c d hb hc hd = ground arith

block :
    (x y a b c d : ℕ)
    → b < 256
    → c < 256
    → d < 256
    → y < 256
    → (a == x && b == y) ≡ within (to_u32 a b c d) (to_u32 x y 0 0, to_u32 x y 255 255)
block x y a b c d hb hc hd hy = ground arith

half_block : (a b : ℕ) → (a == 100 && leb 64 b && ltb b 128) ≡ (a == 100 && leb 64 b && leb b 127)
half_block a b = ground arith

-- The order of the tests is of no account, and 0.0.0.0 is in 0.0.0.0/8.
reordered :
    (t10 t172 t192 t127 t169 t255 t224 t0 x y z t100 : Bool)
    → ((t10 || t172 || t192) || t127 || t169 || t255 || (t0 && x && y && z) || t224 || t0 || t100)
      ≡ (t0 || (t10 || (t100 || (t127 || (t169 || (t172 || (t192 || (t224 || (t255 || false)))))))))
reordered t10 t172 t192 t127 t169 t255 t224 t0 x y z t100 = ground arith

-- An address of version 4, of four octets, is internal exactly when its number lies in one of the
-- nine ranges 0.0.0.0/8, 10.0.0.0/8, 100.64.0.0/10, 127.0.0.0/8, 169.254.0.0/16, 172.16.0.0/12,
-- 192.168.0.0/16, 224.0.0.0/4 and 255.255.255.255.
pub is_internal_v4-ranges :
    (a b c d : ℕ)
    → a < 256
    → b < 256
    → c < 256
    → d < 256
    → is_internal_v4 a b c d ≡ any (within (to_u32 a b c d)) internal_ranges
unfolding is_internal_v4
is_internal_v4-ranges a b c d ha hb hc hd =
    reordered (a == 10) (a == 172 && leb 16 b && leb b 31) (a == 192 && b == 168) (a == 127)
      (a == 169 && b == 254) (a == 255 && b == 255 && c == 255 && d == 255) (leb 224 a && leb a 239)
      (a == 0) (b == 0) (c == 0) (d == 0) (a == 100 && leb 64 b && ltb b 128)
    ∙ rw
        (
          one_octet 0 a b c d hb hc hd,
          one_octet 10 a b c d hb hc hd,
          one_octet 127 a b c d hb hc hd,
          block 169 254 a b c d hb hc hd (omega arith),
          block 192 168 a b c d hb hc hd (omega arith),
          two_octets 172 16 31 a b c d hb hc hd (omega arith),
          half_block a b,
          two_octets 100 64 127 a b c d hb hc hd (omega arith),
          first_octet 224 239 a b c d hb hc hd,
          whole_address 255 255 255 255 a b c d hb hc hd (omega arith) (omega arith) (omega arith),
        )
        refl

pub mapped-internal :
    (a b c d : ℕ)
    → b < 256
    → d < 256
    → is_internal_addr (v6 0 0 0 0 0 0xffff (a * 256 + b) (c * 256 + d)) ≡ is_internal_v4 a b c d
unfolding is_internal_addr
mapped-internal a b c d hb hd = rw (high a b hb, low a b hb, high c d hd, low c d hd) refl
  where
    high : (x y : ℕ) → y < 256 → (x * 256 + y) / 256 ≡ x
    high x y h = omega arith

    low : (x y : ℕ) → y < 256 → (x * 256 + y) % 256 ≡ y
    low x y h = omega arith

-- The addresses that a host stands for.
abbrev or_none : Option (List IpAddr) → List IpAddr
or_none none = []
or_none (some ips) = ips

abbrev addresses : Option (List IpAddr) → Option IpAddr → List IpAddr
addresses found (some ip) = ip ∷ []
addresses found none = or_none found

module _ (parse_ip : Text → Option IpAddr) (lookup_host : Text → ℕ → Option (List IpAddr)) where
  abbrev pub addresses_of : Text → List IpAddr
  addresses_of server =
      addresses (lookup_host (split_host_port server).0 (split_host_port server).1)
        (parse_ip (split_host_port server).0)

  check_all_iff :
      (ips : List IpAddr)
      → (check_all parse_ip lookup_host ips ≡ ok tt) ↔ All (λ ip. is_internal_addr ip ≡ false) ips
  unfolding check_all
  check_all_iff [] = (λ _. tt, λ _. refl)
  check_all_iff (ip ∷ ips) = elim (Bool-cases (is_internal_addr ip)) [
    | inl e ↦ rw e (λ h. cc, λ h. (let never : true ≡ false = h.0 in cc never))
    | inr e ↦ rw e (λ h. (refl, (check_all_iff ips).0 h), λ h. (check_all_iff ips).1 h.1)
  ]

  -- No address is refused as well as an internal one.
  abbrev Passes : List IpAddr → Type 0
  Passes ips = (ips ≢ []) × All (λ ip. is_internal_addr ip ≡ false) ips

  full : (ip : IpAddr) (ips : List IpAddr) → (ip ∷ ips) ≢ []
  full ip ips h = cc

  check_resolved_iff :
      (found : Option (List IpAddr))
      → (check_resolved parse_ip lookup_host found ≡ ok tt) ↔ Passes (or_none found)
  check_resolved_iff none = (λ h. cc, λ h. elim (h.0 refl) [ ])
  check_resolved_iff (some []) = (λ h. cc, λ h. elim (h.0 refl) [ ])
  check_resolved_iff (some (ip ∷ ips)) =
      (λ h. (full ip ips, (check_all_iff (ip ∷ ips)).0 h), λ h. (check_all_iff (ip ∷ ips)).1 h.1)

  check_host_iff :
      (host : Text) (port : ℕ) (o : Option IpAddr)
      → (check_host parse_ip lookup_host host port o ≡ ok tt)
        ↔ Passes (addresses (lookup_host host port) o)
  unfolding check_all
  check_host_iff host port none = check_resolved_iff (lookup_host host port)
  check_host_iff host port (some ip) =
      (λ h. (full ip [], (check_all_iff (ip ∷ [])).0 h), λ h. (check_all_iff (ip ∷ [])).1 h.1)

  -- The guard on the host of a server lets it pass exactly when the host is not empty, stands for
  -- at least one address, and every address that it stands for is external.
  pub reject_internal_target_iff :
      (server : Text)
      → (reject_internal_target parse_ip lookup_host server ≡ ok tt) ↔ (
          (is_empty (split_host_port server).0 ≡ false)
          × (addresses_of server ≢ [])
          × All (λ ip. is_internal_addr ip ≡ false) (addresses_of server))
  unfolding reject_internal_target
  reject_internal_target_iff server =
      let (host, port) = split_host_port server in
      elim (Bool-cases (is_empty host)) [
        | inl e ↦ rw e (λ h. cc, λ h. (let never : true ≡ false = h.0 in cc never))
        | inr e ↦ rw e (
          λ h.
              (let (some_there, all) = (check_host_iff host port (parse_ip host)).0 h in
                (refl, some_there, all)),
          λ h. (check_host_iff host port (parse_ip host)).1 (h.1, h.2),
        )
      ]
