-- ===== src/Auth/ClientIp.antt =====
-- The address of a request's sender (apps/snx-edge-server/src/api/auth.rs). The parser and the printer of
-- addresses of the standard library are parameters, and so is the lookup of a header that is text.
pub mod Blocks
mod Tests
use snx_edge.Common.{
  ℕ, suc, ◌+◌, ◌-◌, ◌*◌, ◌/◌, ◌^◌, ◌≤◌, ◌<◌, ◌≡◌, ◌↔◌, refl, Bool, true, false, not, ◌&&◌, List, [],
  ◌∷◌, Option, none, some, Text, codes, trim, split, any, ltb, leb, ◌==◌, ==_iff, arith, inl, inr,
  if◌then◌else◌,
}
use snx_edge.Common.Decimals.{parse_uint}
use snx_edge.Net.{is_empty}
use snx_edge.Gateway.Guard.{IpAddr, v4, v6, split_once}
use snx_edge.Gateway.Guard.Ranges.{to_u32}

-- `net & (MAX << (width - prefix))`
abbrev pub masked : ℕ → ℕ → ℕ → ℕ
masked width prefix n = if prefix == 0 then 0 else n / 2 ^ (width - prefix) * 2 ^ (width - prefix)

abbrev pub to_u64 : ℕ → ℕ → ℕ → ℕ → ℕ
to_u64 s0 s1 s2 s3 = ((s0 * 65536 + s1) * 65536 + s2) * 65536 + s3

abbrev pub same_network : ℕ → ℕ → ℕ → ℕ → Bool
same_network width prefix net host =
    not (ltb width prefix) && masked width prefix net == masked width prefix host

abbrev pub covers_host : IpAddr → ℕ → IpAddr → Bool
covers_host (v4 a b c d) prefix (v4 e f g h) =
    same_network 32 prefix (to_u32 a b c d) (to_u32 e f g h)
covers_host (v6 s0 s1 s2 s3 s4 s5 s6 s7) prefix (v6 t0 t1 t2 t3 t4 t5 t6 t7) =
    same_network 128 prefix (to_u64 s0 s1 s2 s3 * 2 ^ 64 + to_u64 s4 s5 s6 s7)
      (to_u64 t0 t1 t2 t3 * 2 ^ 64 + to_u64 t4 t5 t6 t7)
covers_host (v4 a b c d) prefix (v6 s0 s1 s2 s3 s4 s5 s6 s7) = false
covers_host (v6 s0 s1 s2 s3 s4 s5 s6 s7) prefix (v4 a b c d) = false

abbrev pub addr_eq : IpAddr → IpAddr → Bool
addr_eq (v4 a b c d) (v4 e f g h) = a == e && b == f && c == g && d == h
addr_eq (v6 s0 s1 s2 s3 s4 s5 s6 s7) (v6 t0 t1 t2 t3 t4 t5 t6 t7) =
    s0 == t0 && s1 == t1 && s2 == t2 && s3 == t3 && s4 == t4 && s5 == t5 && s6 == t6 && s7 == t7
addr_eq (v4 a b c d) (v6 s0 s1 s2 s3 s4 s5 s6 s7) = false
addr_eq (v6 s0 s1 s2 s3 s4 s5 s6 s7) (v4 a b c d) = false

abbrev pub is_host : Option IpAddr → IpAddr → Bool
is_host none addr = false
is_host (some n) addr = addr_eq n addr

abbrev pub in_network : Option IpAddr → Option ℕ → IpAddr → Bool
in_network (some network) (some prefix) addr = covers_host network prefix addr
in_network (some network) none addr = false
in_network none prefix addr = false

-- `filter(|s| !s.is_empty())`
abbrev pub non_empty : Option Text → Option Text
non_empty none = none
non_empty (some s) = if is_empty s then none else some s

-- `split(',').next()`, trimmed.
abbrev pub first_of_list : Option Text → Option Text
first_of_list none = none
first_of_list (some s) = elim (split 44 s) [ [] ↦ some (trim s) | first ∷ _ ↦ some (trim first) ]

abbrev pub or_given : Option Text → Option Text → Option Text
or_given none o = o
or_given (some ip) o = some ip

module _ (parse_ip : Text → Option IpAddr) (show_ip : IpAddr → Text) where
  abbrev pub within_cidr : Text → Option (Text × Text) → IpAddr → Bool
  within_cidr cidr none addr = is_host (parse_ip cidr) addr
  within_cidr cidr (some (net_str, prefix_str)) addr =
      in_network (parse_ip net_str) (parse_uint 255 prefix_str) addr

  unfoldable pub cidr_contains : Text → IpAddr → Bool
  cidr_contains cidr addr = within_cidr cidr (split_once 47 cidr) addr

  unfoldable pub peer_in_trusted_proxies : IpAddr → List Text → Bool
  peer_in_trusted_proxies addr cidrs = any (λ cidr. cidr_contains cidr addr) cidrs

  abbrev pub trusts : Option IpAddr → List Text → Bool
  trusts none cidrs = true
  trusts (some peer) cidrs = peer_in_trusted_proxies peer cidrs

  abbrev pub peer_text : Option IpAddr → Option Text
  peer_text none = none
  peer_text (some peer) = some (show_ip peer)

  unfoldable pub extract_client_ip : (Text → Option Text) → Option IpAddr → List Text → Option Text
  extract_client_ip header peer trusted_proxies =
      if trusts peer trusted_proxies
      then or_given (non_empty (first_of_list (header (codes "x-forwarded-for"))))
          (or_given (non_empty (header (codes "x-real-ip"))) (peer_text peer))
      else peer_text peer
