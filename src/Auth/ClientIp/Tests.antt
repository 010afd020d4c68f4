-- ===== src/Auth/ClientIp/Tests.antt =====
-- A proxy in a trusted network (api/auth.rs).
use snx_edge.Common.{
  ◌^◌, ◌↔◌, ◌≡◌, refl, true, Option, none, some, Text, codes, text_eq, arith, if◌then◌else◌,
}
use snx_edge.Common.Decimals.{parse_uint, parse_digits}
use snx_edge.Gateway.Guard.{IpAddr, v4, split_once}
use snx_edge.Gateway.Guard.Ranges.{to_u32}
use snx_edge.Auth.ClientIp.{cidr_contains}
use snx_edge.Auth.ClientIp.Blocks.{Together, cidr_contains-Together}

-- A parser that knows one address.
abbrev parse_ip : Text → Option IpAddr
parse_ip t = if text_eq t (codes "10.0.0.0") then some (v4 10 0 0 0) else none

abbrev show_ip : IpAddr → Text
show_ip ip = codes "peer"

abbrev network : Text
network = codes "10.0.0.0/8"

cidr_contains-Together_example :
    (cidr_contains parse_ip show_ip network (v4 10 1 2 3) ≡ true)
    ↔ Together (2 ^ 24) (to_u32 10 0 0 0) (to_u32 10 1 2 3)
cidr_contains-Together_example =
    cidr_contains-Together parse_ip show_ip network (codes "10.0.0.0") (codes "8") 10 0 0 0 10 1 2 3
      8 (unfold split_once in refl) (unfold text_eq in refl)
      (unfold parse_uint parse_digits in refl) (omega arith) (omega arith) (omega arith)
