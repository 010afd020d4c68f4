-- ===== src/Routing/Tests.antt =====
-- A subnet of the company (api/routing.rs).
use snx_edge.Common.{◌≡◌, refl, Bool, Option, none, some, Text, codes, text_eq, if◌then◌else◌}
use snx_edge.Common.Decimals.{parse_uint, parse_digits}
use snx_edge.Errors.{ok}
use snx_edge.Gateway.Guard.{IpAddr, v4, split_once}
use snx_edge.Routing.{validate_address, validate_corp_cidr}
use snx_edge.Routing.Addresses.{Agree, validate_corp_cidr-validate_address}

-- Parsers that know one address.
abbrev is_ipv4 : Text → Bool
is_ipv4 t = text_eq t (codes "10.20.0.0")

abbrev parse_ip : Text → Option IpAddr
parse_ip t = if is_ipv4 t then some (v4 10 20 0 0) else none

parsers-Agree : Agree parse_ip is_ipv4
parsers-Agree t h = (10, 20, 0, 0, rw h refl)

abbrev subnet : Text
subnet = codes "10.20.0.0/16"

corp_subnet : validate_corp_cidr parse_ip is_ipv4 subnet ≡ ok tt
unfolding validate_corp_cidr split_once parse_uint parse_digits text_eq
corp_subnet = refl

validate_corp_cidr-validate_address_example : validate_address parse_ip is_ipv4 subnet ≡ ok tt
validate_corp_cidr-validate_address_example =
    validate_corp_cidr-validate_address parse_ip is_ipv4 parsers-Agree subnet corp_subnet
