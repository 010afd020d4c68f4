-- ===== src/Gateway/Guard.antt =====
-- The guard on the host of `POST /server/info` (api/tunnel.rs). `parse_ip` and `lookup_host` are the
-- address parser of the standard library and the resolver.
pub mod Ranges
use snx_edge.Common.{
  ℕ, suc, ◌+◌, ◌*◌, ◌/◌, ◌%◌, ◌≡◌, Bool, true, false, not, ◌&&◌, ◌||◌, List, [], ◌∷◌, ◌++◌, Option,
  none, some, Text, codes, strip_prefix, ltb, leb, ◌==◌, if◌then◌else◌,
}
use snx_edge.Common.Decimals.{parse_uint}
use snx_edge.Errors.{bad_request, internal, not_found, Result, ok, err, ok_or}
use snx_edge.Auth.Permissions.{Claims, require_permission}
use snx_edge.Profiles.Secrets.{and_then}
use snx_edge.Net.{is_empty}

-- Octets, and segments of 16 bits.
pub data IpAddr : Type 0 where
  v4 : ℕ → ℕ → ℕ → ℕ → IpAddr
  v6 : ℕ → ℕ → ℕ → ℕ → ℕ → ℕ → ℕ → ℕ → IpAddr

-- The tests of `Ipv4Addr`.
abbrev pub is_private : ℕ → ℕ → Bool
is_private a b = a == 10 || (a == 172 && leb 16 b && leb b 31) || (a == 192 && b == 168)

unfoldable pub is_internal_v4 : ℕ → ℕ → ℕ → ℕ → Bool
is_internal_v4 a b c d =
    is_private a b
    || a == 127
    || (a == 169 && b == 254)
    || (a == 255 && b == 255 && c == 255 && d == 255)
    || (a == 0 && b == 0 && c == 0 && d == 0)
    || (leb 224 a && leb a 239)
    || a == 0
    || (a == 100 && leb 64 b && ltb b 128)

-- `to_ipv4_mapped`, and the rules of version 4 on what it gives.
abbrev pub mapped_internal : ℕ → ℕ → ℕ → ℕ → ℕ → ℕ → ℕ → ℕ → Bool
mapped_internal s0 s1 s2 s3 s4 s5 s6 s7 =
    s0 == 0
    && s1 == 0
    && s2 == 0
    && s3 == 0
    && s4 == 0
    && s5 == 0xffff
    && is_internal_v4 (s6 / 256) (s6 % 256) (s7 / 256) (s7 % 256)

-- `s & 0xfe00` clears the low nine bits of a segment, `s & 0xffc0` the low six, `s & 0xff00` the low eight.
unfoldable pub is_internal_addr : IpAddr → Bool
is_internal_addr (v4 a b c d) = is_internal_v4 a b c d
is_internal_addr (v6 s0 s1 s2 s3 s4 s5 s6 s7) =
    (s0 == 0 && s1 == 0 && s2 == 0 && s3 == 0 && s4 == 0 && s5 == 0 && s6 == 0 && s7 == 1)
    || (s0 == 0 && s1 == 0 && s2 == 0 && s3 == 0 && s4 == 0 && s5 == 0 && s6 == 0 && s7 == 0)
    || (s0 / 256) * 256 == 0xff00
    || (s0 / 512) * 512 == 0xfc00
    || (s0 / 64) * 64 == 0xfe80
    || mapped_internal s0 s1 s2 s3 s4 s5 s6 s7

abbrev pub default_port : ℕ
default_port = 443

abbrev port_max : ℕ
port_max = 65535

-- `split_once`
abbrev cut_on : ℕ → Option (Text × Text) → Option (Text × Text)
cut_on c none = none
cut_on c (some (before, after)) = some (c ∷ before, after)

unfoldable pub split_once : ℕ → Text → Option (Text × Text)
split_once sep [] = none
split_once sep (c ∷ s) =
    let rest = cut_on c (split_once sep s) in if c == sep then some ([], s) else rest

-- `matches(c).count()`
unfoldable pub count : ℕ → Text → ℕ
count sep [] = 0
count sep (c ∷ s) = (if c == sep then 1 else 0) + count sep s

abbrev port_or : ℕ → Option ℕ → ℕ
port_or d none = d
port_or d (some p) = p

abbrev parse_port : Option Text → Option ℕ
parse_port none = none
parse_port (some t) = parse_uint port_max t

abbrev with_port : Text → Text → Option ℕ → Text × ℕ
with_port server host none = (server, default_port)
with_port server host (some port) = (host, port)

abbrev by_colon : Text → Option (Text × Text) → Text × ℕ
by_colon server none = (server, default_port)
by_colon server (some (host, port)) = with_port server host (parse_uint port_max port)

-- A bare host, or a host and its port.
abbrev pub bare_host_port : Text → Text × ℕ
bare_host_port server =
    if count 58 server == 1 then by_colon server (split_once 58 server) else (server, default_port)

abbrev by_bracket : Text → Option (Text × Text) → Text × ℕ
by_bracket server none = bare_host_port server
by_bracket server (some (host, tail)) =
    (host, port_or default_port (parse_port (strip_prefix (codes ":") tail)))

abbrev bracketed : Text → Option Text → Text × ℕ
bracketed server none = bare_host_port server
bracketed server (some rest) = by_bracket server (split_once 93 rest)

unfoldable pub split_host_port : Text → Text × ℕ
unfolding strip_prefix split_once count parse_uint
split_host_port server = bracketed server (strip_prefix (codes "[") server)

module _ (parse_ip : Text → Option IpAddr) (lookup_host : Text → ℕ → Option (List IpAddr)) where
  unfoldable pub check_all : List IpAddr → Result (Unit {0})
  check_all [] = ok tt
  check_all (ip ∷ ips) =
      let rest = check_all ips in if is_internal_addr ip then err bad_request else rest

  abbrev pub check_resolved : Option (List IpAddr) → Result (Unit {0})
  check_resolved none = err bad_request
  check_resolved (some []) = err bad_request
  check_resolved (some (ip ∷ ips)) = check_all (ip ∷ ips)

  abbrev pub check_host : Text → ℕ → Option IpAddr → Result (Unit {0})
  check_host host port (some ip) = if is_internal_addr ip then err bad_request else ok tt
  check_host host port none = check_resolved (lookup_host host port)

  unfoldable pub reject_internal_target : Text → Result (Unit {0})
  unfolding check_all is_internal_addr
  reject_internal_target server =
      let (host, port) = split_host_port server in
      if is_empty host then err bad_request else check_host host port (parse_ip host)

  -- `query` is the request that snxcore makes to a server of that name.
  module _ {Info : Type 0} (query : Text → Option Info) where
    abbrev pub ask : Text → Result Info
    ask server = ok_or internal (query server)

    abbrev pub ask_known : Option Text → Result Info
    ask_known none = err not_found
    ask_known (some server) = ask server

    unfoldable pub server_info_current : Claims → Option Text → Result Info
    server_info_current claims current_server =
        and_then (require_permission claims (codes "tunnel.status")) (λ _. ask_known current_server)

    unfoldable pub server_info : Claims → Text → Result Info
    server_info claims server =
        and_then (require_permission claims (codes "tunnel.connect"))
          (λ _. and_then (reject_internal_target server) (λ _. ask server))
