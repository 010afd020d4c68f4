-- ===== src/Gateway/Tests.antt =====
-- The handlers of the tunnel on a gateway with one profile (api/tunnel.rs).
use snx_edge.Common.{
  ℕ, ◌≡◌, ◌≢◌, ◌↔◌, refl, Bool, true, false, List, [], ◌∷◌, Option, none, some, Text, codes,
  text_eq, any, All, arith, strip_prefix,
}
use snx_edge.Errors.{ok}
use snx_edge.Json.{object, string, field, end, get}
use snx_edge.Json.TestCodec.{print}
use snx_edge.Auth.Permissions.{Claims, require_permission, has_permission, permissions_for_role}
use snx_edge.Profiles.TestCipher.{shift, serde}
use snx_edge.Profiles.Store.{ProfileRow, is_row, get_profile_config, decrypt_in_place}
use snx_edge.Profiles.Secrets.{is_encrypted}
use snx_edge.Supervisor.{error}
use snx_edge.Tunnel.{TunnelManager, new}
use snx_edge.Tunnel.Params.{VpnConfig}
use snx_edge.Tunnel.TestCore.{office}
use snx_edge.Tunnel.TestCore
use snx_edge.Gateway.{Gateway, connect, disconnect, reconnect}
use snx_edge.Gateway.Intent.{
  Retries, supervise, disconnect-not_reconnected, connect-redialled, reconnect-redials_old,
}
use snx_edge.Gateway.Guard.{
  IpAddr, v4, is_internal_addr, is_internal_v4, split_host_port, reject_internal_target,
}
use snx_edge.Gateway.Guard.Ranges.{
  to_u32, within, internal_ranges, is_internal_v4-ranges, addresses_of, reject_internal_target_iff,
}
use snx_edge.Net.{is_empty}

abbrev read_config : Text → Option VpnConfig
read_config t = some office

abbrev Office : Type 0
Office = Gateway TestCore.gateway shift serde none read_config

abbrev text_of : Option Text → Text
text_of none = []
text_of (some t) = t

abbrev stored : Text
stored = text_of (print (object (field (codes "server") (string (codes "vpn.example.com")) end)))

abbrev office_row : ProfileRow
office_row = record {
  id = codes "p2";
  name = codes "Office";
  config = stored;
  enabled = true;
  created_at = 100;
  updated_at = 100;
}

-- An operator has asked for the profile `p1`.
abbrev wanted : Office
wanted = record {
  db = record {
    users = [];
    sessions = [];
    app_state =
        (codes "auto_connect", codes "true") ∷ (codes "desired_profile_id", codes "p1") ∷ [];
  };
  profiles = office_row ∷ [];
  tunnel = new TestCore.gateway tt;
  reconnect_suspended = false;
}

-- The tunnel has ended.
abbrev dropped : TunnelManager TestCore.gateway
dropped = record (new TestCore.gateway tt) { status = error (codes "tunnel ended unexpectedly") }

abbrev operator : Claims
operator = record {
  sub = codes "u2";
  role = codes "operator";
  permissions = permissions_for_role (codes "operator");
  exp = 900;
  iat = 0;
  jti = codes "j";
  token_type = codes "access";
  token_generation = 0;
}

abbrev no_file : Text → Option Text
no_file path = none

abbrev never : Office → Bool
never g = false

abbrev at_once : ℕ → Office → Bool × Office
at_once d g = (false, g)

may_connect : require_permission operator (codes "tunnel.connect") ≡ ok tt
unfolding require_permission has_permission permissions_for_role strip_prefix
may_connect = refl

may_disconnect : require_permission operator (codes "tunnel.disconnect") ≡ ok tt
unfolding require_permission has_permission permissions_for_role strip_prefix
may_disconnect = refl

loaded : (get_profile_config shift serde none (codes "p2") (office_row ∷ [])).0 ≡ ok stored
unfolding get_profile_config is_row text_eq decrypt_in_place is_encrypted get
loaded = refl

disconnect-not_reconnected_example :
    (supervise TestCore.gateway shift serde none read_config never at_once
      (record (disconnect TestCore.gateway shift serde none read_config no_file 0 operator
        wanted).1 { tunnel = dropped })).world
    ≡ record (disconnect TestCore.gateway shift serde none read_config no_file 0 operator
        wanted).1 { tunnel = dropped }
disconnect-not_reconnected_example =
    disconnect-not_reconnected TestCore.gateway shift serde none read_config no_file 0 operator
      wanted dropped never at_once may_disconnect

connect-redialled_example :
    Retries TestCore.gateway shift serde none read_config never at_once
      (codes "p2")
      office
      (record (connect TestCore.gateway shift serde none read_config no_file 0 operator
        (codes "p2")
        wanted).1 { tunnel = dropped })
connect-redialled_example =
    connect-redialled TestCore.gateway shift serde none read_config no_file 0 operator wanted
      (codes "p2") stored office dropped never at_once may_connect loaded refl refl tt

-- The profile `p3` is asked for while `p2` is up.
reconnect-redials_old_example :
    Retries TestCore.gateway shift serde none read_config never at_once
      (codes "p2")
      office
      (record (reconnect TestCore.gateway shift serde none read_config no_file 0 operator
        (codes "p3")
        (record (connect TestCore.gateway shift serde none read_config no_file 0 operator
          (codes "p2")
          wanted).1 { tunnel = dropped })).1 { tunnel = dropped })
reconnect-redials_old_example =
    reconnect-redials_old TestCore.gateway shift serde none read_config no_file 0 operator operator
      wanted (codes "p2") (codes "p3") stored office dropped dropped never at_once may_connect
      loaded refl refl tt

-- A resolver that knows one name, and a parser that knows no address.
abbrev resolve : Text → ℕ → Option (List IpAddr)
resolve host port = some (v4 203 0 113 10 ∷ v4 192 168 88 1 ∷ [])

abbrev no_address : Text → Option IpAddr
no_address host = none

reject_internal_target_iff_example :
    (reject_internal_target no_address resolve (codes "vpn.example.com:8443") ≡ ok tt) ↔ (
      (is_empty (split_host_port (codes "vpn.example.com:8443")).0 ≡ false)
      × (addresses_of no_address resolve (codes "vpn.example.com:8443") ≢ [])
      × All
          (λ ip. is_internal_addr ip ≡ false)
          (addresses_of no_address resolve (codes "vpn.example.com:8443")))
reject_internal_target_iff_example =
    reject_internal_target_iff no_address resolve (codes "vpn.example.com:8443")

is_internal_v4-ranges_example :
    is_internal_v4 169 254 169 254 ≡ any (within (to_u32 169 254 169 254)) internal_ranges
is_internal_v4-ranges_example =
    is_internal_v4-ranges 169 254 169 254 (omega arith) (omega arith) (omega arith) (omega arith)
