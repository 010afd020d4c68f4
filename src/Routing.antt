-- ===== src/Routing.antt =====
-- The handlers of routing (apps/snx-edge-server/src/api/routing.rs). `client` is the answer of
-- `routeros_client`; `parse_ip` and `is_ipv4` are the parsers of the standard library. The broadcast of
-- a change is left out.
pub mod Addresses
mod Tests
use snx_edge.Common.{
  ℕ, Bool, true, false, not, ◌&&◌, ◌||◌, List, [], ◌∷◌, Option, none, some, Text, codes, get_elem?,
  split, ltb, leb, if◌then◌else◌,
}
use snx_edge.Common.Decimals.{parse_uint}
use snx_edge.Errors.{
  AppError, bad_request, forbidden, internal, ok_or, Result, ok, err, M, ◌>>=◌, ◌>>◌, return, fail,
  lift,
}
use snx_edge.Auth.Permissions.{Claims, has_permission}
use snx_edge.Profiles.Secrets.{and_then, is_some}
use snx_edge.Net.{Host, Output, run_program, split_whitespace}
use snx_edge.Gateway.Guard.{IpAddr, v4, v6, split_once}
use snx_edge.RouterOs.Device.{Device, Object, mangle, route, nat}
use snx_edge.RouterOs.Client.{
  rule_entry, list_address_list, add_address, remove_address, list_managed,
}
use snx_edge.RouterOs.Provisioner.{RouterOsConfig, SetupReport}
use snx_edge.RouterOs.Setup.{setup, teardown}
use snx_edge.RouterOs.Status.{
  PresenceSnapshot, LayoutState, state, DiagnosticsResult, presence_snapshot, diagnostics,
}

pub record AddClientRequest : Type 0 where
  pub address : Text
  pub comment : Option Text
  pub disabled : Option Bool

abbrev pub max_prefix : IpAddr → ℕ
max_prefix (v4 a b c d) = 32
max_prefix (v6 s0 s1 s2 s3 s4 s5 s6 s7) = 128

-- A number of eight bits, up to a maximum.
abbrev pub fits : ℕ → Option ℕ → Bool
fits max none = false
fits max (some prefix) = leb prefix max

module _ (parse_ip : Text → Option IpAddr) (is_ipv4 : Text → Bool) where
  abbrev pub cidr_ok : Option IpAddr → Text → Bool
  cidr_ok none prefix = false
  cidr_ok (some ip) prefix = fits (max_prefix ip) (parse_uint 255 prefix)

  abbrev pub range_ok : Option (Text × Text) → Bool
  range_ok none = false
  range_ok (some (first, last)) = is_ipv4 first && is_ipv4 last

  abbrev pub cidr_or_range_ok : Text → Option (Text × Text) → Bool
  cidr_or_range_ok address none = range_ok (split_once 45 address)
  cidr_or_range_ok address (some (ip, prefix)) = cidr_ok (parse_ip ip) prefix

  abbrev pub checked : Bool → Result (Unit {0})
  checked good = if good then ok tt else err bad_request

  unfoldable pub validate_address : Text → Result (Unit {0})
  validate_address address =
      checked (is_some (parse_ip address) || cidr_or_range_ok address (split_once 47 address))

  abbrev pub corp_ok : Text → Option (Text × Text) → Bool
  corp_ok address none = is_ipv4 address
  corp_ok address (some (ip, prefix)) = is_ipv4 ip && fits 32 (parse_uint 255 prefix)

  unfoldable pub validate_corp_cidr : Text → Result (Unit {0})
  validate_corp_cidr address = checked (corp_ok address (split_once 47 address))

  module _ (d : Device) (client : Result (Unit {0})) (client_tag : Text)
      (config : RouterOsConfig) where
    abbrev pub require : Bool → M d.State (Unit {0})
    require allowed = if allowed then return tt else fail forbidden

    abbrev pub list_entries : Claims → Text → Text → M d.State (List Object)
    list_entries claims permission list_name = do
      require (has_permission claims permission || has_permission claims (codes "routing.read"))
      lift client
      list_address_list d list_name

    abbrev pub add_entry :
        Claims
        → Text
        → Result (Unit {0})
        → Text
        → Text
        → AddClientRequest
        → Option Bool
        → M d.State Object
    add_entry claims permission valid list_name kind req disabled = do
      require (has_permission claims permission)
      lift valid
      lift client
      add_address d client_tag list_name req.address kind req.comment disabled

    abbrev pub remove_entry : Claims → Text → Text → M d.State (Unit {0})
    remove_entry claims permission i = do
      require (has_permission claims permission)
      lift client
      remove_address d i

    unfoldable pub list_clients : Claims → M d.State (List Object)
    list_clients claims = list_entries claims (codes "routing.clients.read") config.address_list_vpn

    unfoldable pub add_client : Claims → AddClientRequest → M d.State Object
    add_client claims req =
        add_entry claims (codes "routing.clients.create") (validate_address req.address)
          config.address_list_vpn (codes "vpn-client") req req.disabled

    unfoldable pub remove_client : Claims → Text → M d.State (Unit {0})
    remove_client claims i = remove_entry claims (codes "routing.clients.delete") i

    unfoldable pub list_bypass : Claims → M d.State (List Object)
    list_bypass claims =
        list_entries claims (codes "routing.bypass.read") config.address_list_bypass

    unfoldable pub add_bypass : Claims → AddClientRequest → M d.State Object
    add_bypass claims req =
        add_entry claims (codes "routing.bypass.create") (validate_address req.address)
          config.address_list_bypass (codes "vpn-bypass") req req.disabled

    unfoldable pub remove_bypass : Claims → Text → M d.State (Unit {0})
    remove_bypass claims i = remove_entry claims (codes "routing.bypass.delete") i

    unfoldable pub list_corp : Claims → M d.State (List Object)
    list_corp claims = list_entries claims (codes "routing.corp.read") config.address_list_corp

    unfoldable pub add_corp : Claims → AddClientRequest → M d.State Object
    add_corp claims req =
        add_entry claims (codes "routing.corp.create") (validate_corp_cidr req.address)
          config.address_list_corp (codes "vpn-corp") req none

    unfoldable pub remove_corp : Claims → Text → M d.State (Unit {0})
    remove_corp claims i = remove_entry claims (codes "routing.corp.delete") i

    -- The answer shows nine of the ten flags, all but `mss_clamp`.
    pub record RoutingStatus : Type 0 where
      pub mangle_rules : List Object
      pub routes : List Object
      pub nat_rules : List Object
      pub table : Text
      pub state : LayoutState
      pub presence : PresenceSnapshot

    unfoldable pub routing_status : Claims → M d.State RoutingStatus
    routing_status claims = do
      require (has_permission claims (codes "routing.read"))
      lift client
      mangles ← list_managed d client_tag rule_entry mangle
      routes ← list_managed d client_tag rule_entry route
      nats ← list_managed d client_tag rule_entry nat
      presence ← presence_snapshot d client_tag config
      return (record {
        mangle_rules = mangles;
        routes = routes;
        nat_rules = nats;
        table = config.routing_table_name;
        state = state presence;
        presence = presence;
      })

    -- `container_ip` is the answer of `detect_container_ip`.
    unfoldable pub setup_pbr : Result Text → Claims → M d.State SetupReport
    setup_pbr container_ip claims = do
      require (has_permission claims (codes "routing.setup"))
      lift client
      ip ← lift container_ip
      λ s. (let (report, t) = setup d client_tag config ip s in (ok report, t))

    unfoldable pub teardown_pbr : Claims → M d.State ℕ
    teardown_pbr claims = do
      require (has_permission claims (codes "routing.teardown"))
      lift client
      teardown d client_tag

    unfoldable pub run_diagnostics : Claims → M d.State DiagnosticsResult
    run_diagnostics claims = do
      require (has_permission claims (codes "routing.diagnostics"))
      lift client
      diagnostics d client_tag config

-- `207 Multi-Status` where a step has failed.
unfoldable pub setup_status : SetupReport → ℕ
setup_status report = if is_some report.failed then 207 else 200
