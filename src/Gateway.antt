-- ===== src/Gateway.antt =====
-- The handlers of the tunnel (apps/snx-edge-server/src/api/tunnel.rs), over the state that they share
-- with the supervisor: the application state, the profiles, the tunnel manager and the latch.
pub mod Guard
pub mod Intent
mod Tests
use snx_edge.Common.{
  ℕ, Bool, true, false, List, [], ◌∷◌, Option, none, some, Text, codes, if◌then◌else◌,
}
use snx_edge.Errors.{
  AppError, bad_request, internal, not_found, Result, ok, err, M, ◌>>=◌, ◌>>◌, return, fail, lift,
  ok_or,
}
use snx_edge.Auth.Permissions.{Claims, require_permission}
use snx_edge.Users.Store.{Db}
use snx_edge.Users.Rows.{set_app_state, delete_app_state}
use snx_edge.Profiles.Secrets.{Cipher}
use snx_edge.Profiles.Store.{Serde, Rows, get_profile_config}
use snx_edge.Supervisor.{ConnectionStatus}
use snx_edge.Tunnel.{Core, TunnelManager, Outcome, done, failed, T, current_server}
use snx_edge.Tunnel
use snx_edge.Tunnel.Params.{VpnConfig}
use snx_edge.Tunnel.Status.{TunnelStatus, VpnRoute, status, routes}
use snx_edge.Net.{is_empty}

abbrev pub key_desired : Text
key_desired = codes "desired_profile_id"

abbrev pub key_auto_connect : Text
key_auto_connect = codes "auto_connect"

module _ (c : Core) (a : Cipher) (serde : Serde) (profile_key : Option a.Key)
    (parse_config : Text → Option VpnConfig) where
  pub record Gateway : Type 0 where
    pub db : Db
    pub profiles : Rows
    pub tunnel : TunnelManager c
    pub reconnect_suspended : Bool

  abbrev pub on_db : {A : Type 0} → M Db A → M Gateway A
  on_db m g = let (r, db) = m g.db in (r, record g { db = db })

  abbrev pub on_profiles : {A : Type 0} → M Rows A → M Gateway A
  on_profiles m g = let (r, rows) = m g.profiles in (r, record g { profiles = rows })

  abbrev pub as_bad_request : {A : Type 0} → Outcome A → Result A
  as_bad_request (done x) = ok x
  as_bad_request (failed e) = err bad_request

  abbrev pub on_tunnel : {A : Type 0} → T c A → M Gateway A
  on_tunnel m g = let (r, t) = m g.tunnel in (as_bad_request r, record g { tunnel = t })

  abbrev pub load_config : Text → M Gateway VpnConfig
  load_config profile_id = do
    text ← on_profiles (get_profile_config a serde profile_key profile_id)
    lift (ok_or internal (parse_config text))

  abbrev pub require_server : VpnConfig → M Gateway (Unit {0})
  require_server vpn = if is_empty vpn.server then fail bad_request else return tt

  abbrev pub rearm : M Gateway (Unit {0})
  rearm g = (ok tt, record g { reconnect_suspended = false })

  -- `read` and `now` are what the counters and the clock say when the status is read.
  module _ (read : Text → Option Text) (now : ℕ) where
    abbrev pub report : M Gateway TunnelStatus
    report g = (ok (status read now g.tunnel.status), g)

    -- The intent is recorded before the tunnel is dialled.
    abbrev pub record_intent : Text → M Gateway (Unit {0})
    record_intent profile_id = do
      on_db (set_app_state key_desired profile_id)
      on_db (set_app_state key_auto_connect (codes "true"))
      rearm

    unfoldable pub connect : Claims → Text → M Gateway TunnelStatus
    connect claims profile_id = do
      lift (require_permission claims (codes "tunnel.connect"))
      vpn ← load_config profile_id
      require_server vpn
      record_intent profile_id
      connection ← on_tunnel (Tunnel.connect c vpn)
      report

    abbrev pub clear_intent : M Gateway (Unit {0})
    clear_intent = on_db (delete_app_state key_desired) >> on_db (delete_app_state key_auto_connect)

    unfoldable pub disconnect : Claims → M Gateway TunnelStatus
    disconnect claims = do
      lift (require_permission claims (codes "tunnel.disconnect"))
      clear_intent
      on_tunnel (Tunnel.disconnect c)
      report

    unfoldable pub reconnect : Claims → Text → M Gateway TunnelStatus
    reconnect claims profile_id = do
      lift (require_permission claims (codes "tunnel.connect"))
      vpn ← load_config profile_id
      connection ← on_tunnel (Tunnel.reconnect c vpn)
      report

    unfoldable pub read_status : Claims → M Gateway TunnelStatus
    read_status claims = lift (require_permission claims (codes "tunnel.status")) >> report

    unfoldable pub challenge : Claims → Text → M Gateway TunnelStatus
    challenge claims code = do
      lift (require_permission claims (codes "tunnel.connect"))
      connection ← on_tunnel (Tunnel.challenge_code c code)
      report

  unfoldable pub vpn_routes : Claims → M Gateway (List VpnRoute)
  vpn_routes claims g =
      (lift (require_permission claims (codes "tunnel.status")) >> λ h.
      (ok (routes h.tunnel.status), h))
        g
