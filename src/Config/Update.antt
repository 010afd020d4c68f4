-- ===== src/Config/Update.antt =====
-- PUT /api/v1/config (apps/snx-edge-server/src/api/config.rs) and the cached client of the router
-- (state.rs), which is told by the section it was built from.
use snx_edge.Common.{
  ℕ, Bool, true, false, not, ◌&&◌, List, [], ◌∷◌, Option, none, some, Text, codes, text_eq, any,
  ltb, if◌then◌else◌,
}
use snx_edge.Errors.{bad_request, internal, ok, err, M, ◌>>◌, return, fail, lift}
use snx_edge.Auth.Permissions.{Claims, require_permission}
use snx_edge.Profiles.Secrets.{is_some}
use snx_edge.Users.Store.{or_else}
use snx_edge.Config.{AuthConfig, RouterOsConfig, LoggingConfig, AppConfig, Sockets}

pub record UpdateAuthConfig : Type 0 where
  pub max_login_attempts : Option ℕ
  pub lockout_duration_minutes : Option ℕ
  pub access_token_ttl_minutes : Option ℕ
  pub refresh_token_ttl_days : Option ℕ

pub record UpdateRouterOsConfig : Type 0 where
  pub tls_skip_verify : Option Bool
  pub comment_tag : Option Text
  pub address_list_vpn : Option Text
  pub address_list_bypass : Option Text
  pub routing_table : Option Text
  pub auto_setup : Option Bool

pub record UpdateLoggingConfig : Type 0 where
  pub level : Option Text
  pub buffer_size : Option ℕ

-- `listen` is the one key of the section `api`.
pub record UpdateConfigRequest : Type 0 where
  pub listen : Option Text
  pub auth : Option UpdateAuthConfig
  pub routeros : Option UpdateRouterOsConfig
  pub logging : Option UpdateLoggingConfig

pub record ConfigState : Type 0 where
  pub config : AppConfig
  pub client : Option RouterOsConfig

abbrev pub valid_levels : List Text
valid_levels = codes "trace" ∷ codes "debug" ∷ codes "info" ∷ codes "warn" ∷ codes "error" ∷ []

abbrev pub level_ok : Option Text → Bool
level_ok none = true
level_ok (some level) = any (text_eq level) valid_levels

-- A number that is given is 1 at least.
abbrev pub positive : Option ℕ → Bool
positive none = true
positive (some n) = not (ltb n 1)

abbrev pub logging_ok : Option UpdateLoggingConfig → Bool
logging_ok none = true
logging_ok (some l) = level_ok l.level && positive l.buffer_size

abbrev pub auth_ok : Option UpdateAuthConfig → Bool
auth_ok none = true
auth_ok (some u) =
    positive u.max_login_attempts
    && positive u.lockout_duration_minutes
    && positive u.access_token_ttl_minutes
    && positive u.refresh_token_ttl_days

abbrev pub auth_applied : Option UpdateAuthConfig → AuthConfig → AuthConfig
auth_applied none a = a
auth_applied (some u) a = record a {
  max_login_attempts = or_else u.max_login_attempts a.max_login_attempts;
  lockout_duration_minutes = or_else u.lockout_duration_minutes a.lockout_duration_minutes;
  access_token_ttl_minutes = or_else u.access_token_ttl_minutes a.access_token_ttl_minutes;
  refresh_token_ttl_days = or_else u.refresh_token_ttl_days a.refresh_token_ttl_days;
}

abbrev pub routeros_applied : Option UpdateRouterOsConfig → RouterOsConfig → RouterOsConfig
routeros_applied none r = r
routeros_applied (some u) r = record r {
  tls_skip_verify = or_else u.tls_skip_verify r.tls_skip_verify;
  comment_tag = or_else u.comment_tag r.comment_tag;
  address_list_vpn = or_else u.address_list_vpn r.address_list_vpn;
  address_list_bypass = or_else u.address_list_bypass r.address_list_bypass;
  routing_table = or_else u.routing_table r.routing_table;
  auto_setup = or_else u.auto_setup r.auto_setup;
}

abbrev pub logging_applied : Option UpdateLoggingConfig → LoggingConfig → LoggingConfig
logging_applied none l = l
logging_applied (some u) l = record l {
  level = or_else u.level l.level;
  buffer_size = or_else u.buffer_size l.buffer_size;
}

unfoldable pub applied : UpdateConfigRequest → AppConfig → AppConfig
applied req config = record config {
  api = record config.api { listen = or_else req.listen config.api.listen };
  auth = auth_applied req.auth config.auth;
  routeros = routeros_applied req.routeros config.routeros;
  logging = logging_applied req.logging config.logging;
}

module _ (y : Sockets) (save : AppConfig → Bool) where
  abbrev pub listen_ok : Option Text → Bool
  listen_ok none = true
  listen_ok (some listen) = is_some (y.parse listen)

  unfoldable pub request_ok : UpdateConfigRequest → Bool
  request_ok req = logging_ok req.logging && listen_ok req.listen && auth_ok req.auth

  abbrev pub check_request : UpdateConfigRequest → M ConfigState (Unit {0})
  check_request req = if request_ok req then return tt else fail bad_request

  -- The values are in memory before they are saved.
  abbrev pub apply : UpdateConfigRequest → M ConfigState (Unit {0})
  apply req s = (ok tt, record s { config = applied req s.config })

  abbrev pub persist : M ConfigState (Unit {0})
  persist s = (if save s.config then ok tt else err internal, s)

  abbrev pub invalidate_routeros_client : M ConfigState (Unit {0})
  invalidate_routeros_client s = (ok tt, record s { client = none })

  abbrev pub invalidate_if : Bool → M ConfigState (Unit {0})
  invalidate_if true = invalidate_routeros_client
  invalidate_if false = return tt

  unfoldable pub update_config : Claims → UpdateConfigRequest → M ConfigState (Unit {0})
  update_config claims req = do
    lift (require_permission claims (codes "config.write"))
    check_request req
    apply req
    persist
    invalidate_if (is_some req.routeros)

  -- The client of the router, built on the first call; `builds` is whether that succeeds.
  module _ (builds : RouterOsConfig → Bool) where
    abbrev pub built : Option RouterOsConfig → M ConfigState RouterOsConfig
    built (some client) s = (ok client, s)
    built none s =
        if builds s.config.routeros
        then (ok s.config.routeros, record s { client = some s.config.routeros })
        else (err internal, s)

    unfoldable pub routeros_client : M ConfigState RouterOsConfig
    routeros_client s = built s.client s
