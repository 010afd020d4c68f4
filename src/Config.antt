-- ===== src/Config.antt =====
-- The configuration of the server (apps/snx-edge-server/src/config.rs): its sections, and the checks that
-- it passes when it is loaded. The TOML library and the parser of socket addresses are parameters.
pub mod Update
pub mod Limits
mod Tests
use snx_edge.Common.{
  ℕ, Bool, true, false, not, ◌&&◌, ◌||◌, List, [], ◌∷◌, Option, none, some, Text, if◌then◌else◌,
}
use snx_edge.Errors.{Result, ok, err, bad_request, internal, ok_or}
use snx_edge.Profiles.Secrets.{and_then, is_some}

pub record ApiConfig : Type 0 where
  pub listen : Text
  pub tls_cert : Option Text
  pub tls_key : Option Text
  pub tls_client_ca_optional : Option Text
  pub require_client_cert : Option Text
  pub cors_origins : List Text

pub record SecurityConfig : Type 0 where
  pub allow_no_cert_check : Bool
  pub allow_plaintext_profiles : Bool
  pub allow_plaintext_api : Bool
  pub trusted_proxies : List Text
  pub login_rps : ℕ
  pub login_burst : ℕ
  pub enforce_token_generation : Bool
  pub profile_encryption_key_env : Text

pub record AuthConfig : Type 0 where
  pub jwt_secret_env : Text
  pub user_db : Text
  pub max_login_attempts : ℕ
  pub lockout_duration_minutes : ℕ
  pub access_token_ttl_minutes : ℕ
  pub refresh_token_ttl_days : ℕ

pub record RouterOsConfig : Type 0 where
  pub host_env : Text
  pub user_env : Text
  pub password_env : Text
  pub tls_skip_verify : Bool
  pub comment_tag : Text
  pub address_list_vpn : Text
  pub address_list_bypass : Text
  pub address_list_corp : Text
  pub routing_table : Text
  pub connection_mark : Text
  pub routing_mark : Text
  pub auto_setup : Bool

pub record LoggingConfig : Type 0 where
  pub level : Text
  pub buffer_size : ℕ
  pub file : Option Text
  pub max_file_size : Text
  pub max_files : ℕ

pub record AppConfig : Type 0 where
  pub api : ApiConfig
  pub auth : AuthConfig
  pub routeros : RouterOsConfig
  pub logging : LoggingConfig
  pub security : SecurityConfig
  pub teardown_routeros : Bool

-- `parse` of a socket address, and `is_loopback` of its address.
pub record Sockets : Type 1 where
  pub SocketAddr : Type 0
  pub parse : Text → Option SocketAddr
  pub is_loopback : SocketAddr → Bool

abbrev pub check_pair : Option Text → Option Text → Result (Unit {0})
check_pair (some cert) none = err bad_request
check_pair none (some key) = err bad_request
check_pair (some cert) (some key) = ok tt
check_pair none none = ok tt

abbrev pub tls_enabled : ApiConfig → Bool
tls_enabled api = is_some api.tls_cert && is_some api.tls_key

-- Client certificates without TLS.
abbrev pub check_client_certs : ApiConfig → Result (Unit {0})
check_client_certs api =
    if not (tls_enabled api)
      && (is_some api.require_client_cert || is_some api.tls_client_ca_optional)
    then err bad_request
    else ok tt

module _ (y : Sockets) where
  -- An address that does not parse counts as exposed.
  abbrev pub exposed_at : Option y.SocketAddr → Bool
  exposed_at none = true
  exposed_at (some addr) = not (y.is_loopback addr)

  abbrev pub exposed : AppConfig → Bool
  exposed config =
      not (tls_enabled config.api)
      && not config.security.allow_plaintext_api
      && exposed_at (y.parse config.api.listen)

  abbrev pub check_exposure : AppConfig → Result (Unit {0})
  check_exposure config = if exposed config then err bad_request else ok tt

  -- Every failure ends the start of the server.
  unfoldable pub validate : AppConfig → Result (Unit {0})
  validate config =
      and_then (check_pair config.api.tls_cert config.api.tls_key)
        (λ _. and_then (check_client_certs config.api) (λ _. check_exposure config))

  abbrev pub validated : AppConfig → Result AppConfig
  validated config = and_then (validate config) (λ _. ok config)

  -- `content` is the file, where it can be read; `from_str` is the TOML library.
  unfoldable pub load : (Text → Option AppConfig) → Option Text → Result AppConfig
  load from_str content =
      and_then (ok_or internal content)
        (λ text. and_then (ok_or internal (from_str text)) (λ config. validated config))
