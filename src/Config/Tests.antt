-- ===== src/Config/Tests.antt =====
-- A server on the loopback address whose administrator moves it to every address (api/config.rs).
use snx_edge.Common.{
  ◌≡◌, refl, Bool, true, false, [], none, some, Text, codes, text_eq, strip_prefix, starts_with,
  arith,
}
use snx_edge.Errors.{bad_request, ok, err}
use snx_edge.Auth.Permissions.{Claims, require_permission, has_permission, permissions_for_role}
use snx_edge.Config.{AppConfig, Sockets, validate}
use snx_edge.Config.Update.{UpdateConfigRequest, ConfigState, request_ok, applied, update_config}
use snx_edge.Config.Limits.{Limited, update_config-Limited, update_config-exposes}

-- Addresses are told by their text.
abbrev sockets : Sockets
sockets = record {
  SocketAddr = Text;
  parse = λ t. some t;
  is_loopback = λ t. text_eq t (codes "127.0.0.1:8080");
}

abbrev config : AppConfig
config = record {
  api = record {
    listen = codes "127.0.0.1:8080";
    tls_cert = none;
    tls_key = none;
    tls_client_ca_optional = none;
    require_client_cert = none;
    cors_origins = [];
  };
  auth = record {
    jwt_secret_env = codes "JWT";
    user_db = codes "users.db";
    max_login_attempts = 5;
    lockout_duration_minutes = 15;
    access_token_ttl_minutes = 15;
    refresh_token_ttl_days = 7;
  };
  routeros = record {
    host_env = codes "H";
    user_env = codes "U";
    password_env = codes "P";
    tls_skip_verify = false;
    comment_tag = codes "managed-by=snx-edge";
    address_list_vpn = codes "vpn-clients";
    address_list_bypass = codes "vpn-bypass";
    address_list_corp = codes "vpn-corp";
    routing_table = codes "vpn";
    connection_mark = codes "vpn-conn";
    routing_mark = codes "vpn-route";
    auto_setup = false;
  };
  logging = record {
    level = codes "info";
    buffer_size = 1000;
    file = none;
    max_file_size = codes "10MB";
    max_files = 5;
  };
  security = record {
    allow_no_cert_check = false;
    allow_plaintext_profiles = false;
    allow_plaintext_api = false;
    trusted_proxies = [];
    login_rps = 1;
    login_burst = 10;
    enforce_token_generation = true;
    profile_encryption_key_env = codes "K";
  };
  teardown_routeros = false;
}

abbrev running : ConfigState
running = record { config = config; client = some config.routeros }

abbrev everywhere : UpdateConfigRequest
everywhere = record {
  listen = some (codes "0.0.0.0:8080");
  auth = none;
  routeros = none;
  logging = none;
}

abbrev saves : AppConfig → Bool
saves c = true

abbrev admin : Claims
admin = record {
  sub = codes "u1";
  role = codes "admin";
  permissions = permissions_for_role (codes "admin");
  exp = 900;
  iat = 0;
  jti = codes "j";
  token_type = codes "access";
  token_generation = 0;
}

may_write : require_permission admin (codes "config.write") ≡ ok tt
unfolding require_permission has_permission permissions_for_role strip_prefix starts_with
may_write = refl

update_config-Limited_example :
    Limited (update_config sockets saves admin everywhere running).1.config
update_config-Limited_example =
    update_config-Limited sockets saves admin everywhere running
      (omega arith, omega arith, omega arith, omega arith, omega arith)

update_config-exposes_example :
    ((update_config sockets saves admin everywhere running).0 ≡ ok tt)
    × (validate sockets (update_config sockets saves admin everywhere running).1.config
        ≡ err bad_request)
update_config-exposes_example =
    update_config-exposes sockets saves admin everywhere running may_write
      (unfold request_ok in refl) refl refl refl (unfold applied text_eq in refl)
