-- ===== src/Tunnel/TestCore.antt =====
-- A small snxcore, and the settings of one connection (tunnel.rs).
use snx_edge.Common.{Bool, true, false, [], Option, none, some, Text, codes, text_eq, if◌then◌else◌}
use snx_edge.Tunnel.{Core, replied, refused}
use snx_edge.Tunnel.Params.{
  VpnConfig, TunnelParams, CoreInfo, ipsec, udp, build_tunnel_params, default_mtu,
}

abbrev pub office : VpnConfig
office = record {
  server = codes "vpn.example.com";
  login_type = codes "password";
  username = codes "alice";
  password = some (codes "hunter2");
  cert_type = codes "pkcs12";
  cert_path = none;
  cert_password = none;
  no_dns = false;
  dns_servers = [];
  ignored_dns_servers = [];
  search_domains = [];
  ignored_search_domains = [];
  search_domains_as_routes = false;
  no_routing = false;
  default_route = false;
  add_routes = [];
  ignored_routes = [];
  no_ipv6 = false;
  ca_cert = [];
  no_cert_check = false;
  password_factor = 1;
  ike_lifetime = 28800;
  ike_persist = false;
  no_keepalive = false;
  port_knock = false;
  ip_lease_duration = none;
  mtu = default_mtu;
  transport_type = codes "auto";
  no_keychain = true;
}

abbrev pub tunnel_up : CoreInfo
tunnel_up = record {
  since = some 1000;
  server_name = codes "vpn.example.com";
  username = codes "alice";
  login_type = codes "password";
  tunnel_type = ipsec;
  transport_type = udp;
  ip_address = codes "10.9.0.2";
  dns_servers = [];
  search_domains = [];
  interface_name = codes "tun0";
}

-- A session is whether a challenge is pending; the user `mfa` gets one.
abbrev challenge_of : Bool → Option (Text × Text)
challenge_of true = some (codes "PasswordInput", codes "code")
challenge_of false = none

abbrev pub any_text : Text → Bool
any_text s = true

unfoldable pub built : VpnConfig → TunnelParams
unfolding build_tunnel_params
built vpn = build_tunnel_params any_text any_text (codes "info") vpn

abbrev pub gateway : Core
gateway = record {
  World = Unit {0};
  Connector = Bool;
  Session = Bool;
  pending = challenge_of;
  build_tunnel_params = built;
  create = λ params w. (
    if text_eq params.server_name []
        then refused (codes "no server")
        else replied (text_eq params.user_name (codes "mfa")),
    w,
  );
  restore_session = λ k w. (refused (codes "no session"), w);
  authenticate = λ k w. (replied k, w);
  challenge_code = λ k x code w.
      (if text_eq code (codes "123456") then replied false else refused (codes "wrong code"), w);
  create_tunnel = λ k x w. (replied tt, w);
  delete_session = λ k w. w;
  terminate_tunnel = λ k w. w;
}
