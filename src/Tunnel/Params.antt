-- ===== src/Tunnel/Params.antt =====
-- The settings of a connection (VpnConfig of apps/snx-edge-types/src/profiles.rs) and what the server
-- hands to snxcore for them, and reports of it (apps/snx-edge-server/src/tunnel.rs). Paths, secrets and
-- addresses are texts.
use snx_edge.Common.{ℕ, Bool, not, List, Option, Text, codes, text_eq, keep, if◌then◌else◌}
use snx_edge.Supervisor.{ConnectionInfo}

pub record VpnConfig : Type 0 where
  pub server : Text
  pub login_type : Text
  pub username : Text
  pub password : Option Text
  pub cert_type : Text
  pub cert_path : Option Text
  pub cert_password : Option Text
  pub no_dns : Bool
  pub dns_servers : List Text
  pub ignored_dns_servers : List Text
  pub search_domains : List Text
  pub ignored_search_domains : List Text
  pub search_domains_as_routes : Bool
  pub no_routing : Bool
  pub default_route : Bool
  pub add_routes : List Text
  pub ignored_routes : List Text
  pub no_ipv6 : Bool
  pub ca_cert : List Text
  pub no_cert_check : Bool
  pub password_factor : ℕ
  pub ike_lifetime : ℕ
  pub ike_persist : Bool
  pub no_keepalive : Bool
  pub port_knock : Bool
  pub ip_lease_duration : Option ℕ
  pub mtu : ℕ
  pub transport_type : Text
  pub no_keychain : Bool

abbrev pub default_mtu : ℕ
default_mtu = 1350

pub data TunnelType : Type 0 where
  ipsec ssl : TunnelType

pub data TransportType : Type 0 where
  auto_detect kernel udp tcpt : TransportType

pub data CertType : Type 0 where
  pkcs12 pkcs8 pkcs11 no_cert : CertType

unfoldable pub tunnel_type_str : TunnelType → Text
tunnel_type_str ipsec = codes "ipsec"
tunnel_type_str ssl = codes "ssl"

unfoldable pub transport_type_str : TransportType → Text
transport_type_str auto_detect = codes "auto"
transport_type_str kernel = codes "kernel"
transport_type_str udp = codes "udp"
transport_type_str tcpt = codes "tcpt"

-- The fields of snxcore's TunnelParams that the server sets; it leaves the others at their defaults.
pub record TunnelParams : Type 0 where
  pub server_name : Text
  pub user_name : Text
  pub password : Option Text
  pub login_type : Text
  pub password_factor : ℕ
  pub transport_type : TransportType
  pub tunnel_type : TunnelType
  pub cert_type : CertType
  pub cert_path : Option Text
  pub cert_password : Option Text
  pub no_dns : Bool
  pub dns_servers : List Text
  pub ignore_dns_servers : List Text
  pub search_domains : List Text
  pub ignore_search_domains : List Text
  pub set_routing_domains : Bool
  pub no_routing : Bool
  pub default_route : Bool
  pub add_routes : List Text
  pub ignore_routes : List Text
  pub disable_ipv6 : Bool
  pub ca_cert : List Text
  pub ignore_server_cert : Bool
  pub ip_lease_time : Option ℕ
  pub ike_lifetime : ℕ
  pub ike_persist : Bool
  pub no_keepalive : Bool
  pub port_knock : Bool
  pub mtu : ℕ
  pub keychain : Bool
  pub log_level : Text

abbrev transport_of : Text → TransportType
transport_of s =
    if text_eq s (codes "udp") then udp else if text_eq s (codes "tcpt") then tcpt else auto_detect

abbrev cert_of : Text → CertType
cert_of s =
    if text_eq s (codes "pkcs12")
    then pkcs12
    else if text_eq s (codes "pkcs8")
    then pkcs8
    else if text_eq s (codes "pkcs11")
    then pkcs11
    else no_cert

-- What snxcore's parsers of addresses and networks take, and the level in the environment.
module _ (is_addr : Text → Bool) (is_net : Text → Bool) (log_level : Text) where
  unfoldable pub build_tunnel_params : VpnConfig → TunnelParams
  build_tunnel_params vpn = record {
    server_name = vpn.server;
    user_name = vpn.username;
    password = vpn.password;
    login_type = vpn.login_type;
    password_factor = vpn.password_factor;
    transport_type = transport_of vpn.transport_type;
    tunnel_type = ipsec;
    cert_type = cert_of vpn.cert_type;
    cert_path = vpn.cert_path;
    cert_password = vpn.cert_password;
    no_dns = vpn.no_dns;
    dns_servers = keep is_addr vpn.dns_servers;
    ignore_dns_servers = keep is_addr vpn.ignored_dns_servers;
    search_domains = vpn.search_domains;
    ignore_search_domains = vpn.ignored_search_domains;
    set_routing_domains = vpn.search_domains_as_routes;
    no_routing = vpn.no_routing;
    default_route = vpn.default_route;
    add_routes = keep is_net vpn.add_routes;
    ignore_routes = keep is_net vpn.ignored_routes;
    disable_ipv6 = vpn.no_ipv6;
    ca_cert = vpn.ca_cert;
    ignore_server_cert = vpn.no_cert_check;
    ip_lease_time = vpn.ip_lease_duration;
    ike_lifetime = vpn.ike_lifetime;
    ike_persist = vpn.ike_persist;
    no_keepalive = vpn.no_keepalive;
    port_knock = vpn.port_knock;
    mtu = vpn.mtu;
    keychain = not vpn.no_keychain;
    log_level = log_level;
  }

-- The fields of snxcore's ConnectionInfo, with addresses as their texts.
pub record CoreInfo : Type 0 where
  pub since : Option ℕ
  pub server_name : Text
  pub username : Text
  pub login_type : Text
  pub tunnel_type : TunnelType
  pub transport_type : TransportType
  pub ip_address : Text
  pub dns_servers : List Text
  pub search_domains : List Text
  pub interface_name : Text

unfoldable pub map_connection_info : CoreInfo → ℕ → ConnectionInfo
map_connection_info info mtu = record {
  since = info.since;
  server_name = info.server_name;
  username = info.username;
  login_type = info.login_type;
  tunnel_type = tunnel_type_str info.tunnel_type;
  transport_type = transport_type_str info.transport_type;
  ip_address = info.ip_address;
  dns_servers = info.dns_servers;
  search_domains = info.search_domains;
  interface_name = info.interface_name;
  mtu = mtu;
}
