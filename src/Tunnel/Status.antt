-- ===== src/Tunnel/Status.antt =====
-- What the tunnel manager answers of its state (tunnel.rs): the status with its counters, and the routes.
use snx_edge.Common.{ℕ, ◌-◌, ◌^◌, List, [], ◌∷◌, Option, none, some, Text, codes, trim, ◌++◌}
use snx_edge.Common.Decimals.{parse_uint}
use snx_edge.Supervisor.{ConnectionStatus, connected, connecting, disconnected, mfa, error}

pub record TunnelStatus : Type 0 where
  pub connection : ConnectionStatus
  pub uptime_seconds : Option ℕ
  pub tx_bytes : ℕ
  pub rx_bytes : ℕ

pub record VpnRoute : Type 0 where
  pub destination : Text
  pub gateway : Option Text
  pub interface : Text

abbrev or_zero : Option ℕ → ℕ
or_zero none = 0
or_zero (some n) = n

-- A counter of 64 bits; what does not parse counts as 0.
unfoldable pub parse_stat : Text → ℕ
unfolding trim parse_uint
parse_stat content = or_zero (parse_uint (2 ^ 64 - 1) (trim content))

abbrev stat_of : Option Text → ℕ
stat_of none = 0
stat_of (some content) = parse_stat content

abbrev stat_path : Text → Text → Text
stat_path iface f = codes "/sys/class/net/" ++ iface ++ codes "/statistics/" ++ f

-- `read` is `read_to_string` of the file of that path, where it succeeds.
unfoldable pub read_iface_bytes : (Text → Option Text) → Text → ℕ × ℕ
read_iface_bytes read iface = (
  stat_of (read (stat_path iface (codes "tx_bytes"))),
  stat_of (read (stat_path iface (codes "rx_bytes"))),
)

-- Whole seconds, and 0 for an instant that is still to come.
abbrev uptime : ℕ → Option ℕ → Option ℕ
uptime now none = none
uptime now (some since) = some (now - since)

abbrev idle : ConnectionStatus → TunnelStatus
idle connection = record {
  connection = connection;
  uptime_seconds = none;
  tx_bytes = 0;
  rx_bytes = 0;
}

unfoldable pub status : (Text → Option Text) → ℕ → ConnectionStatus → TunnelStatus
status read now (connected info) =
    let (tx, rx) = read_iface_bytes read info.interface_name in
    record {
      connection = connected info;
      uptime_seconds = uptime now info.since;
      tx_bytes = tx;
      rx_bytes = rx;
    }
status read now disconnected = idle disconnected
status read now connecting = idle connecting
status read now (mfa kind prompt) = idle (mfa kind prompt)
status read now (error text) = idle (error text)

unfoldable pub routes : ConnectionStatus → List VpnRoute
routes (connected info) =
    record {
      destination = codes "0.0.0.0/0";
      gateway = some info.ip_address;
      interface = info.interface_name;
    }
    ∷ []
routes disconnected = []
routes connecting = []
routes (mfa kind prompt) = []
routes (error text) = []
