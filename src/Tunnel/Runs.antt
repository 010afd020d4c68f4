-- ===== src/Tunnel/Runs.antt =====
-- The runs of the tunnel manager: its calls, and the events of its handlers, in any order. A call is
-- one step: what snxcore does meanwhile is in the state that it gives back.
pub mod Invariant
pub mod Calls
pub mod Answers
pub mod Events
use snx_edge.Common.{ℕ, ◌≡◌, Option, none, some, Text, In}
use snx_edge.Supervisor.{ConnectionStatus}
use snx_edge.Tunnel.{
  Core, Handler, TunnelManager, TunnelEvent, new, connect, disconnect, reconnect, challenge_code,
  on_event, on_close,
}
use snx_edge.Tunnel.Params.{VpnConfig}

module _ (c : Core) where
  pub data Step : TunnelManager c → TunnelManager c → Type 0 where
    connects : (s : TunnelManager c) (vpn : VpnConfig) → Step s (connect c vpn s).1
    disconnects : (s : TunnelManager c) → Step s (disconnect c s).1
    reconnects : (s : TunnelManager c) (vpn : VpnConfig) → Step s (reconnect c vpn s).1
    answers : (s : TunnelManager c) (code : Text) → Step s (challenge_code c code s).1
    receives :
        (s : TunnelManager c) (h : Handler) (event : TunnelEvent) (answer : Option Text)
        → In h s.running
        → Step s (on_event c h event answer s)
    closes : (s : TunnelManager c) (h : Handler) → In h s.running → Step s (on_close c h s)
    -- Snxcore and the network move on.
    elapses : (s : TunnelManager c) (w : c.World) → Step s (record s { world = w })

  pub data Reach : TunnelManager c → Type 0 where
    start : (w : c.World) → Reach (new c w)
    later : {s t : TunnelManager c} → Reach s → Step s t → Reach t
