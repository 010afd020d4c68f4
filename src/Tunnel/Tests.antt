-- ===== src/Tunnel/Tests.antt =====
-- The tunnel manager over a small snxcore: a connection that comes up (tunnel.rs).
use snx_edge.Common.{◌≡◌, ◌≢◌, refl, inl, false, [], ◌∷◌, none, some, codes, text_eq, In, length}
use snx_edge.Supervisor.{connected, connecting}
use snx_edge.Tunnel.{
  Handler, TunnelManager, failed, already_running, new, connect, connect_inner, open_session,
  start_tunnel, spawn, disconnect, on_event, on_close, connected_event, handle, deliver, announce,
}
use snx_edge.Tunnel.Params.{build_tunnel_params, map_connection_info}
use snx_edge.Tunnel.TestCore.{office, tunnel_up, gateway, built}
use snx_edge.Tunnel.Connect.{Settles, connect-Settles}
use snx_edge.Tunnel.Runs.{Reach, start, later, connects, receives, disconnects}
use snx_edge.Tunnel.Safety.{Reach-one_handler, Reach-not_locked_out, spawn-announce}

abbrev fresh : TunnelManager gateway
fresh = (new gateway tt)

dialled : TunnelManager gateway
dialled = (connect gateway office (new gateway tt)).1

first : Handler
first = record { task = 0; mtu = 1350 }

up : TunnelManager gateway
up = on_event gateway first (connected_event tunnel_up) none dialled

dialled-Reach : Reach gateway dialled
unfolding dialled
dialled-Reach = later (start tt) (connects (new gateway tt) office)

first_runs : In first dialled.running
unfolding dialled first connect connect_inner new open_session start_tunnel spawn built
    build_tunnel_params text_eq
first_runs = inl refl

up-Reach : Reach gateway up
unfolding up
up-Reach = later dialled-Reach (receives dialled first (connected_event tunnel_up) none first_runs)

Reach-one_handler_example : length up.running ≡ 1
unfolding up dialled first on_event deliver handle connect connect_inner new open_session
    start_tunnel spawn built build_tunnel_params text_eq
Reach-one_handler_example = Reach-one_handler gateway up-Reach

connect-Settles_example : Settles gateway up (connect gateway office up)
connect-Settles_example = connect-Settles gateway office up

down-Reach : Reach gateway (disconnect gateway up).1
down-Reach = later up-Reach (disconnects up)

Reach-not_locked_out_example :
    ((connect gateway office (disconnect gateway up).1).0 ≢ failed already_running)
    × ((h : Handler) × In h up.running
        × ((connect gateway office (on_close gateway h up)).0 ≢ failed already_running))
Reach-not_locked_out_example = Reach-not_locked_out gateway office office up-Reach (
    unfold up dialled first on_event deliver handle connect connect_inner new open_session
      start_tunnel spawn built build_tunnel_params text_eq in
    refl)

abbrev authenticated : TunnelManager gateway
authenticated = record {
  world = tt;
  connector = some false;
  session = some false;
  status = connecting;
  last_server = some (codes "vpn.example.com");
  last_mtu = 1350;
  tasks = [];
  disconnect_initiated = false;
  running = [];
  next_task = 0;
  sent = [];
}

spawn-announce_example :
    let t =
      on_event gateway first
        (connected_event tunnel_up)
        none
        (spawn gateway false authenticated).1 in
    let last = (announce gateway t).1 in
    (t.status ≡ connected (map_connection_info tunnel_up 1350))
    × (last.status ≡ connecting)
    × (last.running ≡ first ∷ [])
    × ((connect gateway office last).0 ≡ failed already_running)
unfolding first
spawn-announce_example =
    spawn-announce gateway authenticated false office tunnel_up (unfold spawn in refl) refl
