-- ===== src/Supervisor/Boot.antt =====
-- The supervisor from its start to the end of the process (`run` of
-- apps/snx-edge-server/src/supervisor.rs). The tunnel, the shutdown and the other handlers act between the
-- messages that it receives.
use snx_edge.Common.{
  ◌≡◌, ◌⊎◌, Bool, true, false, ◌&&◌, List, [], ◌∷◌, Option, none, some, Text, codes, if◌then◌else◌,
}
use snx_edge.Errors.{Result, ok, err}
use snx_edge.Users.Store.{Db}
use snx_edge.RouterOs.Device.{Device}
use snx_edge.RouterOs.Provisioner.{RouterOsConfig}
use snx_edge.RouterOs.Setup.{setup}
use snx_edge.Net.{Host}
use snx_edge.Supervisor.{
  System, Supervised, ConnectionInfo, connected, desired_profile, initiate_with_backoff,
  on_connection_status,
}
use snx_edge.Users.Rows.{lookup_state}
use snx_edge.Supervisor.Redial.{Down, Redials, delays}
use snx_edge.Reconciler.Apply.{detect_container_ip}

module _ (h : Host) (is_ip is_ipv4 : Text → Bool) (d : Device) (client_tag : Text)
    (config : RouterOsConfig) where
  -- The report is dropped, and so is an error.
  abbrev pub setup_with : Result Text → d.State → d.State
  setup_with (ok ip) r = (setup d client_tag config ip r).1
  setup_with (err e) r = r

  -- `client_ready` says whether `routeros_client` gives a client.
  unfoldable pub auto_setup_at_boot : Bool → Bool → h.State × d.State → h.State × d.State
  auto_setup_at_boot auto_setup client_ready (s, r) =
      let (ip, t) = detect_container_ip h is_ip is_ipv4 s in
      if auto_setup && client_ready then (t, setup_with ip r) else (s, r)

-- The operator wants a profile to be kept connected.
abbrev pub Wanted : Db → Text → Type 0
Wanted db p =
    (lookup_state (codes "auto_connect") db.app_state ≡ some (codes "true"))
    × (lookup_state (codes "desired_profile_id") db.app_state ≡ some p)

module _ (y : System) where
  abbrev pub connect_desired : Option Text → Supervised y → Supervised y
  connect_desired none s = s
  connect_desired (some p) s = (initiate_with_backoff y p s).after

  unfoldable pub connect_at_boot : Db → Supervised y → Supervised y
  connect_at_boot db s = connect_desired (desired_profile y db) s

  pub data Message : Type 0 where
    connection_status other_event lagged closed shutdown : Message

  -- A message, with what has become of the tunnel since the last one, whether a connect has cleared the
  -- latch in between, and the store at its receipt.
  pub record Delivery : Type 0 where
    pub message : Message
    pub change : y.World → y.World
    pub rearmed : Bool
    pub db : Db

  abbrev pub outside : Delivery → Supervised y → Supervised y
  outside m s = record s {
    world = m.change s.world;
    reconnect_suspended = if m.rearmed then false else s.reconnect_suspended;
  }

  abbrev pub answered : Message → Db → Supervised y → Supervised y
  answered connection_status db s = on_connection_status y db s
  answered other_event db s = s
  answered lagged db s = s
  answered closed db s = s
  answered shutdown db s = s

  abbrev pub is_last : Message → Bool
  is_last closed = true
  is_last shutdown = true
  is_last connection_status = false
  is_last other_event = false
  is_last lagged = false

  unfoldable pub steady : List Delivery → Supervised y → Supervised y
  steady [] s = s
  steady (m ∷ ms) s =
      let t = answered m.message m.db (outside m s) in
      let rest = steady ms t in if is_last m.message then t else rest

  -- The start, without the setup of the router, and then the loop.
  unfoldable pub run : Db → List Delivery → Supervised y → Supervised y
  run db ms s = steady ms (connect_at_boot db s)

  -- The start: a profile that is wanted is dialled.
  pub data Starts (db : Db) (s : Supervised y) : Supervised y → Type 0 where
    starts_idle : ((p : Text) → Wanted db p → ⊥) → Starts db s s
    starts_dialling :
        {t : Supervised y} (p : Text) → Wanted db p → Redials y p (delays y) s t → Starts db s t

  -- The answer to a new status of the tunnel.
  pub data Answers (db : Db) (s : Supervised y) : Supervised y → Type 0 where
    -- The tunnel is up: the latch is off.
    sees_connected :
        (info : ConnectionInfo)
        → y.status s.world ≡ connected info
        → Answers db s (record s { reconnect_suspended = false })
    -- Something is under way.
    waits :
        (Down (y.status s.world) → ⊥)
        → ((info : ConnectionInfo) → y.status s.world ≡ connected info → ⊥)
        → Answers db s s
    -- The tunnel is down, and nobody wants it or the latch is set.
    stays_down :
        Down (y.status s.world)
        → ((p : Text) → Wanted db p → ⊥) ⊎ (s.reconnect_suspended ≡ true)
        → Answers db s s
    redials :
        {t : Supervised y} (p : Text)
        → Down (y.status s.world)
        → Wanted db p
        → s.reconnect_suspended ≡ false
        → Redials y p (delays y) s t
        → Answers db s t

  -- The loop over the messages.
  pub data Follows : List Delivery → Supervised y → Supervised y → Type 0 where
    no_more : {s : Supervised y} → Follows [] s s
    stops :
        {m : Delivery} {ms : List Delivery} {s : Supervised y}
        → (m.message ≡ Message.closed) ⊎ (m.message ≡ Message.shutdown)
        → Follows (m ∷ ms) s (outside m s)
    passes_over :
        {m : Delivery} {ms : List Delivery} {s t : Supervised y}
        → (m.message ≡ Message.other_event) ⊎ (m.message ≡ Message.lagged)
        → Follows ms (outside m s) t
        → Follows (m ∷ ms) s t
    hears :
        {m : Delivery} {ms : List Delivery} {s t u : Supervised y}
        → m.message ≡ Message.connection_status
        → Answers m.db (outside m s) t
        → Follows ms t u
        → Follows (m ∷ ms) s u
