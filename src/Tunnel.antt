-- ===== src/Tunnel.antt =====
-- The tunnel manager (TunnelManager of apps/snx-edge-server/src/tunnel.rs): its state, its calls, and
-- what the task that handles the events of a tunnel does with one event.
pub mod Params
pub mod Status
pub mod Runs
pub mod Connect
pub mod Safety
pub mod TestCore
mod Tests
use snx_edge.Common.{
  ℕ, ◌+◌, ◌==◌, Bool, true, false, not, List, [], ◌∷◌, ◌++◌, Option, none, some, Text, codes, any,
  keep, if◌then◌else◌,
}
use snx_edge.Supervisor.{
  ConnectionStatus, ConnectionInfo, connected, connecting, disconnected, mfa, error,
}
use snx_edge.Tunnel.Params.{VpnConfig, TunnelParams, CoreInfo, map_connection_info, default_mtu}

-- The errors of the manager; those of snxcore with their texts.
pub data TunnelError : Type 0 where
  already_running not_connected no_connector no_session no_challenge : TunnelError
  core : Text → TunnelError

abbrev pub message : TunnelError → Text
message already_running = codes "already connected or connecting"
message not_connected = codes "not connected"
message no_connector = codes "no connector"
message no_session = codes "no active session"
message no_challenge = codes "no pending MFA challenge"
message (core text) = text

pub data Outcome (A : Type 0) : Type 0 where
  done : A → Outcome A
  failed : TunnelError → Outcome A

-- How snxcore answers: an error has a text.
pub data Reply (A : Type 0) : Type 0 where
  replied : A → Reply A
  refused : Text → Reply A

abbrev pub outcome : {A : Type 0} → Reply A → Outcome A
outcome (replied a) = done a
outcome (refused text) = failed (core text)

-- What snxcore does: the connector and the session that it gives out are handles to it.
pub record Core : Type 1 where
  pub World : Type 0
  pub Connector : Type 0
  pub Session : Type 0
  -- `SessionState::PendingChallenge`, with the kind of the challenge and its prompt.
  pub pending : Session → Option (Text × Text)
  pub build_tunnel_params : VpnConfig → TunnelParams
  pub create : TunnelParams → World → Reply Connector × World
  pub restore_session : Connector → World → Reply Session × World
  pub authenticate : Connector → World → Reply Session × World
  pub challenge_code : Connector → Session → Text → World → Reply Session × World
  pub create_tunnel : Connector → Session → World → Reply (Unit {0}) × World
  pub delete_session : Connector → World → World
  pub terminate_tunnel : Connector → World → World

pub data TunnelEvent : Type 0 where
  connected_event : CoreInfo → TunnelEvent
  disconnected_event : TunnelEvent
  rekeyed : Text → TunnelEvent
  rekey_check remote_control_data : TunnelEvent

-- A task that handles the events of one tunnel, with the MTU that it was given.
pub record Handler : Type 0 where
  pub task : ℕ
  pub mtu : ℕ

abbrev pub label : ConnectionStatus → Text
label disconnected = codes "disconnected"
label connecting = codes "connecting"
label (connected info) = codes "connected"
label (mfa kind prompt) = codes "mfa"
label (error text) = codes "error"

abbrev pub is_running : ConnectionStatus → Bool
is_running connecting = true
is_running (connected info) = true
is_running disconnected = false
is_running (mfa kind prompt) = false
is_running (error text) = false

abbrev pub is_disconnected : ConnectionStatus → Bool
is_disconnected disconnected = true
is_disconnected connecting = false
is_disconnected (connected info) = false
is_disconnected (mfa kind prompt) = false
is_disconnected (error text) = false

unfoldable pub terminal_status_on_channel_close : Bool → Option ConnectionStatus
terminal_status_on_channel_close true = none
terminal_status_on_channel_close false = some (error (codes "tunnel ended unexpectedly"))

module _ (c : Core) where
  -- `running` are the handlers that have not ended, `tasks` those that `disconnect` can abort, and
  -- `sent` the labels that were broadcast. Tasks are numbered by `next_task`.
  pub record TunnelManager : Type 0 where
    pub world : c.World
    pub connector : Option c.Connector
    pub session : Option c.Session
    pub status : ConnectionStatus
    pub last_server : Option Text
    pub last_mtu : ℕ
    pub tasks : List ℕ
    pub disconnect_initiated : Bool
    pub running : List Handler
    pub next_task : ℕ
    pub sent : List Text

  abbrev pub T : Type 0 → Type 0
  T A = TunnelManager → Outcome A × TunnelManager

  abbrev pub then_run : {A B : Type 0} → Outcome A → (A → T B) → T B
  then_run (done a) f s = f a s
  then_run (failed e) f s = (failed e, s)

  infixl 5 ◌>>=◌ ◌>>◌
  abbrev pub ◌>>=◌ : {A B : Type 0} → T A → (A → T B) → T B
  ◌>>=◌ m f s = then_run (m s).0 f (m s).1

  abbrev pub ◌>>◌ : {B : Type 0} → T (Unit {0}) → T B → T B
  m >> k = m >>= λ _. k

  -- A call of snxcore.
  abbrev pub ask : {A : Type 0} → (c.World → Reply A × c.World) → T A
  ask f s = let (r, w) = f s.world in (outcome r, record s { world = w })

  abbrev pub needed : {A : Type 0} → TunnelError → Option A → T A
  needed e none s = (failed e, s)
  needed e (some a) s = (done a, s)

  unfoldable pub new : c.World → TunnelManager
  new w = record {
    world = w;
    connector = none;
    session = none;
    status = disconnected;
    last_server = none;
    last_mtu = default_mtu;
    tasks = [];
    disconnect_initiated = false;
    running = [];
    next_task = 0;
    sent = [];
  }

  abbrev pub set_status : ConnectionStatus → TunnelManager → TunnelManager
  set_status status s = record s { status = status; sent = s.sent ++ label status ∷ [] }

  abbrev pub remembered : Text → Option Text → Option Text
  remembered [] old = old
  remembered (a ∷ server) old = some (a ∷ server)

  -- Both tasks of a tunnel start here; the one that runs the tunnel writes nothing of the manager.
  abbrev pub track : T (Unit {0})
  track s = (
    done tt,
    record s {
      running = record { task = s.next_task; mtu = s.last_mtu } ∷ s.running;
      tasks = s.tasks ++ s.next_task ∷ [];
      next_task = s.next_task + 1;
    },
  )

  abbrev pub spawn_on : c.Session → c.Connector → T (Unit {0})
  spawn_on session connector = do ask (c.create_tunnel connector session); track

  unfoldable pub spawn : c.Session → T (Unit {0})
  spawn session s = (needed no_connector s.connector >>= spawn_on session) s

  abbrev pub announce : T ConnectionStatus
  announce s = (done connecting, set_status connecting s)

  unfoldable pub start_tunnel : c.Session → T ConnectionStatus
  start_tunnel session = do spawn session; announce

  -- What `connect_inner` and `challenge_code` do with a session: a challenge, or the tunnel.
  abbrev pub challenged : c.Session → Option (Text × Text) → T ConnectionStatus
  challenged session none s = start_tunnel session s
  challenged session (some (kind, prompt)) s =
      (done (mfa kind prompt), set_status (mfa kind prompt) s)

  abbrev pub restored : c.Connector → Reply c.Session → T c.Session
  restored connector (replied session) s = (done session, s)
  restored connector (refused text) s = ask (c.authenticate connector) s

  unfoldable pub open_session : TunnelParams → c.Connector → T c.Session
  open_session params connector =
      if params.ike_persist
      then (λ s.
          let (r, w) = c.restore_session connector s.world in
          restored connector r (record s { world = w }))
      else ask (c.authenticate connector)

  abbrev pub adopt : c.Session → Option c.Connector → T (Unit {0})
  adopt session none s = (done tt, record s { session = some session })
  adopt session (some connector) s =
      (done tt, record s { session = some session; connector = some connector })

  abbrev pub remember : VpnConfig → T (Unit {0})
  remember vpn s =
      (done tt, record s { last_server = remembered vpn.server s.last_server; last_mtu = vpn.mtu })

  unfoldable pub connect_inner : VpnConfig → T ConnectionStatus
  connect_inner vpn = do
    remember vpn
    let params = c.build_tunnel_params vpn
    connector ← ask (c.create params)
    session ← open_session params connector
    adopt session (some connector)
    challenged session (c.pending session)

  abbrev pub settle :
      Outcome ConnectionStatus × TunnelManager → Outcome ConnectionStatus × TunnelManager
  settle (done status, s) = (done status, s)
  settle (failed e, s) = (failed e, set_status (error (message e)) s)

  unfoldable pub connect : VpnConfig → T ConnectionStatus
  connect vpn s =
      if is_running s.status
      then (failed already_running, s)
      else settle
          (connect_inner vpn (record s { status = connecting; disconnect_initiated = false }))

  abbrev pub closed : Option c.Connector → c.World → c.World
  closed none w = w
  closed (some connector) w = c.terminate_tunnel connector (c.delete_session connector w)

  abbrev pub is_task : List ℕ → Handler → Bool
  is_task tasks h = any (λ t. t == h.task) tasks

  -- An aborted handler does nothing more.
  unfoldable pub disconnect : T (Unit {0})
  disconnect s = if is_disconnected s.status then (failed not_connected, s) else (
    done tt,
    set_status disconnected (record s {
      disconnect_initiated = true;
      world = closed s.connector s.world;
      connector = none;
      session = none;
      running = keep (λ h. not (is_task s.tasks h)) s.running;
      tasks = [];
    }),
  )

  unfoldable pub reconnect : VpnConfig → T ConnectionStatus
  reconnect vpn s = connect vpn (disconnect s).1

  abbrev pub submit_on : Text → c.Session → c.Connector → T ConnectionStatus
  submit_on code session connector = do
    next ← ask (c.challenge_code connector session code)
    adopt next none
    challenged next (c.pending next)

  abbrev pub submit : Text → c.Session → T ConnectionStatus
  submit code session s = (needed no_connector s.connector >>= submit_on code session) s

  abbrev pub answered : Text → c.Session → Option (Text × Text) → T ConnectionStatus
  answered code session none s = (failed no_challenge, s)
  answered code session (some challenge) s = submit code session s

  unfoldable pub challenge_code : Text → T ConnectionStatus
  challenge_code code s =
      (needed no_session s.session >>= λ session. answered code session (c.pending session)) s

  abbrev pub ended : Handler → TunnelManager → TunnelManager
  ended h s = record s { running = keep (λ g. not (g.task == h.task)) s.running }

  abbrev pub rekeyed_status : Text → ConnectionStatus → ConnectionStatus
  rekeyed_status addr (connected info) = connected (record info { ip_address = addr })
  rekeyed_status addr disconnected = disconnected
  rekeyed_status addr connecting = connecting
  rekeyed_status addr (mfa kind prompt) = mfa kind prompt
  rekeyed_status addr (error text) = error text

  abbrev pub forgotten : TunnelManager → TunnelManager
  forgotten s = record s { connector = none; session = none }

  unfoldable pub handle : Handler → TunnelEvent → TunnelManager → TunnelManager
  unfolding map_connection_info
  handle h (connected_event info) s = set_status (connected (map_connection_info info h.mtu)) s
  handle h disconnected_event s = ended h (set_status disconnected (forgotten s))
  handle h (rekeyed addr) s = record s { status = rekeyed_status addr s.status }
  handle h rekey_check s = s
  handle h remote_control_data s = s

  -- `handle_tunnel_event` is asked only where there is a connector; `some text` is its error.
  unfoldable pub deliver :
      Handler → TunnelEvent → Option Text → Option c.Connector → TunnelManager → TunnelManager
  deliver h event answer none s = handle h event s
  deliver h event none (some connector) s = handle h event s
  deliver h event (some text) (some connector) s = ended h (set_status (error text) s)

  -- One event from the channel of `h`.
  unfoldable pub on_event : Handler → TunnelEvent → Option Text → TunnelManager → TunnelManager
  on_event h event answer s =
      if s.disconnect_initiated then ended h s else deliver h event answer s.connector s

  abbrev pub closed_with : Handler → Option ConnectionStatus → TunnelManager → TunnelManager
  closed_with h none s = ended h s
  closed_with h (some status) s = ended h (set_status status (forgotten s))

  -- The channel of `h` has closed.
  unfoldable pub on_close : Handler → TunnelManager → TunnelManager
  unfolding terminal_status_on_channel_close
  on_close h s = closed_with h (terminal_status_on_channel_close s.disconnect_initiated) s

  abbrev pub server_of : ConnectionStatus → Option Text → Option Text
  server_of (connected info) last = some info.server_name
  server_of disconnected last = last
  server_of connecting last = last
  server_of (mfa kind prompt) last = last
  server_of (error text) last = last

  unfoldable pub current_server : TunnelManager → Option Text
  current_server s = server_of s.status s.last_server
