-- ===== src/Supervisor.antt =====
-- The supervisor of the tunnel (apps/snx-edge-server/src/supervisor.rs) and the states of a connection
-- (apps/snx-edge-types/src/tunnel.rs).
pub mod Backoff
pub mod Redial
pub mod Boot
mod Tests
use snx_edge.Common.{
  ℕ, zero, suc, ◌+◌, ◌*◌, ◌^◌, Bool, true, false, not, ◌&&◌, List, [], ◌∷◌, Option, none, some,
  Text, codes, text_eq, leb, if◌then◌else◌,
}
use snx_edge.Errors.{Result, ok, err}
use snx_edge.Users.Store.{Db}
use snx_edge.Users.Rows.{get_app_state}

-- `since` is in seconds.
pub record ConnectionInfo : Type 0 where
  pub since : Option ℕ
  pub server_name : Text
  pub username : Text
  pub login_type : Text
  pub tunnel_type : Text
  pub transport_type : Text
  pub ip_address : Text
  pub dns_servers : List Text
  pub search_domains : List Text
  pub interface_name : Text
  pub mtu : ℕ

pub data ConnectionStatus : Type 0 where
  disconnected connecting : ConnectionStatus
  connected : ConnectionInfo → ConnectionStatus
  mfa : Text → Text → ConnectionStatus
  error : Text → ConnectionStatus

pub data SupervisorAction : Type 0 where
  reconnect hold idle : SupervisorAction

unfoldable pub decide : ConnectionStatus → Bool → SupervisorAction
decide (connected info) has_desired = hold
decide connecting has_desired = hold
decide (mfa kind prompt) has_desired = hold
decide (error message) has_desired = if has_desired then reconnect else idle
decide disconnected has_desired = if has_desired then reconnect else idle

abbrev pub max_reconnect_attempts : ℕ
max_reconnect_attempts = 10

unfoldable pub should_give_up : ℕ → Bool
should_give_up consecutive_failures = leb max_reconnect_attempts consecutive_failures

-- In seconds.
unfoldable pub backoff_delay : ℕ → ℕ
backoff_delay attempt = if leb 5 attempt then 60 else 2 * 2 ^ attempt

-- What the supervisor calls: the tunnel manager, the profiles, the clock and the shutdown of the process.
pub record System : Type 1 where
  pub World : Type 0
  pub Config : Type 0
  pub status : World → ConnectionStatus
  pub get_profile_config : Text → World → Result Text
  pub parse_config : Text → Option Config
  pub connect : Config → World → World
  pub is_cancelled : World → Bool
  pub sleep : ℕ → World → Bool × World

module _ (y : System) where
  pub record Supervised : Type 0 where
    pub world : y.World
    pub reconnect_suspended : Bool

  abbrev pub auto_desired : Result (Option Text) → Result (Option Text) → Option Text
  auto_desired (ok (some auto)) (ok (some p)) = if text_eq auto (codes "true") then some p else none
  auto_desired _ _ = none

  unfoldable pub desired_profile : Db → Option Text
  desired_profile db =
      auto_desired (get_app_state (codes "auto_connect") db).0
        (get_app_state (codes "desired_profile_id") db).0

  abbrev pub connect_parsed : Option y.Config → y.World → y.World
  connect_parsed none w = w
  connect_parsed (some c) w = y.connect c w

  abbrev pub connect_loaded : Result Text → y.World → y.World
  connect_loaded (ok text) w = connect_parsed (y.parse_config text) w
  connect_loaded (err e) w = w

  unfoldable pub try_connect : Text → y.World → y.World
  try_connect p w = connect_loaded (y.get_profile_config p w) w

  -- How the loop ends, with the delays that it has slept.
  pub data Ending : Type 0 where
    cancelled held gave_up out_of_fuel : Ending

  pub record Run : Type 0 where
    pub ending : Ending
    pub delays : List ℕ
    pub after : Supervised

  abbrev ended : Ending → Supervised → Run
  ended e s = record { ending = e; delays = []; after = s }

  abbrev slept : ℕ → Run → Run
  slept d r = record r { delays = d ∷ r.delays }

  -- One turn of the loop, after its attempt; `rest` is the loop after a sleep that no shutdown cut short.
  abbrev turn : SupervisorAction → ℕ → Supervised → (Supervised → Run) → Run
  turn hold failures s rest = ended held s
  turn idle failures s rest = ended held s
  turn reconnect failures s rest =
      let d = backoff_delay failures in
      let (stopped, w) = y.sleep d s.world in
      if should_give_up (failures + 1)
      then ended gave_up (record s { reconnect_suspended = true })
      else (if stopped
          then ended cancelled (record s { world = w })
          else slept d (rest (record s { world = w })))

  unfoldable pub attempts : ℕ → ℕ → Text → Supervised → Run
  unfolding decide backoff_delay should_give_up
  attempts zero failures p s = ended out_of_fuel s
  attempts (suc fuel) failures p s =
      let tried = record s { world = try_connect p s.world } in
      let rest = attempts fuel (failures + 1) p in
      if y.is_cancelled s.world
      then ended cancelled s
      else turn (decide (y.status tried.world) true) failures tried rest

  unfoldable pub initiate_with_backoff : Text → Supervised → Run
  initiate_with_backoff p s = attempts max_reconnect_attempts 0 p s

  abbrev pub reconnect_wanted : Option Text → SupervisorAction → Supervised → Supervised
  reconnect_wanted (some p) reconnect s =
      let rejoined = (initiate_with_backoff p s).after in
      if s.reconnect_suspended then s else rejoined
  reconnect_wanted _ _ s = s

  abbrev pub unsuspended : ConnectionStatus → Supervised → Supervised
  unsuspended (connected info) s = record s { reconnect_suspended = false }
  unsuspended _ s = s

  -- The loop's answer to one `ConnectionStatus` event.
  unfoldable pub on_connection_status : Db → Supervised → Supervised
  on_connection_status db s =
      let status = y.status s.world in
      reconnect_wanted (desired_profile db) (decide status true) (unsuspended status s)
