-- ===== src/Supervisor/Tests.antt =====
-- The theorems on the supervisor, applied to a gateway that cannot be reached.
use snx_edge.Common.{ℕ, suc, ◌≡◌, ◌≢◌, ◌≤◌, refl, List, ◌∷◌, [], false, some, codes, Text}
use snx_edge.Errors.{ok}
use snx_edge.Users.Store.{Db}
use snx_edge.Supervisor.{
  System, Supervised, Ending, error, initiate_with_backoff, attempts, decide, backoff_delay,
  should_give_up, try_connect,
}
use snx_edge.Supervisor.Boot.{Message, Delivery}
use snx_edge.Supervisor.Backoff.{total, initiate_with_backoff-ends, on_all, gave_up-stays}

-- The world counts the attempts.
abbrev down : System
down = record {
  World = ℕ;
  Config = Text;
  status = λ w. error (codes "unreachable");
  get_profile_config = λ p w. ok (codes "gateway.example");
  parse_config = λ text. some text;
  connect = λ c w. suc w;
  is_cancelled = λ w. false;
  sleep = λ d w. (false, w);
}

abbrev booted : Supervised down
booted = record { world = 0; reconnect_suspended = false }

abbrev wanted : Db
wanted = record {
  users = [];
  sessions = [];
  app_state = (codes "auto_connect", codes "true") ∷ (codes "desired_profile_id", codes "p1") ∷ [];
}

initiate_with_backoff-ends_example :
    ((initiate_with_backoff down (codes "p1") booted).ending ≢ Ending.out_of_fuel)
    × (total (initiate_with_backoff down (codes "p1") booted).delays ≤ 302)
initiate_with_backoff-ends_example = initiate_with_backoff-ends down (codes "p1") booted

gave_up-stays_example :
    on_all down (wanted ∷ wanted ∷ []) (initiate_with_backoff down (codes "p1") booted).after
    ≡ (initiate_with_backoff down (codes "p1") booted).after
gave_up-stays_example =
    gave_up-stays down (codes "p1") booted (wanted ∷ wanted ∷ []) (
      unfold initiate_with_backoff attempts decide backoff_delay should_give_up try_connect in refl)

-- An event and the shutdown, on a server that nobody has asked to connect.
abbrev unwanted : Db
unwanted = record { users = []; sessions = []; app_state = [] }

abbrev messages : List (Delivery down)
messages =
    record {
      message = Message.connection_status;
      change = λ w. suc w;
      rearmed = false;
      db = unwanted;
    }
    ∷ record { message = Message.shutdown; change = λ w. w; rearmed = false; db = unwanted }
    ∷ []
