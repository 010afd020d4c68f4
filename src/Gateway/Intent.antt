-- ===== src/Gateway/Intent.antt =====
-- The intent that the handlers of the tunnel record, and what the supervisor makes of it (api/tunnel.rs,
-- supervisor.rs).
use mathlib.Core.Path.{subst}
use snx_edge.Common.{
  ℕ, ◌≡◌, refl, sym, ap, ◌∙◌, Bool, true, false, Option, none, some, Text, text_eq, codes,
}
use snx_edge.Errors.{Result, ok, bind-after, bind-at, ok_or, internal, lift, ◌>>=◌}
use snx_edge.Auth.Permissions.{Claims, require_permission}
use snx_edge.Users.Store.{Db}
use snx_edge.Users.Rows.{set_app_state, delete_app_state, get_app_state}
use snx_edge.Users.State.{lookup_state-upsert, lookup_state-upsert_ne, lookup_state-deleted}
use snx_edge.Profiles.Secrets.{Cipher}
use snx_edge.Profiles.Store.{Serde, get_profile_config}
use snx_edge.Supervisor.{
  ConnectionStatus, connected, connecting, disconnected, mfa, error, SupervisorAction, decide,
  reconnect_wanted, unsuspended, initiate_with_backoff, System, Supervised, desired_profile,
  on_connection_status,
}
use snx_edge.Supervisor.Redial.{
  Down, Down-decide, Holds, Redials, delays, initiate_with_backoff-Redials,
}
use snx_edge.Supervisor
use snx_edge.Tunnel.{Core, TunnelManager}
use snx_edge.Tunnel
use snx_edge.Tunnel.Params.{VpnConfig}
use snx_edge.Net.{is_empty}
use snx_edge.Gateway
use snx_edge.Gateway.{Gateway, key_desired, key_auto_connect, connect, disconnect, reconnect}

module _ (c : Core) (a : Cipher) (serde : Serde) (profile_key : Option a.Key)
    (parse_config : Text → Option VpnConfig) where
  abbrev pub G : Type 0
  G = Gateway c a serde profile_key parse_config

  -- The system that the supervisor sees: the gateway. `is_cancelled` and `sleep` are the process's:
  -- while the supervisor sleeps, anything may happen to the gateway.
  abbrev pub system : (G → Bool) → (ℕ → G → Bool × G) → System
  system is_cancelled sleep = record {
    World = G;
    Config = VpnConfig;
    status = λ g. g.tunnel.status;
    get_profile_config = λ p g. (get_profile_config a serde profile_key p g.profiles).0;
    parse_config = parse_config;
    connect = λ vpn g. record g { tunnel = (Tunnel.connect c vpn g.tunnel).1 };
    is_cancelled = is_cancelled;
    sleep = sleep;
  }

  -- The operator's intent: the profile to keep connected, if there is one.
  abbrev pub intent : Db → Option Text
  intent db = desired_profile (system (λ g. true) (λ d g. (true, g))) db

  abbrev pub seen :
      (is_cancelled : G → Bool) (sleep : ℕ → G → Bool × G)
      → G
      → Supervised (system is_cancelled sleep)
  seen is_cancelled sleep g = record { world = g; reconnect_suspended = g.reconnect_suspended }

  -- What the supervisor does with the gateway when it hears of a new status.
  abbrev pub supervise :
      (is_cancelled : G → Bool) (sleep : ℕ → G → Bool × G)
      → G
      → Supervised (system is_cancelled sleep)
  supervise is_cancelled sleep g =
      on_connection_status (system is_cancelled sleep) g.db (seen is_cancelled sleep g)

  no_intent-idle :
      (is_cancelled : G → Bool) (sleep : ℕ → G → Bool × G) (g : G)
      → intent g.db ≡ none
      → (supervise is_cancelled sleep g).world ≡ g
  unfolding on_connection_status desired_profile
  no_intent-idle is_cancelled sleep g h =
      left (desired_profile (system is_cancelled sleep) g.db) (decide g.tunnel.status true)
        (unsuspended (system is_cancelled sleep) g.tunnel.status (seen is_cancelled sleep g)) h
      ∙ same g.tunnel.status
    where
      left :
          (wanted : Option Text) (action : SupervisorAction)
          (s : Supervised (system is_cancelled sleep))
          → wanted ≡ none
          → (reconnect_wanted (system is_cancelled sleep) wanted action s).world ≡ s.world
      left none action s h = refl
      left (some p) action s h = cc

      same :
          (status : ConnectionStatus)
          → (unsuspended (system is_cancelled sleep) status (seen is_cancelled sleep g)).world ≡ g
      same (connected info) = refl
      same connecting = refl
      same disconnected = refl
      same (mfa kind prompt) = refl
      same (error text) = refl

  -- After a drop, the supervisor dials the profile of the intent.
  intent-dials :
      (is_cancelled : G → Bool) (sleep : ℕ → G → Bool × G) (g : G) (p : Text)
      → intent g.db ≡ some p
      → g.reconnect_suspended ≡ false
      → decide g.tunnel.status true ≡ Supervisor.reconnect
      → supervise is_cancelled sleep g
        ≡ (initiate_with_backoff (system is_cancelled sleep) p (seen is_cancelled sleep g)).after
  unfolding on_connection_status desired_profile decide
  intent-dials is_cancelled sleep g p wanted armed dropped =
      ap
        (reconnect_wanted (system is_cancelled sleep)
          (desired_profile (system is_cancelled sleep) g.db) (decide g.tunnel.status true))
        (unchanged g.tunnel.status dropped)
      ∙ dials (desired_profile (system is_cancelled sleep) g.db) (decide g.tunnel.status true)
          wanted dropped
    where
      dials :
          (o : Option Text) (action : SupervisorAction)
          → o ≡ some p
          → action ≡ Supervisor.reconnect
          → reconnect_wanted (system is_cancelled sleep) o action (seen is_cancelled sleep g)
            ≡ (initiate_with_backoff
                (system is_cancelled sleep)
                p
                (seen is_cancelled sleep g)).after
      dials o action e e' = rw (e, e', armed) refl

      unchanged :
          (status : ConnectionStatus)
          → decide status true ≡ Supervisor.reconnect
          → unsuspended (system is_cancelled sleep) status (seen is_cancelled sleep g)
            ≡ seen is_cancelled sleep g
      unchanged (connected info) h = cc
      unchanged connecting h = cc
      unchanged (mfa kind prompt) h = cc
      unchanged disconnected h = refl
      unchanged (error text) h = refl

  -- The supervisor answers with attempts at a profile that holds a configuration.
  abbrev pub Retries :
      (is_cancelled : G → Bool) (sleep : ℕ → G → Bool × G) → Text → VpnConfig → G → Type 0
  Retries is_cancelled sleep p vpn g =
      Holds (system is_cancelled sleep) p g vpn
      × Redials (system is_cancelled sleep) p (delays (system is_cancelled sleep))
          (seen is_cancelled sleep g) (supervise is_cancelled sleep g)

  intent-Retries :
      (is_cancelled : G → Bool) (sleep : ℕ → G → Bool × G) (g : G) (p text : Text) (vpn : VpnConfig)
      → intent g.db ≡ some p
      → g.reconnect_suspended ≡ false
      → Down g.tunnel.status
      → (get_profile_config a serde profile_key p g.profiles).0 ≡ ok text
      → parse_config text ≡ some vpn
      → Retries is_cancelled sleep p vpn g
  intent-Retries is_cancelled sleep g p text vpn wanted armed down loaded parsed = (
    (text, loaded, parsed),
    subst
        (Redials (system is_cancelled sleep) p (delays (system is_cancelled sleep))
          (seen is_cancelled sleep g))
        (sym (
          intent-dials is_cancelled sleep g p wanted armed
            (Down-decide (system is_cancelled sleep) g.tunnel.status down)))
        (initiate_with_backoff-Redials (system is_cancelled sleep) p (seen is_cancelled sleep g)),
  )

  module _ (read : Text → Option Text) (now : ℕ) where
    disconnect-intent :
        (claims : Claims) (g : G)
        → require_permission claims (codes "tunnel.disconnect") ≡ ok tt
        → intent (disconnect c a serde profile_key parse_config read now claims g).1.db ≡ none
    unfolding disconnect desired_profile get_app_state delete_app_state
    disconnect-intent claims g allowed = rw allowed (
        bind-after (λ (h : G). intent h.db ≡ none)
          (Gateway.on_tunnel c a serde profile_key parse_config (Tunnel.disconnect c)) _
          (Gateway.clear_intent c a serde profile_key parse_config read now g).1 (λ _ _. cleared)
          (λ _ _. cleared))
      where
        cleared :
            intent (Gateway.clear_intent c a serde profile_key parse_config read now g).1.db ≡ none
        cleared = rw (lookup_state-deleted key_auto_connect _) refl

    -- After a request to disconnect by a caller who may, whether the tunnel manager accepts it or
    -- not, the supervisor leaves the gateway as it is when it hears of a new status, whatever has
    -- become of the tunnel in the meantime.
    pub disconnect-not_reconnected :
        (claims : Claims) (g : G) (later : TunnelManager c) (is_cancelled : G → Bool)
        (sleep : ℕ → G → Bool × G)
        → require_permission claims (codes "tunnel.disconnect") ≡ ok tt
        → (supervise is_cancelled sleep
            (record (disconnect c a serde profile_key parse_config read now claims g).1 {
              tunnel = later;
            })).world
          ≡ record (disconnect c a serde profile_key parse_config read now claims g).1 {
            tunnel = later;
          }
    disconnect-not_reconnected claims g later is_cancelled sleep allowed =
        no_intent-idle is_cancelled sleep
          (record (disconnect c a serde profile_key parse_config read now claims g).1 {
            tunnel = later;
          })
          (disconnect-intent claims g allowed)

    -- What a request to connect has recorded when the tunnel is dialled.
    recorded : Text → G → G
    recorded p g = (Gateway.record_intent c a serde profile_key parse_config read now p g).1

    recorded-intent : (p : Text) (g : G) → intent (recorded p g).db ≡ some p
    unfolding recorded desired_profile get_app_state set_app_state text_eq
    recorded-intent p g =
        rw
          (
            lookup_state-upsert key_auto_connect (codes "true") _,
            lookup_state-upsert_ne key_auto_connect key_desired (codes "true") _ apart,
            lookup_state-upsert key_desired p _,
          )
          refl
      where
        apart : text_eq key_auto_connect key_desired ≡ false
        apart = refl

    load_config-run :
        (g : G) (p text : Text) (vpn : VpnConfig)
        → (get_profile_config a serde profile_key p g.profiles).0 ≡ ok text
        → parse_config text ≡ some vpn
        → Gateway.load_config c a serde profile_key parse_config p g ≡ (ok vpn, g)
    unfolding get_profile_config
    load_config-run g p text vpn loaded parsed =
        bind-at
          (Gateway.on_profiles c a serde profile_key parse_config
            (get_profile_config a serde profile_key p))
          _ g g text (ap (λ (r : Result Text). (r, g)) loaded)
        ∙ ap (λ o. (ok_or internal o, g)) parsed

    load_config-state :
        (g : G) (p : Text) → (Gateway.load_config c a serde profile_key parse_config p g).1 ≡ g
    unfolding get_profile_config
    load_config-state g p =
        bind-after (λ (h : G). h ≡ g)
          (Gateway.on_profiles c a serde profile_key parse_config
            (get_profile_config a serde profile_key p))
          _ g (λ _ _. refl) (λ _ _. refl)

    -- A call of the tunnel manager leaves the rest of the gateway, also where it fails.
    dial-state :
        (m : Tunnel.T c ConnectionStatus) (g : G)
        → ((Gateway.on_tunnel c a serde profile_key parse_config m >>= λ _.
              Gateway.report c a serde profile_key parse_config read now)
            g).1
          ≡ record g { tunnel = (m g.tunnel).1 }
    dial-state m g =
        bind-after (λ (h : G). h ≡ record g { tunnel = (m g.tunnel).1 })
          (Gateway.on_tunnel c a serde profile_key parse_config m) _ g (λ _ _. refl) (λ _ _. refl)

    -- A request to connect whose checks have passed has dialled the tunnel.
    connect-state :
        (claims : Claims) (g : G) (p text : Text) (vpn : VpnConfig)
        → require_permission claims (codes "tunnel.connect") ≡ ok tt
        → (get_profile_config a serde profile_key p g.profiles).0 ≡ ok text
        → parse_config text ≡ some vpn
        → is_empty vpn.server ≡ false
        → (connect c a serde profile_key parse_config read now claims p g).1
          ≡ record (recorded p g) { tunnel = (Tunnel.connect c vpn g.tunnel).1 }
    unfolding connect recorded set_app_state
    connect-state claims g p text vpn allowed loaded parsed named =
        ap (λ z. z.1)
          (bind-at (lift (require_permission claims (codes "tunnel.connect"))) _ g g tt
              (ap (λ r. (r, g)) allowed)
            ∙ bind-at (Gateway.load_config c a serde profile_key parse_config p) _ g g vpn
                (load_config-run g p text vpn loaded parsed)
            ∙ bind-at (Gateway.require_server c a serde profile_key parse_config vpn) _ g g tt
                (rw named refl))
        ∙ dial-state (Tunnel.connect c vpn) (recorded p g)

    -- What a request to connect whose checks have passed leaves.
    connect-recorded :
        (claims : Claims) (g : G) (p text : Text) (vpn : VpnConfig)
        → require_permission claims (codes "tunnel.connect") ≡ ok tt
        → (get_profile_config a serde profile_key p g.profiles).0 ≡ ok text
        → parse_config text ≡ some vpn
        → is_empty vpn.server ≡ false
        → let h = (connect c a serde profile_key parse_config read now claims p g).1 in
          (intent h.db ≡ some p) × (h.reconnect_suspended ≡ false) × (h.profiles ≡ g.profiles)
    unfolding recorded set_app_state
    connect-recorded claims g p text vpn allowed loaded parsed named =
        let is = connect-state claims g p text vpn allowed loaded parsed named in
        (
          ap (λ (h : G). intent h.db) is ∙ recorded-intent p g,
          ap (λ (h : G). h.reconnect_suspended) is,
          ap (λ (h : G). h.profiles) is,
        )

    -- After a request to connect whose caller may, whose profile can be read, holds a
    -- configuration and names a server, whether the tunnel manager accepts it or not, that profile
    -- still holds that configuration, and when the supervisor hears of a tunnel that is down it
    -- makes attempts at that profile: each dials the configuration that the profile holds at its
    -- time, and they end with the shutdown of the process, with a tunnel that is not down, or,
    -- after nine sleeps of 2, 4, 8, 16, 32, 60, 60, 60 and 60 seconds, with the latch set.
    pub connect-redialled :
        (claims : Claims) (g : G) (p text : Text) (vpn : VpnConfig) (later : TunnelManager c)
        (is_cancelled : G → Bool) (sleep : ℕ → G → Bool × G)
        → require_permission claims (codes "tunnel.connect") ≡ ok tt
        → (get_profile_config a serde profile_key p g.profiles).0 ≡ ok text
        → parse_config text ≡ some vpn
        → is_empty vpn.server ≡ false
        → Down later.status
        → Retries is_cancelled sleep p vpn
            (record (connect c a serde profile_key parse_config read now claims p g).1 {
              tunnel = later;
            })
    connect-redialled claims g p text vpn later is_cancelled sleep allowed loaded parsed named
          down =
        let (wanted, armed, profiles) =
          connect-recorded claims g p text vpn allowed loaded parsed named in
        intent-Retries is_cancelled sleep
          (record (connect c a serde profile_key parse_config read now claims p g).1 {
            tunnel = later;
          })
          p text vpn wanted armed down
          (ap (λ rows. (get_profile_config a serde profile_key p rows).0) profiles ∙ loaded) parsed

    reconnect-keeps :
        (claims : Claims) (g : G) (q : Text)
        → ((reconnect c a serde profile_key parse_config read now claims q g).1.db ≡ g.db)
          × ((reconnect c a serde profile_key parse_config read now claims q
                g).1.reconnect_suspended
              ≡ g.reconnect_suspended)
          × ((reconnect c a serde profile_key parse_config read now claims q g).1.profiles
              ≡ g.profiles)
    unfolding reconnect get_profile_config
    reconnect-keeps claims g q =
        bind-after Kept (lift (require_permission claims (codes "tunnel.connect"))) _ g
          (λ _ _.
            bind-after Kept (Gateway.load_config c a serde profile_key parse_config q) _ g
              (λ vpn _. dialled vpn) (λ _ _. kept (load_config-state g q)))
          (λ _ _. (refl, refl, refl))
      where
        Kept : G → Type 0
        Kept h =
            (h.db ≡ g.db)
            × (h.reconnect_suspended ≡ g.reconnect_suspended)
            × (h.profiles ≡ g.profiles)

        kept : {h : G} → h ≡ g → Kept h
        kept is = (
          ap (λ (x : G). x.db) is,
          ap (λ (x : G). x.reconnect_suspended) is,
          ap (λ (x : G). x.profiles) is,
        )

        dialled :
            (vpn : VpnConfig)
            → Kept
                ((Gateway.on_tunnel c a serde profile_key parse_config (Tunnel.reconnect c vpn)
                    >>= λ _. Gateway.report c a serde profile_key parse_config read now)
                  (Gateway.load_config c a serde profile_key parse_config q g).1).1
        dialled vpn =
            let is =
              dial-state (Tunnel.reconnect c vpn)
                (Gateway.load_config c a serde profile_key parse_config q g).1 in
            let (db, latch, profiles) = kept (load_config-state g q) in
            (
              ap (λ (x : G). x.db) is ∙ db,
              ap (λ (x : G). x.reconnect_suspended) is ∙ latch,
              ap (λ (x : G). x.profiles) is ∙ profiles,
            )

    -- A request to reconnect does not record its profile: after a request to connect whose caller
    -- may, whose profile can be read, holds a configuration and names a server, and then a request
    -- to reconnect with any profile and by any caller, the supervisor that hears of a tunnel that
    -- is down makes attempts at the profile of the first request, which still holds its
    -- configuration; each dials what that profile holds at its time.
    pub reconnect-redials_old :
        (claims other : Claims) (g : G) (p q text : Text) (vpn : VpnConfig)
        (meanwhile later : TunnelManager c) (is_cancelled : G → Bool) (sleep : ℕ → G → Bool × G)
        → require_permission claims (codes "tunnel.connect") ≡ ok tt
        → (get_profile_config a serde profile_key p g.profiles).0 ≡ ok text
        → parse_config text ≡ some vpn
        → is_empty vpn.server ≡ false
        → Down later.status
        → Retries is_cancelled sleep p vpn
            (record (reconnect c a serde profile_key parse_config read now other q
              (record (connect c a serde profile_key parse_config read now claims p g).1 {
                tunnel = meanwhile;
              })).1 { tunnel = later })
    reconnect-redials_old claims other g p q text vpn meanwhile later is_cancelled sleep allowed
          loaded parsed named down =
        let (wanted, armed, profiles) =
          connect-recorded claims g p text vpn allowed loaded parsed named in
        let up = record (connect c a serde profile_key parse_config read now claims p g).1 {
          tunnel = meanwhile;
        } in
        let (db, latch, kept) = reconnect-keeps other up q in
        intent-Retries is_cancelled sleep
          (record (reconnect c a serde profile_key parse_config read now other q up).1 {
            tunnel = later;
          })
          p text vpn (ap intent db ∙ wanted) (latch ∙ armed) down
          (ap (λ rows. (get_profile_config a serde profile_key p rows).0) (kept ∙ profiles)
            ∙ loaded)
          parsed
