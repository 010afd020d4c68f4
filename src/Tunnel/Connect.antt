-- ===== src/Tunnel/Connect.antt =====
-- How a call of `connect` ends.
use snx_edge.Common.{
  ◌≡◌, ◌≢◌, refl, ◌⊎◌, inl, inr, true, false, Option, none, some, Text, Bool-cases,
}
use snx_edge.Supervisor.{ConnectionStatus, connecting, error}
use snx_edge.Tunnel.{
  Core, TunnelManager, already_running, no_connector, Outcome, done, failed, Reply, replied,
  refused, outcome, then_run, ask, needed, message, is_running, challenged, adopt, remember,
  restored, open_session, connect_inner, settle, connect, spawn, spawn_on, start_tunnel, announce,
  track,
}
use snx_edge.Tunnel.Params.{VpnConfig, TunnelParams}

module _ (c : Core) where
  -- A result and the status that it leaves: the status that it gives, or an error of another kind than
  -- that of a call which is turned away.
  abbrev Told : Outcome ConnectionStatus × TunnelManager c → Type 0
  Told (done status, t) = t.status ≡ status
  Told (failed e, t) = e ≢ already_running

  Honest : {A : Type 0} → Outcome A → Type 0
  Honest (done a) = Unit {0}
  Honest (failed e) = e ≢ already_running

  reply-Honest : {A : Type 0} (r : Reply A) → Honest (outcome r)
  unfolding Honest
  reply-Honest (replied a) = tt
  reply-Honest (refused text) = λ e. cc

  bind-Told :
      {A : Type 0} (q : Outcome A × TunnelManager c)
      (f : A → TunnelManager c → Outcome ConnectionStatus × TunnelManager c)
      → Honest q.0
      → ((a : A) → Told (f a q.1))
      → Told (then_run c q.0 f q.1)
  unfolding Honest
  bind-Told (done a, t) f h rest = rest a
  bind-Told (failed e, t) f h rest = h

  bind-Honest :
      {A B : Type 0} (q : Outcome A × TunnelManager c)
      (f : A → TunnelManager c → Outcome B × TunnelManager c)
      → Honest q.0
      → ((a : A) → Honest (f a q.1).0)
      → Honest (then_run c q.0 f q.1).0
  unfolding Honest
  bind-Honest (done a, t) f h rest = rest a
  bind-Honest (failed e, t) f h rest = h

  needed-Honest :
      {A : Type 0} (o : Option A) (s : TunnelManager c) → Honest (needed c no_connector o s).0
  unfolding Honest
  needed-Honest none s = λ e. cc
  needed-Honest (some a) s = tt

  spawn-Honest : (x : c.Session) (s : TunnelManager c) → Honest (spawn c x s).0
  unfolding spawn Honest
  spawn-Honest x s =
      bind-Honest (needed c no_connector s.connector s) (spawn_on c x) (needed-Honest s.connector s)
        (λ k.
          let t = (needed c no_connector s.connector s).1 in
          bind-Honest (ask c (c.create_tunnel k x) t) (λ _. track c)
            (reply-Honest (c.create_tunnel k x t.world).0) (λ _. tt))

  challenged-Told :
      (x : c.Session) (p : Option (Text × Text)) (s : TunnelManager c) → Told (challenged c x p s)
  unfolding start_tunnel
  challenged-Told x none s =
      bind-Told (spawn c x s) (λ _. announce c) (spawn-Honest x s) (λ _. refl)
  challenged-Told x (some (kind, prompt)) s = refl

  open_session-Honest :
      (params : TunnelParams) (k : c.Connector) (s : TunnelManager c)
      → Honest (open_session c params k s).0
  unfolding open_session Honest
  open_session-Honest params k s = elim (Bool-cases params.ike_persist) [
    | inl e ↦ rw e (restoring (c.restore_session k s.world))
    | inr e ↦ rw e (reply-Honest (c.authenticate k s.world).0)
  ]
    where
      restoring :
          (q : Reply c.Session × c.World) → Honest (restored c k q.0 (record s { world = q.1 })).0
      restoring (replied session, w) = tt
      restoring (refused e, w) = reply-Honest (c.authenticate k w).0

  connect_inner-Told : (vpn : VpnConfig) (s : TunnelManager c) → Told (connect_inner c vpn s)
  unfolding connect_inner
  connect_inner-Told vpn s =
      let params = c.build_tunnel_params vpn in
      let s1 = (remember c vpn s).1 in
      bind-Told (ask c (c.create params) s1) _ (reply-Honest (c.create params s1.world).0) (λ k.
        let s2 = (ask c (c.create params) s1).1 in
        bind-Told (open_session c params k s2) _ (open_session-Honest params k s2) (λ x.
          let s4 = (adopt c x (some k) (open_session c params k s2).1).1 in
          challenged-Told x (c.pending x) s4))

  -- How a call on `s` ends: turned away, with a status, or with an error that the status shows.
  abbrev pub Settles : TunnelManager c → Outcome ConnectionStatus × TunnelManager c → Type 0
  Settles s (done status, t) = (is_running s.status ≡ false) × (t.status ≡ status)
  Settles s (failed e, t) =
      ((is_running s.status ≡ true) × (e ≡ already_running) × (t ≡ s))
      ⊎ ((is_running s.status ≡ false) × (e ≢ already_running) × (t.status ≡ error (message e)))

  -- A call of `connect` is turned away and changes nothing exactly where the status is connecting
  -- or connected; otherwise it leaves the status that it returns, or, where it fails, an error
  -- with the text of the failure.
  pub connect-Settles : (vpn : VpnConfig) (s : TunnelManager c) → Settles s (connect c vpn s)
  unfolding connect
  connect-Settles vpn s = elim (Bool-cases (is_running s.status)) [
    | inl e ↦ rw e (inl (e, refl, refl))
    | inr e ↦ rw e (
        settled e
          (connect_inner c vpn (record s { status = connecting; disconnect_initiated = false }))
          (connect_inner-Told vpn (record s { status = connecting; disconnect_initiated = false })))
  ]
    where
      settled :
          (is_running s.status ≡ false)
          → (q : Outcome ConnectionStatus × TunnelManager c) → Told q
          → Settles s (settle c q)
      settled e (done status, t) h = (e, h)
      settled e (failed f, t) h = inr (e, h, refl)
