-- ===== src/Tunnel/Runs/Calls.antt =====
-- The calls of the tunnel manager keep the invariant.
use snx_edge.Common.{
  ℕ, ◌≡◌, refl, inl, inr, true, false, not, List, [], ◌∷◌, some, keep, Bool-cases,
}
use snx_edge.Supervisor.{ConnectionStatus, connecting}
use snx_edge.Tunnel.{
  Core, Handler, TunnelManager, Reply, replied, refused, Outcome, done, failed, then_run, ask,
  is_running, is_disconnected, is_task, challenged, adopt, remember, restored, open_session,
  connect_inner, settle, connect, disconnect, reconnect,
}
use snx_edge.Tunnel.Params.{VpnConfig, TunnelParams}
use snx_edge.Tunnel.Runs.Invariant.{IsValid, Begun, challenged-Begun}

module _ (c : Core) where
  abbrev Idle : TunnelManager c → Type 0
  Idle s = (s.running ≡ []) × (s.disconnect_initiated ≡ false)

  abbrev Started : Outcome ConnectionStatus × TunnelManager c → Type 0
  Started (done status, t) = IsValid c t
  Started (failed e, t) = Idle t

  Begun→Started :
      (s : TunnelManager c) (r : Outcome ConnectionStatus × TunnelManager c)
      → Begun c s r
      → Started r
  Begun→Started s (done status, t) h = h
  Begun→Started s (failed e, t) (none_running, down, _) = (none_running, down)

  bind-Started :
      {A : Type 0} (q : Outcome A × TunnelManager c)
      (f : A → TunnelManager c → Outcome ConnectionStatus × TunnelManager c)
      → Idle q.1
      → ((a : A) → Started (f a q.1))
      → Started (then_run c q.0 f q.1)
  bind-Started (done a, t) f idle rest = rest a
  bind-Started (failed e, t) f idle rest = idle

  open_session-Idle :
      (params : TunnelParams) (k : c.Connector) (s : TunnelManager c)
      → Idle s
      → Idle (open_session c params k s).1
  unfolding open_session
  open_session-Idle params k s idle = elim (Bool-cases params.ike_persist) [
    | inl e ↦ rw e (restoring (c.restore_session k s.world))
    | inr e ↦ rw e idle
  ]
    where
      restoring :
          (q : Reply c.Session × c.World) → Idle (restored c k q.0 (record s { world = q.1 })).1
      restoring (replied session, w) = idle
      restoring (refused e, w) = idle

  connect_inner-Started :
      (vpn : VpnConfig) (s : TunnelManager c) → Idle s → Started (connect_inner c vpn s)
  unfolding connect_inner
  connect_inner-Started vpn s idle =
      let params = c.build_tunnel_params vpn in
      let s1 = (remember c vpn s).1 in
      bind-Started (ask c (c.create params) s1) _ idle (λ k.
        let s2 = (ask c (c.create params) s1).1 in
        bind-Started (open_session c params k s2) _ (open_session-Idle params k s2 idle) (λ x.
          let s3 = (open_session c params k s2).1 in
          let s4 = (adopt c x (some k) s3).1 in
          let (none_running, down) = open_session-Idle params k s2 idle in
          Begun→Started s4 (challenged c x (c.pending x) s4)
            (challenged-Begun c s4 x none_running down refl (c.pending x) refl)))

  settle-IsValid :
      (q : Outcome ConnectionStatus × TunnelManager c) → Started q → IsValid c (settle c q).1
  settle-IsValid (done status, t) h = h
  settle-IsValid (failed e, t) (none_running, down) = inl (record {
    none_running = none_running;
    at_rest = refl;
    released = λ h. cc;
    cleared = inl down;
  })

  resting : (s : TunnelManager c) → IsValid c s → is_running s.status ≡ false → s.running ≡ []
  resting s (inl q) rest = q.none_running
  resting s (inr l) rest = cc (l.underway)

  pub connect-IsValid :
      (vpn : VpnConfig) (s : TunnelManager c) → IsValid c s → IsValid c (connect c vpn s).1
  unfolding connect
  connect-IsValid vpn s v = elim (Bool-cases (is_running s.status)) [
    | inl e ↦ rw e v
    | inr e ↦ rw e (
        settle-IsValid
          (connect_inner c vpn (record s { status = connecting; disconnect_initiated = false }))
          (connect_inner-Started vpn
            (record s { status = connecting; disconnect_initiated = false }) (resting s v e, refl)))
  ]

  not_task :
      (tasks : List ℕ) (h : Handler) (hs : List Handler)
      → hs ≡ h ∷ []
      → is_task c tasks h ≡ true
      → keep (λ g. not (is_task c tasks g)) hs ≡ []
  not_task tasks h hs e t = rw e (rw t refl)

  aborted :
      (s : TunnelManager c) → IsValid c s → keep (λ h. not (is_task c s.tasks h)) s.running ≡ []
  aborted s (inl q) = rw q.none_running refl
  aborted s (inr l) = not_task s.tasks l.handler s.running l.one_running l.tracked

  pub disconnect-IsValid : (s : TunnelManager c) → IsValid c s → IsValid c (disconnect c s).1
  unfolding disconnect
  disconnect-IsValid s v = elim (Bool-cases (is_disconnected s.status)) [
    | inl e ↦ rw e v
    | inr e ↦ rw e (
        inl (record {
          none_running = aborted s v;
          at_rest = refl;
          released = λ h. (refl, refl);
          cleared = inr refl;
        }))
  ]

  pub reconnect-IsValid :
      (vpn : VpnConfig) (s : TunnelManager c) → IsValid c s → IsValid c (reconnect c vpn s).1
  unfolding reconnect
  reconnect-IsValid vpn s v = connect-IsValid vpn (disconnect c s).1 (disconnect-IsValid s v)
