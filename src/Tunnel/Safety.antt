-- ===== src/Tunnel/Safety.antt =====
-- What the runs of the tunnel manager show to its callers.
use snx_edge.Common.{
  ◌≡◌, ◌≢◌, refl, sym, ap, ◌∙◌, inl, inr, Bool, true, false, [], ◌∷◌, Option, none, some, In,
  length, Bool-cases, if◌then◌else◌,
}
use snx_edge.Supervisor.{ConnectionStatus, connected, connecting, disconnected, mfa, error}
use snx_edge.Tunnel.{
  Core, Handler, TunnelManager, already_running, Outcome, done, failed, is_disconnected, is_running,
  connect, disconnect, on_event, on_close, spawn, announce, connected_event, handle, deliver, track,
  ended, set_status, TunnelEvent, Reply, replied, refused, outcome, then_run, needed, no_connector,
  spawn_on, ◌>>=◌,
}
use snx_edge.Tunnel.Params.{VpnConfig, CoreInfo, map_connection_info}
use snx_edge.Tunnel.Connect.{Settles, connect-Settles}
use snx_edge.Tunnel.Runs.{Reach}
use snx_edge.Tunnel.Runs.Invariant.{IsValid}
use snx_edge.Tunnel.Runs.Events.{Reach-IsValid}

module _ (c : Core) where
  counted :
      (s : TunnelManager c)
      → IsValid c s
      → length s.running ≡ (if is_running s.status then 1 else 0)
  counted s (inl q) = rw (q.none_running, q.at_rest) refl
  counted s (inr l) = rw (l.one_running, l.underway) refl

  -- In every state that the tunnel manager reaches by its calls, the events of its handlers and
  -- the closing of their channels, in any order, there is exactly one handler that has not ended
  -- if the status is connecting or connected, and none otherwise.
  pub Reach-one_handler :
      {s : TunnelManager c} → Reach c s → length s.running ≡ (if is_running s.status then 1 else 0)
  Reach-one_handler {s} r = counted s (Reach-IsValid c r)

  let_go :
      (s : TunnelManager c)
      → s.status ≡ disconnected
      → IsValid c s
      → (s.session ≡ none) × (s.connector ≡ none) × (s.running ≡ [])
  let_go s e (inl q) = let (x, k) = q.released (rw e refl) in (x, k, q.none_running)
  let_go s e (inr l) = let never : true ≡ false = sym l.underway ∙ ap is_running e in cc never

  -- In every state that the tunnel manager reaches and whose status is disconnected, it has no
  -- session and no connector, and no handler is left.
  pub Reach-released :
      {s : TunnelManager c}
      → Reach c s
      → s.status ≡ disconnected
      → (s.session ≡ none) × (s.connector ≡ none) × (s.running ≡ [])
  Reach-released {s} r e = let_go s e (Reach-IsValid c r)

  admitted :
      (vpn : VpnConfig) (s : TunnelManager c)
      → is_running s.status ≡ false
      → (connect c vpn s).0 ≢ failed already_running
  admitted vpn s rest e = go (connect c vpn s) (connect-Settles c vpn s) e
    where
      go :
          (q : Outcome ConnectionStatus × TunnelManager c)
          → Settles c s q
          → q.0 ≡ failed already_running
          → ⊥
      go (done status, t) h e = cc
      go (failed f, t) (inl (busy, _, _)) e = cc (busy, rest)
      go (failed f, t) (inr (_, other, _)) e = other (cc)

  turned_away :
      (vpn : VpnConfig) (s : TunnelManager c)
      → (connect c vpn s).0 ≡ failed already_running
      → is_running s.status ≡ true
  turned_away vpn s e = go (connect c vpn s) (connect-Settles c vpn s) e
    where
      go :
          (q : Outcome ConnectionStatus × TunnelManager c)
          → Settles c s q
          → q.0 ≡ failed already_running
          → is_running s.status ≡ true
      go (done status, t) h e = cc
      go (failed f, t) (inl (busy, _, _)) e = busy
      go (failed f, t) (inr (_, other, _)) e = absurd (other (cc))

  close_rests :
      (h : Handler) (s : TunnelManager c)
      → s.disconnect_initiated ≡ false
      → is_running (on_close c h s).status ≡ false
  unfolding on_close
  close_rests h s e = rw e refl

  disconnect_rests : (s : TunnelManager c) → is_running (disconnect c s).1.status ≡ false
  unfolding disconnect
  disconnect_rests s = elim (Bool-cases (is_disconnected s.status)) [
    | inl e ↦ rw e (rests s.status e)
    | inr e ↦ rw e refl
  ]
    where
      rests :
          (status : ConnectionStatus) → is_disconnected status ≡ true → is_running status ≡ false
      rests disconnected e = refl
      rests connecting e = cc
      rests (connected info) e = cc
      rests (mfa kind prompt) e = refl
      rests (error text) e = refl

  -- In every state that the tunnel manager reaches and in which `connect` is turned away, a
  -- `disconnect` leads to a state in which it is not, and so does the closing of the channel of a
  -- handler that is still there.
  pub Reach-not_locked_out :
      {s : TunnelManager c} (vpn next : VpnConfig)
      → Reach c s
      → (connect c vpn s).0 ≡ failed already_running
      → ((connect c next (disconnect c s).1).0 ≢ failed already_running)
        × ((h : Handler) × In h s.running
            × ((connect c next (on_close c h s)).0 ≢ failed already_running))
  Reach-not_locked_out {s} vpn next r away =
      (admitted next (disconnect c s).1 (disconnect_rests s), live (Reach-IsValid c r))
    where
      live :
          IsValid c s
          → (h : Handler) × In h s.running
            × ((connect c next (on_close c h s)).0 ≢ failed already_running)
      live (inl q) = let never : true ≡ false = sym (turned_away vpn s away) ∙ q.at_rest in cc never
      live (inr l) = (
        l.handler,
        rw l.one_running (inl refl),
        admitted next (on_close c l.handler s) (close_rests l.handler s l.unclaimed),
      )

  spawned_as :
      (s : TunnelManager c) (x : c.Session)
      → (spawn c x s).0 ≡ done tt
      → (w : c.World) × ((spawn c x s).1 ≡ (track c (record s { world = w })).1)
  unfolding spawn
  spawned_as s x e = asked s.connector e
    where
      created :
          (q : Reply (Unit {0}) × c.World)
          → (then_run c (outcome q.0) (λ _. track c) (record s { world = q.1 })).0 ≡ done tt
          → (w : c.World) × ((then_run c (outcome q.0) (λ _. track c) (record s { world = q.1 })).1
              ≡ (track c (record s { world = w })).1)
      created (replied tt, w) e = (w, refl)
      created (refused text, w) e = cc

      asked :
          (o : Option c.Connector)
          → (◌>>=◌ c (needed c no_connector o) (spawn_on c x) s).0 ≡ done tt
          → (w : c.World) × ((◌>>=◌ c (needed c no_connector o) (spawn_on c x) s).1
              ≡ (track c (record s { world = w })).1)
      asked none e = cc
      asked (some k) e = created (c.create_tunnel k x s.world) e

  deliver-handle :
      (h : Handler) (event : TunnelEvent) (o : Option c.Connector) (s : TunnelManager c)
      → deliver c h event none o s ≡ handle c h event s
  unfolding deliver
  deliver-handle h event none s = refl
  deliver-handle h event (some k) s = refl

  comes_up :
      (h : Handler) (info : CoreInfo) (t : TunnelManager c)
      → t.disconnect_initiated ≡ false
      → on_event c h (connected_event info) none t
        ≡ set_status c (connected (map_connection_info info h.mtu)) t
  unfolding on_event handle
  comes_up h info t down = guarded t.disconnect_initiated down
    where
      guarded :
          (b : Bool)
          → b ≡ false
          → (if b then ended c h t else deliver c h (connected_event info) none t.connector t)
            ≡ set_status c (connected (map_connection_info info h.mtu)) t
      guarded true e = cc
      guarded false e = deliver-handle h (connected_event info) t.connector t

  -- Where the handler that `spawn` starts sees its tunnel come up before `start_tunnel` writes its
  -- last status, in a state that no `disconnect` has claimed, the status was connected and is
  -- connecting in the end, the handler still runs, and `connect` is turned away.
  pub spawn-announce :
      (s : TunnelManager c) (x : c.Session) (vpn : VpnConfig) (info : CoreInfo)
      → (spawn c x s).0 ≡ done tt
      → s.disconnect_initiated ≡ false
      → let h : Handler = record { task = s.next_task; mtu = s.last_mtu } in
        let up = on_event c h (connected_event info) none (spawn c x s).1 in
        let last = (announce c up).1 in
        (up.status ≡ connected (map_connection_info info s.last_mtu))
        × (last.status ≡ connecting)
        × (last.running ≡ h ∷ s.running)
        × ((connect c vpn last).0 ≡ failed already_running)
  unfolding connect
  spawn-announce s x vpn info spawned down =
      let h : Handler = record { task = s.next_task; mtu = s.last_mtu } in
      let (w, ran) = spawned_as s x spawned in
      let up =
        ap (on_event c h (connected_event info) none) ran
        ∙ comes_up h info (track c (record s { world = w })).1 down in
      (ap (λ t. t.status) up, refl, ap (λ t. t.running) up, refl)
