-- ===== src/Tunnel/Runs/Events.antt =====
-- What a handler does keeps the invariant, and so every state that the manager reaches has it.
use snx_edge.Common.{
  ◌≡◌, refl, sym, ◌∙◌, inl, inr, ◌==◌, Bool, true, false, not, List, [], ◌∷◌, Option, none, some,
  Text, In, keep, if◌then◌else◌, arith,
}
use snx_edge.Supervisor.{ConnectionStatus, connected, connecting, disconnected, mfa, error}
use snx_edge.Tunnel.{
  Core, Handler, TunnelManager, TunnelEvent, connected_event, disconnected_event, rekeyed,
  rekey_check, remote_control_data, is_running, rekeyed_status, ended, handle, deliver, closed_with,
  on_event, on_close, set_status, new, terminal_status_on_channel_close,
}
use snx_edge.Tunnel.Runs.{
  Step, connects, disconnects, reconnects, answers, receives, closes, elapses, Reach, start, later,
}
use snx_edge.Tunnel.Runs.Invariant.{Live, IsValid}
use snx_edge.Tunnel.Runs.Calls.{connect-IsValid, disconnect-IsValid, reconnect-IsValid}
use snx_edge.Tunnel.Runs.Answers.{world-IsValid, challenge_code-IsValid}

module _ (c : Core) where
  In-Live :
      (s : TunnelManager c) (h : Handler)
      → In h s.running
      → IsValid c s
      → (l : Live c s) × (l.handler ≡ h)
  In-Live s h here (inl q) = let gone : In h [] = rw q.none_running at here in absurd gone
  In-Live s h here (inr l) = elim (rw l.one_running at here) [
    | inl e ↦ (l, sym e)
    | inr gone ↦ absurd gone
  ]

  all_ended :
      (hs : List Handler) (g h : Handler)
      → hs ≡ g ∷ []
      → g ≡ h
      → keep (λ f. not (f.task == h.task)) hs ≡ []
  all_ended hs g h one e =
      let same : (g.task == h.task) ≡ true = rw e (ground arith) in rw one (rw same refl)

  rekeyed-is_running :
      (addr : Text) (status : ConnectionStatus)
      → is_running (rekeyed_status c addr status) ≡ is_running status
  rekeyed-is_running addr (connected info) = refl
  rekeyed-is_running addr disconnected = refl
  rekeyed-is_running addr connecting = refl
  rekeyed-is_running addr (mfa kind prompt) = refl
  rekeyed-is_running addr (error text) = refl

  module _ (s : TunnelManager c) (h : Handler) (here : In h s.running) (v : IsValid c s) where
    handle-IsValid : (event : TunnelEvent) → IsValid c (handle c h event s)
    unfolding handle
    handle-IsValid (connected_event info) =
        let (l, _) = In-Live s h here v in
        inr (record {
          handler = l.handler;
          one_running = l.one_running;
          underway = refl;
          tracked = l.tracked;
          unclaimed = l.unclaimed;
          no_pending = l.no_pending;
        })
    handle-IsValid disconnected_event =
        let (l, e) = In-Live s h here v in
        inl (record {
          none_running = all_ended s.running l.handler h l.one_running e;
          at_rest = refl;
          released = λ _. (refl, refl);
          cleared = inr refl;
        })
    handle-IsValid (rekeyed addr) =
        let (l, _) = In-Live s h here v in
        inr (record {
          handler = l.handler;
          one_running = l.one_running;
          underway = rekeyed-is_running addr s.status ∙ l.underway;
          tracked = l.tracked;
          unclaimed = l.unclaimed;
          no_pending = l.no_pending;
        })
    handle-IsValid rekey_check = v
    handle-IsValid remote_control_data = v

    error-IsValid : (text : Text) → IsValid c (ended c h (set_status c (error text) s))
    error-IsValid text =
        let (l, e) = In-Live s h here v in
        inl (record {
          none_running = all_ended s.running l.handler h l.one_running e;
          at_rest = refl;
          released = λ b. cc;
          cleared = inl l.unclaimed;
        })

    deliver-IsValid :
        (event : TunnelEvent) (answer : Option Text) (o : Option c.Connector)
        → IsValid c (deliver c h event answer o s)
    unfolding deliver
    deliver-IsValid event answer none = handle-IsValid event
    deliver-IsValid event none (some k) = handle-IsValid event
    deliver-IsValid event (some text) (some k) = error-IsValid text

    pub on_event-IsValid :
        (event : TunnelEvent) (answer : Option Text) → IsValid c (on_event c h event answer s)
    unfolding on_event
    on_event-IsValid event answer =
        let (l, _) = In-Live s h here v in guarded s.disconnect_initiated l.unclaimed
      where
        guarded :
            (b : Bool)
            → b ≡ false
            → IsValid c (if b then ended c h s else deliver c h event answer s.connector s)
        guarded true e = cc
        guarded false e = deliver-IsValid event answer s.connector

    pub on_close-IsValid : IsValid c (on_close c h s)
    unfolding on_close terminal_status_on_channel_close
    on_close-IsValid =
        let (l, e) = In-Live s h here v in
        guarded s.disconnect_initiated l.unclaimed (all_ended s.running l.handler h l.one_running e)
      where
        guarded :
            (b : Bool)
            → b ≡ false
            → keep (λ f. not (f.task == h.task)) s.running ≡ []
            → IsValid c (closed_with c h (terminal_status_on_channel_close b) s)
        guarded true e over = cc
        guarded false e over = inl (record {
          none_running = over;
          at_rest = refl;
          released = λ _. (refl, refl);
          cleared = inr refl;
        })

  pub Step-IsValid : {s t : TunnelManager c} → Step c s t → IsValid c s → IsValid c t
  Step-IsValid (connects s vpn) v = connect-IsValid c vpn s v
  Step-IsValid (disconnects s) v = disconnect-IsValid c s v
  Step-IsValid (reconnects s vpn) v = reconnect-IsValid c vpn s v
  Step-IsValid (answers s code) v = challenge_code-IsValid c s v code
  Step-IsValid (receives s h event answer here) v = on_event-IsValid s h here v event answer
  Step-IsValid (closes s h here) v = on_close-IsValid s h here v
  Step-IsValid (elapses s w) v = world-IsValid c s w v

  new-IsValid : (w : c.World) → IsValid c (new c w)
  unfolding new
  new-IsValid w = inl (record {
    none_running = refl;
    at_rest = refl;
    released = λ _. (refl, refl);
    cleared = inl refl;
  })

  pub Reach-IsValid : {s : TunnelManager c} → Reach c s → IsValid c s
  Reach-IsValid (start w) = new-IsValid w
  Reach-IsValid (later r st) = Step-IsValid st (Reach-IsValid r)
