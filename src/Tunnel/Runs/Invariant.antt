-- ===== src/Tunnel/Runs/Invariant.antt =====
-- What holds of the tunnel manager between its steps, and that each step keeps it.
use snx_edge.Common.{
  ◌≡◌, refl, ap, ◌⊎◌, inl, inr, ◌==◌, Bool, true, false, List, [], ◌∷◌, ◌++◌, Option, none, some,
  Text, any, arith,
}
use snx_edge.Supervisor.{ConnectionStatus}
use snx_edge.Tunnel.{
  Core, Handler, TunnelManager, Reply, replied, refused, outcome, Outcome, done, failed, then_run,
  needed, no_connector, is_running, is_disconnected, is_task, spawn, start_tunnel, challenged,
  spawn_on, announce, track, ◌>>=◌,
}

Option-cases : {A : Type 0} (o : Option A) → (o ≡ none) ⊎ ((a : A) × (o ≡ some a))
Option-cases none = inl refl
Option-cases (some a) = inr (a, refl)

any-end :
    {A : Type 0} (p : A → Bool) (xs : List A) (a : A) → p a ≡ true → any p (xs ++ a ∷ []) ≡ true
any-end p [] a h = ground arith
any-end p (x ∷ xs) a h = ground (arith, any-end p xs a h)

module _ (c : Core) where
  abbrev pub pending_of : Option c.Session → Option (Text × Text)
  pending_of none = none
  pending_of (some session) = c.pending session

  -- No handler runs.
  pub record Quiet (s : TunnelManager c) : Type 0 where
    pub none_running : s.running ≡ []
    pub at_rest : is_running s.status ≡ false
    pub released : is_disconnected s.status ≡ true → (s.session ≡ none) × (s.connector ≡ none)
    pub cleared : (s.disconnect_initiated ≡ false) ⊎ (s.session ≡ none)

  -- One handler runs, which `disconnect` can abort.
  pub record Live (s : TunnelManager c) : Type 0 where
    pub handler : Handler
    pub one_running : s.running ≡ handler ∷ []
    pub underway : is_running s.status ≡ true
    pub tracked : is_task c s.tasks handler ≡ true
    pub unclaimed : s.disconnect_initiated ≡ false
    pub no_pending : pending_of s.session ≡ none

  abbrev pub IsValid : TunnelManager c → Type 0
  IsValid s = Quiet s ⊎ Live s

  -- The end of a call that begins with no handler and the flag down.
  abbrev pub Begun : TunnelManager c → Outcome ConnectionStatus × TunnelManager c → Type 0
  Begun s (done status, t) = IsValid t
  Begun s (failed e, t) =
      (t.running ≡ []) × (t.disconnect_initiated ≡ false) × (t.status ≡ s.status)

  module _ (s : TunnelManager c) (x : c.Session) (fresh : s.running ≡ [])
      (down : s.disconnect_initiated ≡ false) (held : s.session ≡ some x) where
    start_tunnel-Begun : c.pending x ≡ none → Begun s (start_tunnel c x s)
    unfolding start_tunnel spawn
    start_tunnel-Begun settled = asked s.connector
      where
        Spawned : Outcome (Unit {0}) × TunnelManager c → Type 0
        Spawned r = Begun s (then_run c r.0 (λ _. announce c) r.1)

        created :
            (k : c.Connector) (q : Reply (Unit {0}) × c.World)
            → Spawned (then_run c (outcome q.0) (λ _. track c) (record s { world = q.1 }))
        created k (refused e, w) = (fresh, down, refl)
        created k (replied tt, w) = inr (record {
          handler = record { task = s.next_task; mtu = s.last_mtu };
          one_running = ap (λ hs. record { task = s.next_task; mtu = s.last_mtu } ∷ hs) fresh;
          underway = refl;
          tracked = any-end (λ t. t == s.next_task) s.tasks s.next_task (ground arith);
          unclaimed = down;
          no_pending = rw held settled;
        })

        asked :
            (o : Option c.Connector)
            → Spawned ((◌>>=◌ c (needed c no_connector o) (spawn_on c x)) s)
        asked none = (fresh, down, refl)
        asked (some k) = created k (c.create_tunnel k x s.world)

    -- A session that has just been stored.
    pub challenged-Begun :
        (p : Option (Text × Text)) → c.pending x ≡ p → Begun s (challenged c x p s)
    challenged-Begun none e = start_tunnel-Begun e
    challenged-Begun (some (kind, prompt)) e =
        inl
          (record { none_running = fresh; at_rest = refl; released = λ h. cc; cleared = inl down })
