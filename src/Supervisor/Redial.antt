-- ===== src/Supervisor/Redial.antt =====
-- What the supervisor does when it dials a profile (`initiate_with_backoff` of supervisor.rs).
use snx_edge.Common.{
  ℕ, zero, suc, ◌+◌, ◌≡◌, refl, inl, inr, true, false, List, [], ◌∷◌, Option, none, some, Text, leb,
  arith, Bool-cases,
}
use snx_edge.Errors.{Result, ok, err}
use snx_edge.Supervisor.{
  ConnectionStatus, connected, connecting, disconnected, mfa, error, SupervisorAction, reconnect,
  hold, idle, decide, should_give_up, backoff_delay, System, Supervised, Run, try_connect,
  connect_loaded, connect_parsed, turn, attempts, initiate_with_backoff,
}
use snx_edge.Supervisor.Backoff.{schedule}

-- The tunnel is down: nothing is under way, and nobody is asked for a code.
abbrev pub Down : ConnectionStatus → Type 0
Down (error message) = Unit
Down disconnected = Unit
Down (connected info) = ⊥
Down connecting = ⊥
Down (mfa kind prompt) = ⊥

module _ (y : System) where
  -- The profile can be read, and holds a configuration.
  abbrev pub Holds : Text → y.World → y.Config → Type 0
  Holds p w c =
      (text : Text) × (y.get_profile_config p w ≡ ok text) × (y.parse_config text ≡ some c)

  -- One attempt at a profile: its configuration is dialled, if there is one.
  pub data Attempt (p : Text) (w : y.World) : y.World → Type 0 where
    dials : (c : y.Config) → Holds p w c → Attempt p w (y.connect c w)
    unreadable : ((c : y.Config) → Holds p w c → ⊥) → Attempt p w w

  -- Attempts at a profile, with the delays that are left. They end with the shutdown of the process, which
  -- may cut a sleep short, with a tunnel that is not down, or, where no delay is left, with the latch.
  pub data Redials (p : Text) : List ℕ → Supervised y → Supervised y → Type 0 where
    cancelled : {ds : List ℕ} {s : Supervised y} → y.is_cancelled s.world ≡ true → Redials p ds s s
    held :
        {ds : List ℕ} {s : Supervised y} {w : y.World}
        → Attempt p s.world w
        → (Down (y.status w) → ⊥)
        → Redials p ds s (record s { world = w })
    gave_up :
        {s : Supervised y} {w : y.World}
        → Attempt p s.world w
        → Down (y.status w)
        → Redials p [] s (record { world = w; reconnect_suspended = true })
    interrupted :
        {d : ℕ} {ds : List ℕ} {s : Supervised y} {w : y.World}
        → Attempt p s.world w
        → Down (y.status w)
        → (y.sleep d w).0 ≡ true
        → Redials p (d ∷ ds) s (record s { world = (y.sleep d w).1 })
    again :
        {d : ℕ} {ds : List ℕ} {s t : Supervised y} {w : y.World}
        → Attempt p s.world w
        → Down (y.status w)
        → (y.sleep d w).0 ≡ false
        → Redials p ds (record s { world = (y.sleep d w).1 }) t
        → Redials p (d ∷ ds) s t

  try_connect-Attempt : (p : Text) (w : y.World) → Attempt p w (try_connect y p w)
  unfolding try_connect
  try_connect-Attempt p w = loaded (y.get_profile_config p w) refl
    where
      parsed :
          (text : Text) (o : Option y.Config)
          → y.get_profile_config p w ≡ ok text
          → y.parse_config text ≡ o
          → Attempt p w (connect_parsed y o w)
      parsed text none got is = Attempt.unreadable (λ c (other, got', is').
          (let same : text ≡ other = (let q : ok text ≡ ok other = cc in cc) in
            let clash : none ≡ some c = cc in cc))
      parsed text (some c) got is = Attempt.dials c (text, got, is)

      loaded : (r : Result Text) → y.get_profile_config p w ≡ r → Attempt p w (connect_loaded y r w)
      loaded (ok text) got = parsed text (y.parse_config text) got refl
      loaded (err e) got = Attempt.unreadable (λ c (text, got', is). cc)

  decide-Down : (c : ConnectionStatus) → decide c true ≡ reconnect → Down c
  unfolding decide
  decide-Down (error message) e = tt
  decide-Down disconnected e = tt
  decide-Down (connected info) e = cc
  decide-Down connecting e = cc
  decide-Down (mfa kind prompt) e = cc

  pub Down-decide : (c : ConnectionStatus) → Down c → decide c true ≡ reconnect
  unfolding decide
  Down-decide (error message) h = refl
  Down-decide disconnected h = refl
  Down-decide connecting h = absurd h
  Down-decide (connected info) h = absurd h
  Down-decide (mfa kind prompt) h = absurd h

  turn-Redials :
      (n f : ℕ) (p : Text) (s : Supervised y) (w : y.World) (rest : Supervised y → Run y)
      (a : SupervisorAction)
      → f + n ≡ 9
      → Attempt p s.world w
      → decide (y.status w) true ≡ a
      → ((m : ℕ) → n ≡ suc m → (t : Supervised y) → Redials p (schedule m (f + 1)) t (rest t).after)
      → Redials p (schedule n f) s (turn y a f (record s { world = w }) rest).after
  unfolding should_give_up
  turn-Redials n f p s w rest hold count tried is later =
      Redials.held tried (λ h. (let e = Down-decide (y.status w) h in cc))
  turn-Redials n f p s w rest idle count tried is later =
      Redials.held tried (λ h. (let e = Down-decide (y.status w) h in cc))
  turn-Redials zero f p s w rest reconnect count tried is later =
      let over : leb 10 (f + 1) ≡ true = ground (arith, count) in
      rw over (Redials.gave_up tried (decide-Down (y.status w) is))
  turn-Redials (suc n) f p s w rest reconnect count tried is later =
      let more : leb 10 (f + 1) ≡ false = ground (arith, count) in
      let d = backoff_delay f in
      let down = decide-Down (y.status w) is in
      rw more (elim (Bool-cases (y.sleep d w).0) [
        | inl k ↦ rw k (Redials.interrupted tried down k)
        | inr k ↦
            rw k (Redials.again tried down k (later n refl (record s { world = (y.sleep d w).1 })))
      ])

  attempts-Redials :
      (n f : ℕ) (p : Text) (s : Supervised y)
      → f + n ≡ 9
      → Redials p (schedule n f) s (attempts y (suc n) f p s).after
  unfolding attempts
  attempts-Redials zero f p s count = elim (Bool-cases (y.is_cancelled s.world)) [
    | inl e ↦ rw e (Redials.cancelled e)
    | inr e ↦ rw e (
        turn-Redials zero f p s (try_connect y p s.world) (attempts y zero (f + 1) p)
          (decide (y.status (try_connect y p s.world)) true) count (try_connect-Attempt p s.world)
          refl (λ m e t. cc))
  ]
  attempts-Redials (suc n) f p s count = elim (Bool-cases (y.is_cancelled s.world)) [
    | inl e ↦ rw e (Redials.cancelled e)
    | inr e ↦ rw e (
        turn-Redials (suc n) f p s (try_connect y p s.world) (attempts y (suc n) (f + 1) p)
          (decide (y.status (try_connect y p s.world)) true) count (try_connect-Attempt p s.world)
          refl
          (λ m e t.
            let same : n ≡ m = cc in
            rw (← same) (attempts-Redials n (f + 1) p t (omega (arith, count)))))
  ]

  abbrev pub delays : List ℕ
  delays = 2 ∷ 4 ∷ 8 ∷ 16 ∷ 32 ∷ 60 ∷ 60 ∷ 60 ∷ 60 ∷ []

  -- Whatever the tunnel does, `initiate_with_backoff` makes attempts at its profile, with at most nine sleeps
  -- of these lengths in between.
  pub initiate_with_backoff-Redials :
      (p : Text) (s : Supervised y) → Redials p delays s (initiate_with_backoff y p s).after
  unfolding initiate_with_backoff backoff_delay
  initiate_with_backoff-Redials p s = attempts-Redials 9 0 p s refl
