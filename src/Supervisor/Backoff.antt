-- ===== src/Supervisor/Backoff.antt =====
-- The bounds of the supervisor's retries, and its silence after it has given up (supervisor.rs).
use snx_edge.Common.{
  ℕ, zero, suc, ◌+◌, ◌≤◌, ◌≡◌, ◌≢◌, refl, ap, inl, inr, Bool, true, false, List, [], ◌∷◌, Option,
  none, some, Text, leb, arith, Bool-cases,
}
use snx_edge.Users.Store.{Db}
use snx_edge.Supervisor.{
  ConnectionStatus, connected, connecting, disconnected, mfa, error, SupervisorAction, reconnect,
  hold, idle, decide, max_reconnect_attempts, should_give_up, backoff_delay, System, Supervised,
  Ending, Run, try_connect, turn, ended, slept, attempts, initiate_with_backoff, desired_profile,
  reconnect_wanted, unsuspended, on_connection_status,
}

abbrev pub total : List ℕ → ℕ
total [] = 0
total (d ∷ ds) = d + total ds

-- The next `n` delays from the failure `f` on.
abbrev pub schedule : ℕ → ℕ → List ℕ
schedule zero f = []
schedule (suc n) f = backoff_delay f ∷ schedule n (f + 1)

module _ (y : System) where
  -- What the rest of the loop promises, with `n` sleeps to go from the failure `f`.
  record Promise (n f : ℕ) (suspended : Bool) (r : Run y) : Type 0 where
    ends : r.ending ≢ Ending.out_of_fuel
    slept_at_most : total r.delays ≤ total (schedule n f)
    gives_up :
        r.ending ≡ Ending.gave_up
        → (r.after.reconnect_suspended ≡ true)
          × (r.delays ≡ schedule n f)
          × (decide (y.status r.after.world) true ≡ reconnect)
    holds :
        r.ending ≡ Ending.held
        → (decide (y.status r.after.world) true ≡ hold) × (r.after.reconnect_suspended ≡ suspended)

  cancelled_now :
      (n f : ℕ) (s : Supervised y) → Promise n f s.reconnect_suspended (ended y Ending.cancelled s)
  cancelled_now n f s = record {
    ends = λ e. cc;
    slept_at_most = omega arith;
    gives_up = λ e. cc;
    holds = λ e. cc;
  }

  decide_never_idle : (c : ConnectionStatus) → decide c true ≢ idle
  unfolding decide
  decide_never_idle (connected info) e = cc
  decide_never_idle connecting e = cc
  decide_never_idle (mfa kind prompt) e = cc
  decide_never_idle (error message) e = cc
  decide_never_idle disconnected e = cc

  given_up :
      (f : ℕ) (s : Supervised y)
      → decide (y.status s.world) true ≡ reconnect
      → (b : Bool)
      → Promise zero f b (ended y Ending.gave_up (record s { reconnect_suspended = true }))
  given_up f s e b = record {
    ends = λ q. cc;
    slept_at_most = omega arith;
    gives_up = λ q. (refl, refl, e);
    holds = λ q. cc;
  }

  held_now :
      (n f : ℕ) (s : Supervised y)
      → decide (y.status s.world) true ≡ hold
      → Promise n f s.reconnect_suspended (ended y Ending.held s)
  held_now n f s e = record {
    ends = λ q. cc;
    slept_at_most = omega arith;
    gives_up = λ q. cc;
    holds = λ q. (e, refl);
  }

  after_sleep :
      (n f : ℕ) (b : Bool) (r : Run y)
      → Promise n (f + 1) b r
      → Promise (suc n) f b (slept y (backoff_delay f) r)
  after_sleep n f b r h = record {
    ends = h.ends;
    slept_at_most = (let rest = h.slept_at_most in omega (arith, rest));
    gives_up = λ q.
        (let (latched, all, terminal) = h.gives_up q in
          (latched, ap (λ ds. backoff_delay f ∷ ds) all, terminal));
    holds = h.holds;
  }

  last-turn :
      (a : SupervisorAction) (s : Supervised y) (rest : Supervised y → Run y)
      → decide (y.status s.world) true ≡ a
      → Promise 0 9 s.reconnect_suspended (turn y a 9 s rest)
  unfolding should_give_up
  last-turn hold s rest e = held_now 0 9 s e
  last-turn idle s rest e = absurd (decide_never_idle (y.status s.world) e)
  last-turn reconnect s rest e = given_up 9 s e s.reconnect_suspended

  next-turn :
      (a : SupervisorAction) (n f : ℕ) (s : Supervised y) (rest : Supervised y → Run y)
      → f + suc n ≡ 9
      → decide (y.status s.world) true ≡ a
      → ((s2 : Supervised y) → Promise n (f + 1) s2.reconnect_suspended (rest s2))
      → Promise (suc n) f s.reconnect_suspended (turn y a f s rest)
  unfolding should_give_up
  next-turn hold n f s rest count e later = held_now (suc n) f s e
  next-turn idle n f s rest count e later = absurd (decide_never_idle (y.status s.world) e)
  next-turn reconnect n f s rest count e later =
      let more : leb max_reconnect_attempts (f + 1) ≡ false = ground (arith, count) in
      let d = backoff_delay f in
      let s2 : Supervised y = record s { world = (y.sleep d s.world).1 } in
      rw more (elim (Bool-cases (y.sleep d s.world).0) [
        | inl k ↦ rw k (cancelled_now (suc n) f s2)
        | inr k ↦ rw k (after_sleep n f s.reconnect_suspended (rest s2) (later s2))
      ])

  attempts-Promise :
      (n f : ℕ) (p : Text) (s : Supervised y)
      → f + n ≡ 9
      → Promise n f s.reconnect_suspended (attempts y (suc n) f p s)
  unfolding attempts
  attempts-Promise zero f p s count = elim (Bool-cases (y.is_cancelled s.world)) [
    | inl e ↦ rw e (cancelled_now zero f s)
    | inr e ↦
        (let tried : Supervised y = record s { world = try_connect y p s.world } in
          let nine : f ≡ 9 = omega (arith, count) in
          rw e (
            rw nine (
              last-turn (decide (y.status tried.world) true) tried (attempts y zero (9 + 1) p)
                refl)))
  ]
  attempts-Promise (suc n) f p s count = elim (Bool-cases (y.is_cancelled s.world)) [
    | inl e ↦ rw e (cancelled_now (suc n) f s)
    | inr e ↦
        (let tried : Supervised y = record s { world = try_connect y p s.world } in
          rw e (
            next-turn (decide (y.status tried.world) true) n f tried (attempts y (suc n) (f + 1) p)
              count refl (λ s2. attempts-Promise n (f + 1) p s2 (omega (arith, count)))))
  ]

  -- Whatever the tunnel does, `initiate_with_backoff` ends within ten attempts, and the delays
  -- that it has slept come to 302 seconds at most.
  pub initiate_with_backoff-ends :
      (p : Text) (s : Supervised y)
      → ((initiate_with_backoff y p s).ending ≢ Ending.out_of_fuel)
        × (total (initiate_with_backoff y p s).delays ≤ 302)
  unfolding initiate_with_backoff backoff_delay
  initiate_with_backoff-ends p s =
      let h = attempts-Promise 9 0 p s refl in (h.ends, h.slept_at_most)

  -- When `initiate_with_backoff` gives up, the latch is set and it has slept 2, 4, 8, 16, 32, 60,
  -- 60, 60 and 60 seconds.
  pub initiate_with_backoff-gives_up :
      (p : Text) (s : Supervised y)
      → (initiate_with_backoff y p s).ending ≡ Ending.gave_up
      → ((initiate_with_backoff y p s).after.reconnect_suspended ≡ true)
        × ((initiate_with_backoff y p s).delays ≡ 2 ∷ 4 ∷ 8 ∷ 16 ∷ 32 ∷ 60 ∷ 60 ∷ 60 ∷ 60 ∷ [])
  unfolding initiate_with_backoff backoff_delay
  initiate_with_backoff-gives_up p s e =
      let (latched, all, _) = (attempts-Promise 9 0 p s refl).gives_up e in (latched, all)

  -- The events of a supervisor, each with the store as it is then.
  abbrev pub on_all : List Db → Supervised y → Supervised y
  on_all [] s = s
  on_all (db ∷ dbs) s = on_all dbs (on_connection_status y db s)

  suspended-stays :
      (db : Db) (s : Supervised y)
      → s.reconnect_suspended ≡ true
      → decide (y.status s.world) true ≡ reconnect
      → on_connection_status y db s ≡ s
  unfolding on_connection_status decide
  suspended-stays db s latched down = go (y.status s.world) (desired_profile y db) down
    where
      go :
          (c : ConnectionStatus) (o : Option Text)
          → decide c true ≡ reconnect
          → reconnect_wanted y o (decide c true) (unsuspended y c s) ≡ s
      go (connected info) o e = unfold decide in cc
      go connecting o e = unfold decide in cc
      go (mfa kind prompt) o e = unfold decide in cc
      go (error message) none e = unfold decide in refl
      go (error message) (some p) e = unfold decide in (rw latched refl)
      go disconnected none e = unfold decide in refl
      go disconnected (some p) e = unfold decide in (rw latched refl)

  -- Once `initiate_with_backoff` has given up, no number of connection events changes the
  -- supervisor's state or makes it try again, whatever the store says of the desired profile,
  -- while nothing else changes the tunnel.
  pub gave_up-stays :
      (p : Text) (s : Supervised y) (dbs : List Db)
      → (initiate_with_backoff y p s).ending ≡ Ending.gave_up
      → on_all dbs (initiate_with_backoff y p s).after ≡ (initiate_with_backoff y p s).after
  unfolding initiate_with_backoff
  gave_up-stays p s dbs e =
      let (latched, _, down) = (attempts-Promise 9 0 p s refl).gives_up e in
      all dbs (attempts y 10 0 p s).after latched down
    where
      all :
          (dbs : List Db) (t : Supervised y)
          → t.reconnect_suspended ≡ true
          → decide (y.status t.world) true ≡ reconnect
          → on_all dbs t ≡ t
      all [] t latched down = refl
      all (db ∷ dbs) t latched down =
          rw (suspended-stays db t latched down) (all dbs t latched down)
