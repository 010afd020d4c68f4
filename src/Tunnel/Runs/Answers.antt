-- ===== src/Tunnel/Runs/Answers.antt =====
-- The answer to a challenge keeps the invariant.
use snx_edge.Common.{
  ◌≡◌, refl, sym, ap, ◌∙◌, ◌⊎◌, inl, inr, Bool, true, false, [], Option, none, some, Text,
}
use snx_edge.Supervisor.{ConnectionStatus}
use snx_edge.Tunnel.{
  Core, TunnelManager, Reply, replied, refused, outcome, Outcome, done, failed, then_run, needed,
  no_connector, no_session, is_running, is_disconnected, challenged, adopt, submit, submit_on,
  answered, challenge_code, ◌>>=◌,
}
use snx_edge.Tunnel.Runs.Invariant.{IsValid, Begun, pending_of, challenged-Begun}

module _ (c : Core) where
  pub world-IsValid :
      (s : TunnelManager c) (w : c.World) → IsValid c s → IsValid c (record s { world = w })
  world-IsValid s w (inl q) = inl (record {
    none_running = q.none_running;
    at_rest = q.at_rest;
    released = q.released;
    cleared = q.cleared;
  })
  world-IsValid s w (inr l) = inr (record {
    handler = l.handler;
    one_running = l.one_running;
    underway = l.underway;
    tracked = l.tracked;
    unclaimed = l.unclaimed;
    no_pending = l.no_pending;
  })

  module _ (s : TunnelManager c) (v : IsValid c s) where
    -- A session with a challenge is at rest, with the flag down.
    waiting :
        (x : c.Session) (p : Text × Text)
        → s.session ≡ some x
        → c.pending x ≡ some p
        → (s.running ≡ [])
          × (is_running s.status ≡ false)
          × (s.disconnect_initiated ≡ false)
          × (is_disconnected s.status ≡ false)
    waiting x p held asked = go v
      where
        not_disconnected :
            (b : Bool) → (b ≡ true → (s.session ≡ none) × (s.connector ≡ none)) → b ≡ false
        not_disconnected true h = cc (held, (h refl).0)
        not_disconnected false h = refl

        down :
            (s.disconnect_initiated ≡ false) ⊎ (s.session ≡ none) → s.disconnect_initiated ≡ false
        down (inl e) = e
        down (inr e) = cc (held, e)

        go :
            IsValid c s
            → (s.running ≡ [])
              × (is_running s.status ≡ false)
              × (s.disconnect_initiated ≡ false)
              × (is_disconnected s.status ≡ false)
        go (inl q) = (
          q.none_running,
          q.at_rest,
          down q.cleared,
          not_disconnected (is_disconnected s.status) q.released,
        )
        go (inr l) =
            let contra : some p ≡ none = sym asked ∙ sym (ap (pending_of c) held) ∙ l.no_pending in
            cc contra

    submit-IsValid :
        (code : Text) (x : c.Session) (p : Text × Text)
        → s.session ≡ some x
        → c.pending x ≡ some p
        → IsValid c (submit c code x s).1
    submit-IsValid code x p held asked = with_connector s.connector
      where
        ended :
            (t : TunnelManager c) (r : Outcome ConnectionStatus × TunnelManager c)
            → t.status ≡ s.status
            → Begun c t r
            → IsValid c r.1
        ended t (done status, u) same h = h
        ended t (failed e, u) same (none_running, down, kept) =
            let (_, rest, _, apart) = waiting x p held asked in
            let status : u.status ≡ s.status = kept ∙ same in
            inl (record {
              none_running = none_running;
              at_rest = rw status rest;
              released = λ h. cc (h, ap is_disconnected status, apart);
              cleared = inl down;
            })

        received :
            (q : Reply c.Session × c.World)
            → IsValid c
                (then_run c
                  (outcome q.0)
                  (λ next. ◌>>=◌ c (adopt c next none) (λ _. challenged c next (c.pending next)))
                  (record s { world = q.1 })).1
        received (refused e, w) = world-IsValid s w v
        received (replied next, w) =
            let (none_running, _, down, _) = waiting x p held asked in
            let t = record s { world = w; session = some next } in
            ended t (challenged c next (c.pending next) t) refl
              (challenged-Begun c t next none_running down refl (c.pending next) refl)

        with_connector :
            (o : Option c.Connector)
            → IsValid c ((◌>>=◌ c (needed c no_connector o) (submit_on c code x)) s).1
        with_connector none = v
        with_connector (some k) = received (c.challenge_code k x code s.world)

    pub challenge_code-IsValid : (code : Text) → IsValid c (challenge_code c code s).1
    unfolding challenge_code
    challenge_code-IsValid code = with_session s.session refl
      where
        with_answer :
            (x : c.Session) (o : Option (Text × Text))
            → s.session ≡ some x
            → c.pending x ≡ o
            → IsValid c (answered c code x o s).1
        with_answer x none held e = v
        with_answer x (some p) held e = submit-IsValid code x p held e

        with_session :
            (o : Option c.Session)
            → s.session ≡ o
            → IsValid c
                ((◌>>=◌ c (needed c no_session o) (λ x. answered c code x (c.pending x))) s).1
        with_session none e = v
        with_session (some x) e = with_answer x (c.pending x) e refl
