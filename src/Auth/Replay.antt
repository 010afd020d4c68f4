-- ===== src/Auth/Replay.antt =====
-- A refresh token serves once (refresh of api/auth.rs).
use snx_edge.Common.{
  ℕ, ◌≡◌, refl, ap, ◌∙◌, inl, inr, Bool, false, not, ◌&&◌, ◌||◌, List, [], ◌∷◌, ◌++◌, Option, none,
  some, Text, codes, text_eq, any, ltb, arith, Bool-cases, any-keep-not, if◌then◌else◌,
}
use snx_edge.Errors.{unauthorized, ok, err, M, ◌>>=◌, ◌>>◌, return, fail, bind-ok, guard-state}
use snx_edge.Users.Store.{User, Session, Db, has_id, get_user_by_id}
use snx_edge.Users.Rows.{create_session, delete_session, session_exists}
use snx_edge.Auth.Permissions.{Claims}
use snx_edge.Auth.Server.{Server, Clock, Process, query, decode_token}
use snx_edge.Auth.Login.{
  Sender, Ids, TokenResponse, refresh_exp, issue_tokens, require_enabled, refresh,
}
use snx_edge.Auth.Issue.{issue_tokens-access}

abbrev is_session : Text → Session → Bool
is_session jti s = text_eq s.session_id jti

any-live :
    (jti : Text) (now : ℕ) (xs : List Session)
    → any (is_session jti) xs ≡ false
    → any (λ s. text_eq s.session_id jti && ltb now s.expires_at) xs ≡ false
any-live jti now [] h = refl
any-live jti now (x ∷ xs) h = ground (arith, any-live jti now xs)

any-last :
    (p : Session → Bool) (xs : List Session) (x : Session)
    → any p xs ≡ false
    → p x ≡ false
    → any p (xs ++ x ∷ []) ≡ false
any-last p [] x h k = rw k refl
any-last p (y ∷ ys) x h k = ground (arith, any-last p ys x)

create_session-fresh :
    (jti fresh owner : Text) (ip agent : Option Text) (expires now : ℕ) (db : Db)
    → any (is_session jti) db.sessions ≡ false
    → text_eq fresh jti ≡ false
    → any (is_session jti) (create_session fresh owner ip agent expires now db).1.sessions ≡ false
unfolding create_session
create_session-fresh jti fresh owner ip agent expires now db gone other =
    elim (Bool-cases
      (any (λ s. text_eq s.session_id fresh) db.sessions || not (any (has_id owner) db.users))) [
        | inl e ↦ rw e gone
        | inr e ↦ rw e (any-last (is_session jti) db.sessions _ gone other)
      ]

-- The session of the token is gone after a refresh that succeeds.
refresh-spends :
    (p : Process) (t : Clock) (ids : Ids) (sender : Sender) (token : Text) (claims : Claims)
    (s : Server) (r : TokenResponse)
    → p.jwt.decode t.utc token ≡ some claims
    → text_eq ids.refresh_jti claims.jti ≡ false
    → (refresh p t ids sender token s).0 ≡ ok r
    → any (is_session claims.jti) (refresh p t ids sender token s).1.db.sessions ≡ false
unfolding refresh decode_token session_exists delete_session get_user_by_id
refresh-spends p t ids sender token claims s r decoded other done =
    let first = rw decoded at done in
    let kind : M Server (Unit {0}) =
      if text_eq claims.token_type (codes "refresh") then return tt else fail unauthorized in
    let enabled_only : User → M Server TokenResponse =
      λ u. require_enabled u >> issue_tokens p t ids sender u.id u.role in
    let found_only : M Server TokenResponse = query (get_user_by_id claims.sub) >>= enabled_only in
    let used : M Server TokenResponse = query (delete_session claims.jti) >> found_only in
    let checked : Bool → M Server TokenResponse =
      λ live. (if live then return tt else fail unauthorized) >> used in
    let asked : M Server TokenResponse = query (session_exists claims.jti t.utc) >>= checked in
    let (_, _, h2, to2) = bind-ok kind (λ _. asked) s r first in
    let s2 = (kind s).1 in
    let (live, _, h3, to3) = bind-ok (query (session_exists claims.jti t.utc)) checked s2 r h2 in
    let alive : M Server (Unit {0}) = if live then return tt else fail unauthorized in
    let (_, _, h4, to4) = bind-ok alive (λ _. used) s2 r h3 in
    let s4 = (alive s2).1 in
    let (_, _, h5, to5) = bind-ok (query (delete_session claims.jti)) (λ _. found_only) s4 r h4 in
    let s5 = (query (delete_session claims.jti) s4).1 in
    let (u, _, h6, to6) = bind-ok (query (get_user_by_id claims.sub)) enabled_only s5 r h5 in
    let (_, _, h7, to7) = bind-ok (require_enabled u) _ s5 r h6 in
    let s7 = (require_enabled u s5).1 in
    let (_, _, _, opened) = issue_tokens-access p t ids sender u.id u.role s7 r h7 in
    let same : s7 ≡ s5 = guard-state u.enabled tt unauthorized s5 in
    rw decoded (
      ap (λ x. any (is_session claims.jti) x.db.sessions)
        (to2 ∙ to3 ∙ to4 ∙ to5 ∙ to6 ∙ to7 ∙ opened)
      ∙ create_session-fresh claims.jti ids.refresh_jti u.id sender.ip sender.user_agent
          (refresh_exp p t) t.utc s7.db
          (rw same (any-keep-not (is_session claims.jti) s4.db.sessions)) other)

-- A refresh token that `refresh` has taken once is refused when it comes again, at any time, if
-- the new session has another id and the token never reads as other claims.
pub refresh-once :
    (p : Process) (t later : Clock) (ids again : Ids) (sender other : Sender) (token : Text)
    (claims : Claims) (s : Server) (r : TokenResponse)
    → p.jwt.decode t.utc token ≡ some claims
    → ((c : Claims) → p.jwt.decode later.utc token ≡ some c → c ≡ claims)
    → text_eq ids.refresh_jti claims.jti ≡ false
    → (refresh p t ids sender token s).0 ≡ ok r
    → (refresh p later again other token (refresh p t ids sender token s).1).0 ≡ err unauthorized
unfolding session_exists decode_token
refresh-once p t later ids again sender other token claims s r decoded same fresh done =
    go (p.jwt.decode later.utc token) refl
  where
    spent : Server
    spent = (refresh p t ids sender token s).1

    refused :
        any (λ r. text_eq r.session_id claims.jti && ltb later.utc r.expires_at) spent.db.sessions
        ≡ false
    refused =
        any-live claims.jti later.utc spent.db.sessions
          (refresh-spends p t ids sender token claims s r decoded fresh done)

    go :
        (o : Option Claims)
        → p.jwt.decode later.utc token ≡ o
        → (refresh p later again other token spent).0 ≡ err unauthorized
    go none e = unfold refresh decode_token in (rw e refl)
    go (some c) e =
        unfold refresh decode_token session_exists in
        (rw (e, same c e)
          (elim (Bool-cases (text_eq claims.token_type (codes "refresh"))) [
            | inl k ↦ rw (k, refused) refl
            | inr k ↦ rw k refl
          ]))
