-- ===== src/Auth/Sessions.antt =====
-- The requests of api/auth.rs and the cache of token generations.
use snx_edge.Common.{
  ℕ, refl, Option, none, some, Text, codes, text_eq, ltb, leb, ◌==◌, strip_prefix,
}
use snx_edge.Errors.{unauthorized, internal, return, fail, ok_or}
use snx_edge.Users.Store.{
  Bcrypt, bcrypt_cost, get_user_by_id, get_user_by_username, get_token_generation,
  reset_failed_logins, record_failed_login, set_password_hash_silent,
}
use snx_edge.Users.Rows.{create_session, delete_session, session_exists}
use snx_edge.Auth.Permissions.{Claims}
use snx_edge.Auth.Server.{
  Clock, Process, query, lookup_token_generation, decode_token, check_generation, require_auth,
}
use snx_edge.Auth.Login.{
  Sender, Ids, access_claims, refresh_claims, refresh_exp, issue_tokens, store_hash, rehash_below,
  rehash_if_outdated, check_lock, wrong_password, welcome, login, refresh,
}
use snx_edge.Auth.Coherent.{Keeps, bind-Keeps, lift-Keeps, if-Keeps, guard-Keeps, query-Keeps}
use snx_edge.Auth.Writes.{
  reset_failed_logins-Steady, set_password_hash_silent-Steady, record_failed_login-Steady,
  create_session-Steady,
}
use snx_edge.Auth.CacheSteps.{read-Keeps, map_err-Keeps, swallow-Keeps, lookup-Keeps}

check_generation-Keeps :
    (p : Process) (t : Clock) (claims : Claims) → Keeps (check_generation p t claims)
unfolding check_generation
check_generation-Keeps p t claims =
    if-Keeps p.config.enforce_token_generation _ (return tt)
      (bind-Keeps (lookup_token_generation t claims.sub) _ (lookup-Keeps t claims.sub)
        (λ current. guard-Keeps (current == claims.token_generation) unauthorized tt))
      (λ s h. h)

pub require_auth-Keeps :
    (p : Process) (t : Clock) (header : Option Text) → Keeps (require_auth p t header)
unfolding require_auth
require_auth-Keeps p t header = bind-Keeps _ _ (lift-Keeps (ok_or unauthorized header)) (λ value.
    bind-Keeps _ _ (lift-Keeps (ok_or unauthorized (strip_prefix (codes "Bearer ") value)))
      (λ token. bind-Keeps _ _ (lift-Keeps (decode_token p t token)) (λ claims.
        bind-Keeps _ _ (guard-Keeps (text_eq claims.token_type (codes "access")) unauthorized tt)
          (λ _. bind-Keeps _ _ (check_generation-Keeps p t claims) (λ _ s h. h)))))

pub issue_tokens-Keeps :
    (p : Process) (t : Clock) (ids : Ids) (sender : Sender) (i role : Text)
    → Keeps (issue_tokens p t ids sender i role)
unfolding issue_tokens
issue_tokens-Keeps p t ids sender i role =
    bind-Keeps _ _ (read-Keeps (get_token_generation i) (λ db. unfold get_token_generation in refl))
      (λ generation.
        bind-Keeps _ _
          (lift-Keeps (ok_or unauthorized (p.jwt.encode (access_claims p t ids i role generation))))
          (λ access.
            bind-Keeps _ _
              (lift-Keeps
                (ok_or unauthorized (p.jwt.encode (refresh_claims p t ids i role generation))))
              (λ refresh.
                bind-Keeps _ _
                  (query-Keeps
                    (create_session ids.refresh_jti i sender.ip sender.user_agent (refresh_exp p t)
                      t.utc)
                    (create_session-Steady ids.refresh_jti i sender.ip sender.user_agent
                      (refresh_exp p t) t.utc))
                  (λ _ s h. h))))

rehash-Keeps :
    (b : Bcrypt) (i plaintext hash : Text) → Keeps (rehash_if_outdated b i plaintext hash)
unfolding rehash_if_outdated
rehash-Keeps b i plaintext hash = go (b.cost hash)
  where
    store : (o : Option Text) → Keeps (store_hash i o)
    store none = λ s h. h
    store (some h) =
        swallow-Keeps _
          (query-Keeps (set_password_hash_silent i h) (set_password_hash_silent-Steady i h))

    go : (o : Option ℕ) → Keeps (rehash_below b i plaintext o)
    go none = λ s h. h
    go (some cost) =
        if-Keeps (leb bcrypt_cost cost) (return tt) (store_hash i (b.hash plaintext bcrypt_cost))
          (λ s h. h) (store (b.hash plaintext bcrypt_cost))

reset-Keeps : (i : Text) → Keeps (query (reset_failed_logins i))
reset-Keeps i = query-Keeps (reset_failed_logins i) (reset_failed_logins-Steady i)

check_lock-Keeps : (t : Clock) (i : Text) (o : Option ℕ) → Keeps (check_lock t i o)
unfolding check_lock
check_lock-Keeps t i none = λ s h. h
check_lock-Keeps t i (some until) =
    if-Keeps (ltb t.utc until) (fail unauthorized) _ (λ s h. h) (reset-Keeps i)

pub login-Keeps :
    (p : Process) (t : Clock) (ids : Ids) (sender : Sender) (name password : Text)
    → Keeps (login p t ids sender name password)
unfolding login welcome wrong_password
login-Keeps p t ids sender name password =
    bind-Keeps _ _
      (map_err-Keeps unauthorized _
        (read-Keeps (get_user_by_username name) (λ db. unfold get_user_by_username in refl)))
      (λ u. bind-Keeps _ _ (check_lock-Keeps t u.id u.locked_until) (λ _.
        bind-Keeps _ _ (guard-Keeps u.enabled unauthorized tt) (λ _.
          bind-Keeps _ _ (lift-Keeps (ok_or internal (p.bcrypt.verify password u.password_hash)))
            (λ valid.
              if-Keeps valid _ _
                (bind-Keeps _ _ (reset-Keeps u.id) (λ _.
                  bind-Keeps _ _ (rehash-Keeps p.bcrypt u.id password u.password_hash)
                    (λ _. issue_tokens-Keeps p t ids sender u.id u.role)))
                (bind-Keeps _ _
                  (query-Keeps
                    (record_failed_login u.id p.config.max_login_attempts
                      p.config.lockout_duration_minutes t.utc)
                    (record_failed_login-Steady u.id p.config.max_login_attempts
                      p.config.lockout_duration_minutes t.utc))
                  (λ _ s h. h))))))

pub refresh-Keeps :
    (p : Process) (t : Clock) (ids : Ids) (sender : Sender) (token : Text)
    → Keeps (refresh p t ids sender token)
unfolding refresh
refresh-Keeps p t ids sender token = bind-Keeps _ _ (lift-Keeps (decode_token p t token)) (λ claims.
    bind-Keeps _ _ (guard-Keeps (text_eq claims.token_type (codes "refresh")) unauthorized tt) (λ _.
      bind-Keeps _ _
        (read-Keeps (session_exists claims.jti t.utc) (λ db. unfold session_exists in refl))
        (λ live. bind-Keeps _ _ (guard-Keeps live unauthorized tt) (λ _.
          bind-Keeps _ _
            (read-Keeps (delete_session claims.jti) (λ db. unfold delete_session in refl))
            (λ _.
              bind-Keeps _ _
                (read-Keeps (get_user_by_id claims.sub) (λ db. unfold get_user_by_id in refl))
                (λ u.
                  bind-Keeps _ _ (guard-Keeps u.enabled unauthorized tt)
                    (λ _. issue_tokens-Keeps p t ids sender u.id u.role)))))))
