-- ===== src/Auth/Requests.antt =====
-- Every request leaves the cache of token generations coherent: the handlers of api/auth.rs and
-- api/users.rs, one after the other.
use snx_edge.Common.{ℕ, refl, List, [], ◌∷◌, Option, none, some, Text, codes, text_eq, ltb}
use snx_edge.Errors.{
  unauthorized, forbidden, conflict, internal, bad_request, not_found, Result, ok, err, M, ◌>>=◌,
  return, fail, lift, ok_or,
}
use snx_edge.Users.Store.{
  User, Db, Bcrypt, bcrypt_cost, has_id, generation_of, get_user_by_id, get_user_by_username,
  get_token_generation, reset_failed_logins, record_failed_login, set_password_hash_silent,
  bump_token_generation,
}
use snx_edge.Users.Store
use snx_edge.Users.Rows.{delete_session, session_owner, delete_user_sessions}
use snx_edge.Auth.Permissions.{Claims, require_permission, validate_role, role_level}
use snx_edge.Auth.Server.{
  Server, Clock, Process, query, attempt, refresh_token_generation_cache, require_auth,
}
use snx_edge.Auth.Login.{Sender, Ids, login, refresh}
use snx_edge.Auth.Handlers.{
  CreateUserRequest, UpdateUserRequest, ChangePasswordRequest, check_level, check_role,
  check_current, check_caller, set_password, bump_owner, create_user, update_user, delete_user,
  change_user_password, change_my_password, revoke_session, revoke_user_tokens,
}
use snx_edge.Auth.Coherent.{
  Coherent, CoherentBut, Ends, Triple, Keeps, bind-Triple, bind-Keeps, lift-Keeps, if-Keeps,
  guard-Keeps, query-Keeps, attempt-Keeps, refresh-Triple, evict-Triple,
}
use snx_edge.Auth.Writes.{
  create_user-Steady, Written, Bumped, update_user-Triple, change_password-Triple,
  delete_user-Triple, bump-Triple,
}
use snx_edge.Auth.CacheSteps.{read-Keeps, recache-Triple, bump_and_cache-Keeps}
use snx_edge.Auth.Sessions.{require_auth-Keeps, login-Keeps, refresh-Keeps}

check_level-Keeps : (claims : Claims) (role : Text) → Keeps (check_level claims role)
check_level-Keeps claims role =
    if-Keeps (ltb (role_level claims.role) (role_level role)) (fail forbidden) (return tt)
      (λ s h. h) (λ s h. h)

create_user-Keeps :
    (p : Process) (t : Clock) (i : Text) (claims : Claims) (req : CreateUserRequest)
    → Keeps (create_user p t i claims req)
unfolding create_user
create_user-Keeps p t i claims req =
    bind-Keeps _ _ (lift-Keeps (require_permission claims (codes "users.create"))) (λ _.
      bind-Keeps _ _ (lift-Keeps (validate_role req.role)) (λ _.
        bind-Keeps _ _ (check_level-Keeps claims req.role) (λ _.
          query-Keeps
            (Store.create_user p.bcrypt i t.utc req.username req.password req.role req.comment)
            (create_user-Steady p.bcrypt i t.utc req.username req.password req.role req.comment))))

check_role-Keeps : (claims : Claims) (o : Option Text) → Keeps (check_role claims o)
check_role-Keeps claims none = λ s h. h
check_role-Keeps claims (some role) =
    bind-Keeps _ _ (lift-Keeps (validate_role role)) (λ _. check_level-Keeps claims role)

update_user-Keeps :
    (t : Clock) (claims : Claims) (i : Text) (req : UpdateUserRequest)
    → Keeps (update_user t claims i req)
unfolding update_user
update_user-Keeps t claims i req =
    bind-Keeps _ _ (lift-Keeps (require_permission claims (codes "users.update"))) (λ _.
      bind-Keeps _ _ (check_role-Keeps claims req.new_role) (λ _.
        bind-Triple Coherent (λ u. Written i) (λ _. Coherent) _ _
          (update_user-Triple i req.new_role req.new_comment req.new_enabled t.utc)
          (λ u.
            bind-Triple (Written i) (λ _. Coherent) (λ _. Coherent) _ _ (recache-Triple t i)
              (λ _ s h. h))))

delete_user-Keeps : (t : Clock) (claims : Claims) (i : Text) → Keeps (delete_user t claims i)
unfolding delete_user
delete_user-Keeps t claims i =
    bind-Keeps _ _ (lift-Keeps (require_permission claims (codes "users.delete"))) (λ _.
      bind-Keeps _ _
        (if-Keeps (text_eq claims.sub i) (fail conflict) (return tt) (λ s h. h) (λ s h. h))
        (λ _.
          bind-Triple Coherent (λ _. CoherentBut i) (λ _. Coherent) _ _ (delete_user-Triple i)
            (λ _. evict-Triple t i)))

check_current-Keeps :
    (b : Bcrypt) (i : Text) (given : Option Text) → Keeps (check_current b i given)
unfolding check_current
check_current-Keeps b i given = bind-Keeps _ _ (lift-Keeps (ok_or bad_request given)) (λ current.
    bind-Keeps _ _ (read-Keeps (get_user_by_id i) (λ db. unfold get_user_by_id in refl)) (λ u.
      bind-Keeps _ _ (lift-Keeps (ok_or internal (b.verify current u.password_hash)))
        (λ valid. guard-Keeps valid unauthorized tt)))

set_password-Keeps :
    (b : Bcrypt) (t : Clock) (i password : Text) → Keeps (set_password b t i password)
unfolding set_password delete_user_sessions
set_password-Keeps b t i password =
    bind-Triple Coherent (λ _. Written i) (λ _. Coherent) _ _
      (change_password-Triple b i password t.utc)
      (λ _.
        bind-Triple (Written i) (λ _. Written i) (λ _. Coherent) (query (delete_user_sessions i)) _
          (λ s w. w) (λ _. recache-Triple t i))

check_caller-Keeps :
    (b : Bcrypt) (claims : Claims) (i : Text) (given : Option Text)
    → Keeps (check_caller b claims i given)
check_caller-Keeps b claims i given =
    if-Keeps (text_eq claims.sub i) _ _ (check_current-Keeps b claims.sub given)
      (guard-Keeps (text_eq claims.role (codes "admin")) forbidden tt)

change_user_password-Keeps :
    (b : Bcrypt) (t : Clock) (claims : Claims) (i : Text) (req : ChangePasswordRequest)
    → Keeps (change_user_password b t claims i req)
unfolding change_user_password
change_user_password-Keeps b t claims i req =
    bind-Keeps _ _ (check_caller-Keeps b claims i req.current_password)
      (λ _. set_password-Keeps b t i req.new_password)

change_my_password-Keeps :
    (b : Bcrypt) (t : Clock) (claims : Claims) (req : ChangePasswordRequest)
    → Keeps (change_my_password b t claims req)
unfolding change_my_password
change_my_password-Keeps b t claims req =
    bind-Keeps _ _ (check_current-Keeps b claims.sub req.current_password)
      (λ _. set_password-Keeps b t claims.sub req.new_password)

revoke_session-Keeps : (t : Clock) (claims : Claims) (i : Text) → Keeps (revoke_session t claims i)
unfolding revoke_session
revoke_session-Keeps t claims i =
    bind-Keeps _ _ (lift-Keeps (require_permission claims (codes "users.sessions"))) (λ _.
      bind-Keeps (attempt (query (session_owner i))) _
        (attempt-Keeps (query (session_owner i))
          (read-Keeps (session_owner i) (λ db. unfold session_owner in refl)))
        (λ owner.
          bind-Keeps _ _ (read-Keeps (delete_session i) (λ db. unfold delete_session in refl))
            (λ _. bump_owner-Keeps owner)))
  where
    bump_owner-Keeps : (o : Result (Option Text)) → Keeps (bump_owner t o)
    bump_owner-Keeps (ok (some owner)) = bump_and_cache-Keeps t owner
    bump_owner-Keeps (ok none) = λ s h. h
    bump_owner-Keeps (err e) = λ s h. h

revoke_user_tokens-Keeps :
    (t : Clock) (claims : Claims) (i : Text) → Keeps (revoke_user_tokens t claims i)
unfolding revoke_user_tokens
revoke_user_tokens-Keeps t claims i =
    bind-Keeps _ _ (guard-Keeps (text_eq claims.role (codes "admin")) forbidden tt) (λ _ s h.
      let (o, e, b) = bump-Triple i s h in rw e (go o (query (bump_token_generation i) s).1 b))
  where
    go :
        (o : Option ℕ)
        → Triple
            (Bumped i o)
            (lift (ok_or not_found o) >>= λ g. refresh_token_generation_cache t i (some g))
            (λ _. Coherent)
    go none s h = h
    go (some g) s (but, here) = refresh-Triple t i g s (but, here)

-- A request to the server, with the claims that `require_auth` has passed on where it asks for them.
pub data Request : Type 0 where
  authenticate : Option Text → Request
  log_in : Ids → Sender → Text → Text → Request
  refresh_login : Ids → Sender → Text → Request
  post_user : Text → Claims → CreateUserRequest → Request
  put_user : Claims → Text → UpdateUserRequest → Request
  remove_user : Claims → Text → Request
  put_password put_my_password : Claims → Text → ChangePasswordRequest → Request
  remove_session revoke_tokens : Claims → Text → Request

unfoldable pub serve : Process → Clock → Request → Server → Server
serve p t (authenticate header) s = (require_auth p t header s).1
serve p t (log_in ids sender name password) s = (login p t ids sender name password s).1
serve p t (refresh_login ids sender token) s = (refresh p t ids sender token s).1
serve p t (post_user i claims req) s = (create_user p t i claims req s).1
serve p t (put_user claims i req) s = (update_user t claims i req s).1
serve p t (remove_user claims i) s = (delete_user t claims i s).1
serve p t (put_password claims i req) s = (change_user_password p.bcrypt t claims i req s).1
serve p t (put_my_password claims i req) s = (change_my_password p.bcrypt t claims req s).1
serve p t (remove_session claims i) s = (revoke_session t claims i s).1
serve p t (revoke_tokens claims i) s = (revoke_user_tokens t claims i s).1

unfoldable pub serve_all : Process → List (Clock × Request) → Server → Server
serve_all p [] s = s
serve_all p ((t, r) ∷ rs) s = serve_all p rs (serve p t r s)

state-Coherent :
    {A : Type 0} (m : M Server A) → Keeps m → (s : Server) → Coherent s → Coherent (m s).1
state-Coherent {A = A} m k s h = go (m s) (k s h)
  where
    go : (r : Result A × Server) → Ends (λ a. Coherent) r → Coherent r.1
    go (ok a, t) q = q
    go (err e, t) q = q

pub serve-Coherent :
    (p : Process) (t : Clock) (r : Request) (s : Server) → Coherent s → Coherent (serve p t r s)
unfolding serve
serve-Coherent p t (authenticate header) s h = state-Coherent _ (require_auth-Keeps p t header) s h
serve-Coherent p t (log_in ids sender name password) s h =
    state-Coherent _ (login-Keeps p t ids sender name password) s h
serve-Coherent p t (refresh_login ids sender token) s h =
    state-Coherent _ (refresh-Keeps p t ids sender token) s h
serve-Coherent p t (post_user i claims req) s h =
    state-Coherent _ (create_user-Keeps p t i claims req) s h
serve-Coherent p t (put_user claims i req) s h =
    state-Coherent _ (update_user-Keeps t claims i req) s h
serve-Coherent p t (remove_user claims i) s h = state-Coherent _ (delete_user-Keeps t claims i) s h
serve-Coherent p t (put_password claims i req) s h =
    state-Coherent _ (change_user_password-Keeps p.bcrypt t claims i req) s h
serve-Coherent p t (put_my_password claims i req) s h =
    state-Coherent _ (change_my_password-Keeps p.bcrypt t claims req) s h
serve-Coherent p t (remove_session claims i) s h =
    state-Coherent _ (revoke_session-Keeps t claims i) s h
serve-Coherent p t (revoke_tokens claims i) s h =
    state-Coherent _ (revoke_user_tokens-Keeps t claims i) s h

-- However many requests are served, one after the other and at any times, each entry that a lookup
-- can find in the cache of token generations has the generation of the store, if that held before.
pub serve_all-Coherent :
    (p : Process) (rs : List (Clock × Request)) (s : Server)
    → Coherent s
    → Coherent (serve_all p rs s)
unfolding serve_all
serve_all-Coherent p [] s h = h
serve_all-Coherent p ((t, r) ∷ rs) s h =
    serve_all-Coherent p rs (serve p t r s) (serve-Coherent p t r s h)
