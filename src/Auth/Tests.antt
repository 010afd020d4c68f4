-- ===== src/Auth/Tests.antt =====
-- The theorems on logins, tokens and user management, applied to a small server.
use snx_edge.Common.{
  ℕ, arith, ◌+◌, ◌*◌, ◌≡◌, refl, false, [], ◌∷◌, none, some, codes, text_eq, any, strip_prefix,
  starts_with, byte_len,
}
use snx_edge.Errors.{unauthorized, Result, ok, err}
use snx_edge.Users.Store.{
  User, has_id, update_where, is_active_admin, other_admin, get_user_by_id, get_user_by_username,
  updated, removes_admin, privileges_reduced, update_row, delete_rows, delete_checked,
  get_token_generation, set_password_hash_silent, reset_failed_logins,
}
use snx_edge.Users.Store
use snx_edge.Users.Rows.{create_session, delete_session, session_exists, delete_user_sessions}
use snx_edge.Users.TestStore.{bob, plain}
use snx_edge.Auth.Permissions.{
  permissions_for_role, strip_suffix, grants, has_permission, require_permission, validate_role,
  role_level,
}
use snx_edge.Auth.Server.{Server, decode_token, require_auth, refresh_token_generation_cache}
use snx_edge.Auth.Login.{
  Sender, Ids, TokenResponse, issue_tokens, rehash_if_outdated, check_lock, welcome, login, refresh,
}
use snx_edge.Auth.Handlers.{
  UpdateUserRequest, ChangePasswordRequest, recache, check_current, set_password, update_user,
  change_user_password, change_my_password,
}
use snx_edge.Auth.Coherent.{Coherent}
use snx_edge.Auth.Requests.{Request, serve_all, serve_all-Coherent}
use snx_edge.Auth.Gate.{require_auth_uncached, require_auth-uncached}
use snx_edge.Auth.Revocation.{
  bearer, OldToken, update_user-revokes, change_user_password-revokes, change_my_password-revokes,
}
use snx_edge.Auth.Lockout.{Guessable, guess_all, login-locks_out}
use snx_edge.Auth.Generations.{generation_in}
use snx_edge.Auth.Issue.{PassesAs, login-admits}
use snx_edge.Auth.StaleRole.{issue_tokens-admits_role}
use snx_edge.Auth.Replay.{refresh-once}
use snx_edge.Auth.TestServer.{
  process, server, server-Coherent, jwt-RoundTrips, morning, later, alices_claims, bobs_claims,
  bobs_token, bobs_refresh_claims, bobs_refresh_token,
}

abbrev sender : Sender
sender = record { ip = some (codes "10.0.0.9"); user_agent = none }

abbrev ids : Ids
ids = record { access_jti = codes "a7"; refresh_jti = codes "s7" }

serve_all-Coherent_example : Coherent (
    serve_all process
      ((morning, Request.log_in ids sender (codes "bob") (codes "battery staple"))
        ∷ (morning, Request.revoke_tokens alices_claims (codes "u2"))
        ∷ (later, Request.authenticate (bearer bobs_token))
        ∷ (later, Request.remove_user alices_claims (codes "u2"))
        ∷ [])
      server)
serve_all-Coherent_example =
    serve_all-Coherent process
      ((morning, Request.log_in ids sender (codes "bob") (codes "battery staple"))
        ∷ (morning, Request.revoke_tokens alices_claims (codes "u2"))
        ∷ (later, Request.authenticate (bearer bobs_token))
        ∷ (later, Request.remove_user alices_claims (codes "u2"))
        ∷ [])
      server server-Coherent

require_auth-uncached_example :
    (require_auth process morning (bearer bobs_token) server).0
    ≡ (require_auth_uncached process morning (bearer bobs_token) server).0
require_auth-uncached_example =
    require_auth-uncached process morning (bearer bobs_token) server server-Coherent

abbrev bobs_old_token : OldToken process later bobs_token (codes "u2") 2
bobs_old_token = record { claims = bobs_claims; decodes = refl; owner = refl; issued = omega arith }

abbrev demotion : UpdateUserRequest
demotion = record { new_role = some (codes "viewer"); new_comment = none; new_enabled = none }

update_user-revokes_example :
    (require_auth process later
      (bearer bobs_token)
      (update_user morning alices_claims (codes "u2") demotion server).1).0
    ≡ err unauthorized
update_user-revokes_example =
    update_user-revokes process morning later bobs_token server server-Coherent refl alices_claims
      (codes "u2") demotion bob
      (record bob { role = codes "viewer"; updated_at = 1000; token_generation = 3 })
      (unfold has_id text_eq in refl) (unfold privileges_reduced text_eq in refl)
      (unfold update_user require_permission has_permission grants strip_suffix strip_prefix
          starts_with permissions_for_role validate_role role_level Store.update_user update_row
          updated removes_admin privileges_reduced other_admin is_active_admin update_where
          get_user_by_id recache get_token_generation refresh_token_generation_cache has_id
          text_eq in
        refl)
      bobs_old_token

abbrev new_password : ChangePasswordRequest
new_password = record {
  current_password = some (codes "battery staple");
  new_password = codes "something else";
}

change_user_password-revokes_example :
    ((require_auth process later
        (bearer bobs_token)
        (change_user_password plain morning alices_claims (codes "u2") new_password server).1).0
      ≡ err unauthorized)
    × (any
          (λ r. text_eq r.user_id (codes "u2"))
          (change_user_password plain morning alices_claims
            (codes "u2")
            new_password
            server).1.db.sessions
        ≡ false)
change_user_password-revokes_example =
    change_user_password-revokes process morning later bobs_token server server-Coherent refl
      alices_claims (codes "u2") new_password bob (unfold has_id text_eq in refl)
      (unfold change_user_password set_password Store.change_password byte_len delete_user_sessions
          recache get_token_generation update_where refresh_token_generation_cache has_id text_eq in
        refl)
      bobs_old_token

change_my_password-revokes_example :
    ((require_auth process later
        (bearer bobs_token)
        (change_my_password plain morning bobs_claims new_password server).1).0
      ≡ err unauthorized)
    × (any
          (λ r. text_eq r.user_id (codes "u2"))
          (change_my_password plain morning bobs_claims new_password server).1.db.sessions
        ≡ false)
change_my_password-revokes_example =
    change_my_password-revokes process morning later bobs_token server server-Coherent refl
      bobs_claims new_password bob (unfold has_id text_eq in refl)
      (unfold change_my_password check_current get_user_by_id set_password Store.change_password
          byte_len delete_user_sessions recache get_token_generation update_where
          refresh_token_generation_cache has_id text_eq in
        refl)
      bobs_old_token

bob-Guessable : Guessable process (codes "bob") server bob
unfolding has_id text_eq
bob-Guessable = record { keys = (refl, (refl, tt)); found = refl; unlocked = refl; usable = refl }

-- One failure is counted already, and three lock for ten minutes.
login-locks_out_example :
    login process later ids sender
      (codes "bob")
      (codes "battery staple")
      (login process morning ids sender
        (codes "bob")
        (codes "letmein")
        (guess_all process ids sender (codes "bob") ((morning, codes "12345678") ∷ []) server)).1
    ≡ (
      err unauthorized,
      (login process morning ids sender
          (codes "bob")
          (codes "letmein")
          (guess_all process ids sender (codes "bob") ((morning, codes "12345678") ∷ []) server)).1,
    )
login-locks_out_example =
    login-locks_out process ids sender (codes "bob") ((morning, codes "12345678") ∷ []) morning
      later (codes "letmein") (codes "battery staple") server bob bob-Guessable
      (unfold text_eq in (refl, (refl, tt))) refl (omega arith)

abbrev response : Result TokenResponse → TokenResponse
response (ok r) = r
response (err e) = record { access_token = []; refresh_token = []; token_type = []; expires_in = 0 }

abbrev bobs_login : Result TokenResponse × Server
bobs_login = login process morning ids sender (codes "bob") (codes "battery staple") server

login-admits_example :
    (g : ℕ) × (generation_in (codes "u2") bobs_login.1.db.users ≡ ok g)
    × PassesAs
        (require_auth process later (bearer (response bobs_login.0).access_token) bobs_login.1).0
        (codes "u2")
        (codes "operator")
        (1000 + 15 * 60)
        g
login-admits_example =
    login-admits process morning later ids sender (codes "bob") (codes "battery staple") server bob
      (response bobs_login.0) server-Coherent jwt-RoundTrips (unfold text_eq in refl)
      (unfold login get_user_by_username check_lock welcome rehash_if_outdated reset_failed_logins
          issue_tokens get_token_generation update_where create_session has_id text_eq in
        refl)
      (omega arith)

-- Bob's row has the role of an operator, and was that of an administrator when it was read.
abbrev stale_issue : Result TokenResponse × Server
stale_issue = issue_tokens process morning ids sender (codes "u2") (codes "admin") server

issue_tokens-admits_role_example :
    (g : ℕ) × (generation_in (codes "u2") server.db.users ≡ ok g)
    × PassesAs
        (require_auth process later (bearer (response stale_issue.0).access_token) stale_issue.1).0
        (codes "u2")
        (codes "admin")
        (1000 + 15 * 60)
        g
issue_tokens-admits_role_example =
    issue_tokens-admits_role process morning later ids sender (codes "u2") (codes "admin") server
      (response stale_issue.0) server-Coherent jwt-RoundTrips
      (unfold issue_tokens get_token_generation create_session has_id text_eq in refl) (omega arith)

abbrev bobs_refresh : Result TokenResponse × Server
bobs_refresh = refresh process morning ids sender bobs_refresh_token server

refresh-once_example :
    (refresh process later
      (record { access_jti = codes "a8"; refresh_jti = codes "s8" })
      sender
      bobs_refresh_token
      bobs_refresh.1).0
    ≡ err unauthorized
refresh-once_example =
    refresh-once process morning later ids
      (record { access_jti = codes "a8"; refresh_jti = codes "s8" }) sender sender
      bobs_refresh_token bobs_refresh_claims server (response bobs_refresh.0) refl (λ c e. cc)
      (unfold text_eq in refl)
      (unfold refresh decode_token session_exists delete_session get_user_by_id issue_tokens
          get_token_generation create_session has_id text_eq in
        refl)
