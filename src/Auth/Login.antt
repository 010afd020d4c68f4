-- ===== src/Auth/Login.antt =====
-- Login, the refresh of a login and the issue of tokens (api/auth.rs).
use snx_edge.Common.{ℕ, ◌+◌, ◌*◌, Option, none, some, Text, codes, text_eq, ltb, leb, if◌then◌else◌}
use snx_edge.Errors.{unauthorized, internal, M, ◌>>=◌, ◌>>◌, return, fail, lift, ok_or}
use snx_edge.Users.Store.{
  User, Bcrypt, bcrypt_cost, get_user_by_id, get_user_by_username, reset_failed_logins,
  record_failed_login, set_password_hash_silent, get_token_generation,
}
use snx_edge.Users.Rows.{create_session, delete_session, session_exists}
use snx_edge.Auth.Permissions.{Claims, permissions_for_role}
use snx_edge.Auth.Server.{Server, Clock, Process, query, map_err, swallow, decode_token}

-- What a request says about its sender, for the audit of sessions.
pub record Sender : Type 0 where
  pub ip : Option Text
  pub user_agent : Option Text

pub record TokenResponse : Type 0 where
  pub access_token : Text
  pub refresh_token : Text
  pub token_type : Text
  pub expires_in : ℕ

-- `Uuid::new_v4` of the two tokens.
pub record Ids : Type 0 where
  pub access_jti : Text
  pub refresh_jti : Text

unfoldable pub token_claims : Text → Text → ℕ → ℕ → Text → Text → ℕ → Claims
token_claims user_id user_role exp now jti kind generation = record {
  sub = user_id;
  role = user_role;
  permissions = permissions_for_role user_role;
  exp = exp;
  iat = now;
  jti = jti;
  token_type = kind;
  token_generation = generation;
}

unfoldable pub access_claims : Process → Clock → Ids → Text → Text → ℕ → Claims
access_claims p t ids user_id user_role =
    token_claims user_id user_role (t.utc + p.config.access_token_ttl_minutes * 60) t.utc
      ids.access_jti (codes "access")

abbrev pub refresh_exp : Process → Clock → ℕ
refresh_exp p t = t.utc + p.config.refresh_token_ttl_days * 86400

unfoldable pub refresh_claims : Process → Clock → Ids → Text → Text → ℕ → Claims
refresh_claims p t ids user_id user_role =
    token_claims user_id user_role (refresh_exp p t) t.utc ids.refresh_jti (codes "refresh")

unfoldable pub issue_tokens : Process → Clock → Ids → Sender → Text → Text → M Server TokenResponse
issue_tokens p t ids sender user_id user_role = do
  generation ← query (get_token_generation user_id)
  access ←
      lift (ok_or unauthorized (p.jwt.encode (access_claims p t ids user_id user_role generation)))
  refresh ←
      lift (ok_or unauthorized (p.jwt.encode (refresh_claims p t ids user_id user_role generation)))
  query (create_session ids.refresh_jti user_id sender.ip sender.user_agent (refresh_exp p t) t.utc)
  return (record {
    access_token = access;
    refresh_token = refresh;
    token_type = codes "Bearer";
    expires_in = p.config.access_token_ttl_minutes * 60;
  })

abbrev pub store_hash : Text → Option Text → M Server (Unit {0})
store_hash user_id none = return tt
store_hash user_id (some h) = swallow (query (set_password_hash_silent user_id h))

abbrev pub rehash_below : Bcrypt → Text → Text → Option ℕ → M Server (Unit {0})
rehash_below b user_id plaintext none = return tt
rehash_below b user_id plaintext (some cost) =
    if leb bcrypt_cost cost then return tt else store_hash user_id (b.hash plaintext bcrypt_cost)

unfoldable pub rehash_if_outdated : Bcrypt → Text → Text → Text → M Server (Unit {0})
rehash_if_outdated b user_id plaintext stored_hash =
    rehash_below b user_id plaintext (b.cost stored_hash)

-- The lock of an account: refused until its time, and then taken off.
unfoldable pub check_lock : Clock → Text → Option ℕ → M Server (Unit {0})
check_lock t user_id none = return tt
check_lock t user_id (some until) =
    if ltb t.utc until then fail unauthorized else query (reset_failed_logins user_id)

abbrev pub require_enabled : User → M Server (Unit {0})
require_enabled u = if u.enabled then return tt else fail unauthorized

unfoldable pub wrong_password : Process → Clock → Text → M Server TokenResponse
wrong_password p t user_id = do
  query (
      record_failed_login user_id p.config.max_login_attempts p.config.lockout_duration_minutes
        t.utc)
  fail unauthorized

unfoldable pub welcome : Process → Clock → Ids → Sender → Text → User → M Server TokenResponse
welcome p t ids sender password u = do
  query (reset_failed_logins u.id)
  rehash_if_outdated p.bcrypt u.id password u.password_hash
  issue_tokens p t ids sender u.id u.role

unfoldable pub login : Process → Clock → Ids → Sender → Text → Text → M Server TokenResponse
login p t ids sender name password = do
  u ← map_err unauthorized (query (get_user_by_username name))
  check_lock t u.id u.locked_until
  require_enabled u
  valid ← lift (ok_or internal (p.bcrypt.verify password u.password_hash))
  if valid then welcome p t ids sender password u else wrong_password p t u.id

unfoldable pub refresh : Process → Clock → Ids → Sender → Text → M Server TokenResponse
refresh p t ids sender token = do
  claims ← lift (decode_token p t token)
  if text_eq claims.token_type (codes "refresh") then return tt else fail unauthorized
  live ← query (session_exists claims.jti t.utc)
  if live then return tt else fail unauthorized
  query (delete_session claims.jti)
  u ← query (get_user_by_id claims.sub)
  require_enabled u
  issue_tokens p t ids sender u.id u.role
