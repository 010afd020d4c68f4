-- ===== src/Auth/Handlers.antt =====
-- The user management handlers (api/users.rs).
use snx_edge.Common.{ℕ, Bool, Option, none, some, Text, codes, text_eq, ltb, if◌then◌else◌}
use snx_edge.Errors.{
  not_found, bad_request, unauthorized, forbidden, conflict, internal, Result, ok, err, M, ◌>>=◌,
  ◌>>◌, return, fail, lift, ok_or,
}
use snx_edge.Users.Store.{
  User, Db, Bcrypt, get_user_by_id, get_token_generation, bump_token_generation,
}
use snx_edge.Users.Store
use snx_edge.Users.Rows.{session_owner, delete_session, delete_user_sessions}
use snx_edge.Auth.Permissions.{Claims, require_permission, validate_role, role_level}
use snx_edge.Auth.Server.{Server, Clock, Process, query, attempt, refresh_token_generation_cache}

pub record CreateUserRequest : Type 0 where
  pub username : Text
  pub password : Text
  pub role : Text
  pub comment : Text

pub record UpdateUserRequest : Type 0 where
  pub new_role : Option Text
  pub new_comment : Option Text
  pub new_enabled : Option Bool

pub record ChangePasswordRequest : Type 0 where
  pub current_password : Option Text
  pub new_password : Text

-- No role above the caller's own.
abbrev pub check_level : Claims → Text → M Server (Unit {0})
check_level claims role =
    if ltb (role_level claims.role) (role_level role) then fail forbidden else return tt

unfoldable pub create_user : Process → Clock → Text → Claims → CreateUserRequest → M Server User
create_user p t new_id claims req = do
  lift (require_permission claims (codes "users.create"))
  lift (validate_role req.role)
  check_level claims req.role
  query (Store.create_user p.bcrypt new_id t.utc req.username req.password req.role req.comment)

abbrev pub check_role : Claims → Option Text → M Server (Unit {0})
check_role claims none = return tt
check_role claims (some role) = do lift (validate_role role); check_level claims role

-- `if let Ok(g) = get_token_generation(id) { refresh the cache }`
abbrev pub cache_read : Clock → Text → Result ℕ → M Server (Unit {0})
cache_read t i (ok g) = refresh_token_generation_cache t i (some g)
cache_read t i (err e) = return tt

unfoldable pub recache : Clock → Text → M Server (Unit {0})
recache t i = attempt (query (get_token_generation i)) >>= cache_read t i

unfoldable pub update_user : Clock → Claims → Text → UpdateUserRequest → M Server User
update_user t claims i req = do
  lift (require_permission claims (codes "users.update"))
  check_role claims req.new_role
  u ← query (Store.update_user i req.new_role req.new_comment req.new_enabled t.utc)
  recache t i
  return u

unfoldable pub delete_user : Clock → Claims → Text → M Server (Unit {0})
delete_user t claims i = do
  lift (require_permission claims (codes "users.delete"))
  if text_eq claims.sub i then fail conflict else return tt
  query (Store.delete_user i)
  refresh_token_generation_cache t i none

-- The caller's own password, before it is changed.
unfoldable pub check_current : Bcrypt → Text → Option Text → M Server (Unit {0})
check_current b i given = do
  current ← lift (ok_or bad_request given)
  u ← query (get_user_by_id i)
  valid ← lift (ok_or internal (b.verify current u.password_hash))
  if valid then return tt else fail unauthorized

unfoldable pub set_password : Bcrypt → Clock → Text → Text → M Server (Unit {0})
set_password b t i new_password = do
  query (Store.change_password b i new_password t.utc)
  count ← query (delete_user_sessions i)
  recache t i

-- Oneself with the current password, or an administrator.
abbrev pub check_caller : Bcrypt → Claims → Text → Option Text → M Server (Unit {0})
check_caller b claims i given =
    if text_eq claims.sub i
    then check_current b claims.sub given
    else (if text_eq claims.role (codes "admin") then return tt else fail forbidden)

unfoldable pub change_user_password :
    Bcrypt → Clock → Claims → Text → ChangePasswordRequest → M Server (Unit {0})
change_user_password b t claims i req = do
  check_caller b claims i req.current_password
  set_password b t i req.new_password

unfoldable pub change_my_password :
    Bcrypt → Clock → Claims → ChangePasswordRequest → M Server (Unit {0})
change_my_password b t claims req = do
  check_current b claims.sub req.current_password
  set_password b t claims.sub req.new_password

-- `if let Ok(Some(g)) = bump_token_generation(owner) { refresh the cache }`
abbrev pub cache_bump : Clock → Text → Result (Option ℕ) → M Server (Unit {0})
cache_bump t i (ok (some g)) = refresh_token_generation_cache t i (some g)
cache_bump t i (ok none) = return tt
cache_bump t i (err e) = return tt

unfoldable pub bump_and_cache : Clock → Text → M Server (Unit {0})
bump_and_cache t i = attempt (query (bump_token_generation i)) >>= cache_bump t i

abbrev pub bump_owner : Clock → Result (Option Text) → M Server (Unit {0})
bump_owner t (ok (some owner)) = bump_and_cache t owner
bump_owner t (ok none) = return tt
bump_owner t (err e) = return tt

unfoldable pub revoke_session : Clock → Claims → Text → M Server (Unit {0})
revoke_session t claims session_id = do
  lift (require_permission claims (codes "users.sessions"))
  owner ← attempt (query (session_owner session_id))
  query (delete_session session_id)
  bump_owner t owner

unfoldable pub revoke_user_tokens : Clock → Claims → Text → M Server (Unit {0})
revoke_user_tokens t claims i = do
  if text_eq claims.role (codes "admin") then return tt else fail forbidden
  bumped ← query (bump_token_generation i)
  g ← lift (ok_or not_found bumped)
  refresh_token_generation_cache t i (some g)
