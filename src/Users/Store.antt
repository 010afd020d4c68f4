-- ===== src/Users/Store.antt =====
-- The rows and the queries of the user store (db.rs).
use snx_edge.Common.{
  ℕ, ◌+◌, ◌*◌, Bool, true, not, ◌&&◌, ◌||◌, List, [], ◌∷◌, ◌++◌, Option, none, some, Text, codes,
  text_eq, byte_len, any, keep, find, ltb, leb, if◌then◌else◌,
}
use snx_edge.Errors.{
  not_found, bad_request, conflict, internal, Result, ok, err, M, ◌>>=◌, ◌>>◌, fail, lift, ok_or,
}

pub record User : Type 0 where
  pub id : Text
  pub username : Text
  pub password_hash : Text
  pub role : Text
  pub comment : Text
  pub enabled : Bool
  pub created_at : ℕ
  pub updated_at : ℕ
  pub failed_login_attempts : ℕ
  pub locked_until : Option ℕ
  pub token_generation : ℕ

pub record Session : Type 0 where
  pub session_id : Text
  pub user_id : Text
  pub ip_address : Option Text
  pub user_agent : Option Text
  pub session_created_at : ℕ
  pub expires_at : ℕ

pub record Db : Type 0 where
  pub users : List User
  pub sessions : List Session
  pub app_state : List (Text × Text)

-- The password hashing library; `none` is an error of it.
pub record Bcrypt : Type 0 where
  pub hash : Text → ℕ → Option Text
  pub verify : Text → Text → Option Bool
  pub cost : Text → Option ℕ

abbrev pub bcrypt_cost : ℕ
bcrypt_cost = 13

abbrev pub admin : Text
admin = codes "admin"

unfoldable pub has_id : Text → User → Bool
has_id i u = text_eq u.id i

-- `UPDATE users SET … WHERE id = ?`
unfoldable pub update_where : Text → (User → User) → List User → List User
update_where i f [] = []
update_where i f (u ∷ us) = (if has_id i u then f u else u) ∷ update_where i f us

-- `role = 'admin' AND enabled = 1`
unfoldable pub is_active_admin : User → Bool
is_active_admin u = text_eq u.role admin && u.enabled

-- `SELECT COUNT(*) … AND id != ?1`, compared with 0.
unfoldable pub other_admin : Text → List User → Bool
other_admin i = any (λ u. is_active_admin u && not (has_id i u))

unfoldable pub get_user_by_id : Text → M Db User
get_user_by_id i db = (ok_or not_found (find (has_id i) db.users), db)

unfoldable pub get_user_by_username : Text → M Db User
get_user_by_username name db = (ok_or not_found (find (λ u. text_eq u.username name) db.users), db)

abbrev pub hash_password : Bcrypt → Text → M Db Text
hash_password b password = lift (ok_or internal (b.hash password bcrypt_cost))

unfoldable pub new_user : Text → Text → Text → Text → Text → ℕ → User
new_user i name hash role comment now = record {
  id = i;
  username = name;
  password_hash = hash;
  role = role;
  comment = comment;
  enabled = true;
  created_at = now;
  updated_at = now;
  failed_login_attempts = 0;
  locked_until = none;
  token_generation = 0;
}

-- `INSERT INTO users`: the primary key and the unique username may refuse the row.
unfoldable pub insert_user : User → M Db (Unit {0})
insert_user u db =
    if any (λ v. text_eq v.username u.username || text_eq v.id u.id) db.users
    then (err conflict, db)
    else (ok tt, record db { users = db.users ++ u ∷ [] })

unfoldable pub create_user : Bcrypt → Text → ℕ → Text → Text → Text → Text → M Db User
create_user b new_id now username password role comment =
    if ltb (byte_len password) 8 then fail bad_request else (do
      hash ← hash_password b password
      insert_user (new_user new_id username hash role comment now)
      get_user_by_id new_id)

-- `Option::unwrap_or`
abbrev pub or_else {ℓ} : {A : Type ℓ} → Option A → A → A
or_else none d = d
or_else (some a) d = a

-- What `update_user` writes into the row.
unfoldable pub updated : User → Text → Text → Bool → ℕ → Bool → User
updated u role comment enabled now reduced = record u {
  role = role;
  comment = comment;
  enabled = enabled;
  updated_at = now;
  token_generation = u.token_generation + (if reduced then 1 else 0);
}

unfoldable pub removes_admin : User → Text → Bool → Bool
removes_admin u new_role new_enabled =
    (text_eq u.role admin && not (text_eq new_role admin))
    || (text_eq u.role admin && not new_enabled)

unfoldable pub privileges_reduced : User → Text → Bool → Bool
privileges_reduced u new_role new_enabled =
    not (text_eq new_role u.role) || (u.enabled && not new_enabled)

unfoldable pub update_row : Text → User → Option Text → Option Text → Option Bool → ℕ → M Db User
update_row i u role comment enabled now db =
    let new_role = or_else role u.role in
    let new_comment = or_else comment u.comment in
    let new_enabled = or_else enabled u.enabled in
    let reduced = privileges_reduced u new_role new_enabled in
    if removes_admin u new_role new_enabled && not (other_admin i db.users)
    then (err conflict, db)
    else get_user_by_id i (record db {
      users = update_where i (λ v. updated v new_role new_comment new_enabled now reduced) db.users;
    })

unfoldable pub update_user : Text → Option Text → Option Text → Option Bool → ℕ → M Db User
update_user i role comment enabled now = do
  u ← get_user_by_id i
  update_row i u role comment enabled now

-- `DELETE FROM users`, with the cascade of the foreign key of `sessions`.
unfoldable pub delete_rows : Text → M Db (Unit {0})
delete_rows i db =
    if any (has_id i) db.users
    then (
      ok tt,
      record db {
        users = keep (λ u. not (has_id i u)) db.users;
        sessions = keep (λ s. not (text_eq s.user_id i)) db.sessions;
      },
    )
    else (err not_found, db)

-- With no other administrator, the target must be none either.
unfoldable pub delete_checked : Text → Option User → M Db (Unit {0})
delete_checked i none db = (err not_found, db)
delete_checked i (some u) db = if text_eq u.role admin then (err conflict, db) else delete_rows i db

unfoldable pub delete_user : Text → M Db (Unit {0})
delete_user i db =
    if other_admin i db.users
    then delete_rows i db
    else delete_checked i (find (has_id i) db.users) db

-- An `UPDATE` that reports a missing row as an error.
abbrev pub update_existing : Text → (User → User) → M Db (Unit {0})
update_existing i f db =
    if any (has_id i) db.users
    then (ok tt, record db { users = update_where i f db.users })
    else (err not_found, db)

abbrev pub bumped : User → User
bumped u = record u { token_generation = u.token_generation + 1 }

-- The second query of `bump_token_generation`.
abbrev pub read_back : Option User → Result (Option ℕ)
read_back none = err internal
read_back (some u) = ok (some u.token_generation)

unfoldable pub bump_token_generation : Text → M Db (Option ℕ)
bump_token_generation i db =
    if any (has_id i) db.users
    then (let us = update_where i bumped db.users in
        (read_back (find (has_id i) us), record db { users = us }))
    else (ok none, db)

abbrev pub generation_of : Option User → Result ℕ
generation_of none = err not_found
generation_of (some u) = ok u.token_generation

unfoldable pub get_token_generation : Text → M Db ℕ
get_token_generation i db = (generation_of (find (has_id i) db.users), db)

unfoldable pub set_password_hash_silent : Text → Text → M Db (Unit {0})
set_password_hash_silent i h = update_existing i (λ u. record u { password_hash = h })

unfoldable pub change_password : Bcrypt → Text → Text → ℕ → M Db (Unit {0})
change_password b i new_password now =
    if ltb (byte_len new_password) 8 then fail bad_request else (do
      h ← hash_password b new_password
      update_existing i (λ u. record u {
        password_hash = h;
        token_generation = u.token_generation + 1;
        updated_at = now;
      }))

unfoldable pub failed_once : User → User
failed_once u = record u { failed_login_attempts = u.failed_login_attempts + 1 }

abbrev pub locked_at : ℕ → User → User
locked_at t u = record u { locked_until = some t }

-- `QueryReturnedNoRows` of a deleted user is an internal error.
unfoldable pub lock_if_over : Text → ℕ → ℕ → Option User → M Db (Unit {0})
lock_if_over i max_attempts until none db = (err internal, db)
lock_if_over i max_attempts until (some u) db = (
  ok tt,
  if leb max_attempts u.failed_login_attempts
      then record db { users = update_where i (locked_at until) db.users }
      else db,
)

unfoldable pub record_failed_login : Text → ℕ → ℕ → ℕ → M Db (Unit {0})
record_failed_login i max_attempts lockout_minutes now db =
    let us = update_where i failed_once db.users in
    lock_if_over i max_attempts (now + lockout_minutes * 60) (find (has_id i) us)
      (record db { users = us })

unfoldable pub reset_failed_logins : Text → M Db (Unit {0})
reset_failed_logins i db = (
  ok tt,
  record db {
    users =
        update_where i (λ u. record u { failed_login_attempts = 0; locked_until = none }) db.users;
  },
)
