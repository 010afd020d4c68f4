-- ===== src/Auth/Bumps.antt =====
-- What the requests that revoke tokens do to the generations of the store (api/users.rs).
use snx_edge.Common.{
  ℕ, ◌+◌, ◌≡◌, refl, ap, ◌∙◌, inl, inr, Bool, true, false, not, ◌&&◌, Option, none, some, Text,
  codes, text_eq, find, any, any-keep-not, ltb, byte_len, Bool-cases, if◌then◌else◌,
}
use snx_edge.Errors.{
  unauthorized, not_found, conflict, bind-ok, guard-state, bad_request, forbidden, internal, Result,
  ok, err, M, ◌>>=◌, return, fail, lift, ok_or, then_run,
}
use snx_edge.Users.Store.{
  User, Db, Bcrypt, bcrypt_cost, has_id, update_where, generation_of, get_token_generation,
  get_user_by_id, bumped, read_back, bump_token_generation, or_else, updated, removes_admin,
  other_admin, privileges_reduced, update_row, update_existing,
}
use snx_edge.Users.Store
use snx_edge.Users.Rows.{delete_user_sessions}
use snx_edge.Auth.Permissions.{Claims, require_permission, validate_role, role_level}
use snx_edge.Auth.Server.{Server, Clock, query, refresh_token_generation_cache}
use snx_edge.Auth.Handlers.{
  UpdateUserRequest, ChangePasswordRequest, check_role, check_level, check_current, check_caller,
  change_user_password, set_password, recache, cache_read, update_user, delete_user,
  change_my_password,
}
use snx_edge.Auth.Generations.{generation_in, find→any, find-written, generation-gone}

delete_rows-gone :
    (i : Text) (db : Db)
    → (Store.delete_rows i db).0 ≡ ok tt
    → find (has_id i) (Store.delete_rows i db).1.users ≡ none
unfolding Store.delete_rows
delete_rows-gone i db done = elim (Bool-cases (any (has_id i) db.users)) [
  | inl e ↦ rw e (generation-gone i db.users)
  | inr e ↦ (let no : err not_found ≡ ok tt = rw e at done in cc)
]

stored-gone :
    (i : Text) (db : Db)
    → (Store.delete_user i db).0 ≡ ok tt
    → find (has_id i) (Store.delete_user i db).1.users ≡ none
unfolding Store.delete_user
stored-gone i db done = elim (Bool-cases (other_admin i db.users)) [
  | inl e ↦ rw e (delete_rows-gone i db (rw e at done))
  | inr e ↦ rw e (go (find (has_id i) db.users) (rw e at done))
]
  where
    go :
        (o : Option User)
        → (Store.delete_checked i o db).0 ≡ ok tt
        → find (has_id i) (Store.delete_checked i o db).1.users ≡ none
    go none h = unfold Store.delete_checked in cc
    go (some u) h =
        unfold Store.delete_checked in
        (elim (Bool-cases (text_eq u.role (codes "admin"))) [
          | inl e ↦ (let no : err conflict ≡ ok tt = rw e at h in cc)
          | inr e ↦ rw e (delete_rows-gone i db (rw e at h))
        ])

pub delete_user-gone :
    (t : Clock) (caller : Claims) (i : Text) (s : Server)
    → (delete_user t caller i s).0 ≡ ok tt
    → find (has_id i) (delete_user t caller i s).1.db.users ≡ none
unfolding delete_user refresh_token_generation_cache
delete_user-gone t caller i s done =
    let (_, _, second, to_second) =
      bind-ok (lift (require_permission caller (codes "users.delete"))) _ s tt done in
    rw to_second (elim (Bool-cases (text_eq caller.sub i)) [
      | inl e ↦ (let no : err conflict ≡ ok tt = rw e at second in cc)
      | inr e ↦
          (let deleting = rw e at second in
            let (_, gone, _, to_last) = bind-ok (query (Store.delete_user i)) _ s tt deleting in
            rw e (rw to_last (stored-gone i s.db gone)))
    ])

recache-db : (t : Clock) (i : Text) (s : Server) → (recache t i s).1.db ≡ s.db
unfolding recache get_token_generation
recache-db t i s = go (generation_in i s.db.users)
  where
    go : (r : Result ℕ) → (cache_read t i r s).1.db ≡ s.db
    go (ok g) = unfold refresh_token_generation_cache in refl
    go (err e) = refl

check_role-state : (c : Claims) (o : Option Text) (s : Server) → (check_role c o s).1 ≡ s
check_role-state c none s = refl
check_role-state c (some role) s = go (validate_role role)
  where
    go : (r : Result (Unit {0})) → (then_run r (λ _. check_level c role) s).1 ≡ s
    go (err e) = refl
    go (ok a) = elim (Bool-cases (ltb (role_level c.role) (role_level role))) [
      | inl e ↦ rw e refl
      | inr e ↦ rw e refl
    ]

update_user-bumps :
    (i : Text) (role comment : Option Text) (enabled : Option Bool) (now : ℕ) (db : Db) (u v : User)
    → find (has_id i) db.users ≡ some u
    → privileges_reduced u (or_else role u.role) (or_else enabled u.enabled) ≡ true
    → (Store.update_user i role comment enabled now db).0 ≡ ok v
    → generation_in i (Store.update_user i role comment enabled now db).1.users
      ≡ ok (u.token_generation + 1)
unfolding Store.update_user get_user_by_id update_row
update_user-bumps i role comment enabled now db u v found reduced done =
    elim (Bool-cases (
      removes_admin u (or_else role u.role) (or_else enabled u.enabled)
      && not (other_admin i db.users))) [
        | inl e ↦ (let no : err conflict ≡ ok v = rw (found, e) at done in cc)
        | inr e ↦
            rw (found, e)
              (ap generation_of (find-written i f db.users u (λ w. unfold updated in refl) found)
                ∙ (unfold updated in (rw reduced refl)))
      ]
  where
    f : User → User
    f w =
        updated w (or_else role u.role) (or_else comment u.comment) (or_else enabled u.enabled) now
          (privileges_reduced u (or_else role u.role) (or_else enabled u.enabled))

pub put_user-bumps :
    (t : Clock) (caller : Claims) (i : Text) (req : UpdateUserRequest) (s : Server) (u v : User)
    → find (has_id i) s.db.users ≡ some u
    → privileges_reduced u (or_else req.new_role u.role) (or_else req.new_enabled u.enabled) ≡ true
    → (update_user t caller i req s).0 ≡ ok v
    → generation_in i (update_user t caller i req s).1.db.users ≡ ok (u.token_generation + 1)
unfolding update_user
put_user-bumps t caller i req s u v found reduced done =
    let (_, _, second, to_second) =
      bind-ok (lift (require_permission caller (codes "users.update"))) _ s v done in
    let (_, _, third, to_third) = bind-ok (check_role caller req.new_role) _ s v second in
    let state = check_role-state caller req.new_role s in
    let writing = rw state at third in
    let write : M Server User =
      query (Store.update_user i req.new_role req.new_comment req.new_enabled t.utc) in
    let (w, wrote, fourth, to_fourth) = bind-ok write _ s v writing in
    let (_, _, _, to_last) = bind-ok (recache t i) _ (write s).1 v fourth in
    rw (to_second, to_third, state, to_fourth, to_last, recache-db)
      (update_user-bumps i req.new_role req.new_comment req.new_enabled t.utc s.db u w found reduced
        wrote)

change_password-bumps :
    (b : Bcrypt) (i password : Text) (now : ℕ) (db : Db) (u : User)
    → find (has_id i) db.users ≡ some u
    → (Store.change_password b i password now db).0 ≡ ok tt
    → generation_in i (Store.change_password b i password now db).1.users
      ≡ ok (u.token_generation + 1)
unfolding Store.change_password
change_password-bumps b i password now db u found done =
    elim (Bool-cases (ltb (byte_len password) 8)) [
      | inl e ↦ (let no : err bad_request ≡ ok tt = rw e at done in cc)
      | inr e ↦ rw e (go (b.hash password bcrypt_cost) (rw e at done))
    ]
  where
    write : Text → User → User
    write h u = record u {
      password_hash = h;
      token_generation = u.token_generation + 1;
      updated_at = now;
    }

    go :
        (o : Option Text)
        → (then_run (ok_or internal o) (λ h. update_existing i (write h)) db).0 ≡ ok tt
        → generation_in i
            (then_run (ok_or internal o) (λ h. update_existing i (write h)) db).1.users
          ≡ ok (u.token_generation + 1)
    go none h = cc
    go (some hash) h =
        rw (find→any i db.users u found)
          (ap generation_of (find-written i (write hash) db.users u (λ u. refl) found))

-- A new password: the generation goes up, and the sessions of the user go.
set_password-bumps :
    (b : Bcrypt) (t : Clock) (i password : Text) (s : Server) (u : User)
    → find (has_id i) s.db.users ≡ some u
    → (set_password b t i password s).0 ≡ ok tt
    → (generation_in i (set_password b t i password s).1.db.users ≡ ok (u.token_generation + 1))
      × (any (λ r. text_eq r.user_id i) (set_password b t i password s).1.db.sessions ≡ false)
unfolding set_password delete_user_sessions
set_password-bumps b t i password s u found done =
    let change : M Server (Unit {0}) = query (Store.change_password b i password t.utc) in
    let (_, changed, second, to_second) = bind-ok change _ s tt done in
    let after_change = (change s).1 in
    rw (to_second, recache-db)
      (
        change_password-bumps b i password t.utc s.db u found changed,
        any-keep-not (λ r. text_eq r.user_id i) after_change.db.sessions,
      )

check_current-state :
    (b : Bcrypt) (i : Text) (given : Option Text) (s : Server) → (check_current b i given s).1 ≡ s
unfolding check_current get_user_by_id
check_current-state b i none s = refl
check_current-state b i (some current) s = found (find (has_id i) s.db.users)
  where
    verified :
        (r : Result Bool)
        → (then_run r (λ valid. if valid then return tt else fail unauthorized) s).1 ≡ s
    verified (ok true) = refl
    verified (ok false) = refl
    verified (err e) = refl

    found :
        (o : Option User)
        → (then_run
            (ok_or not_found o)
            (λ u. lift (ok_or internal (b.verify current u.password_hash)) >>= λ valid.
              if valid then return tt else fail unauthorized)
            s).1
          ≡ s
    found none = refl
    found (some u) = verified (ok_or internal (b.verify current u.password_hash))

-- The two handlers that change a password.
pub change_my_password-bumps :
    (b : Bcrypt) (t : Clock) (caller : Claims) (req : ChangePasswordRequest) (s : Server) (u : User)
    → find (has_id caller.sub) s.db.users ≡ some u
    → (change_my_password b t caller req s).0 ≡ ok tt
    → (generation_in caller.sub (change_my_password b t caller req s).1.db.users
        ≡ ok (u.token_generation + 1))
      × (any (λ r. text_eq r.user_id caller.sub) (change_my_password b t caller req s).1.db.sessions
          ≡ false)
unfolding change_my_password
change_my_password-bumps b t caller req s u found done =
    let (_, _, second, to_second) =
      bind-ok (check_current b caller.sub req.current_password) _ s tt done in
    let state = check_current-state b caller.sub req.current_password s in
    rw (to_second, state)
      (set_password-bumps b t caller.sub req.new_password s u found (rw state at second))

pub change_user_password-bumps :
    (b : Bcrypt) (t : Clock) (caller : Claims) (i : Text) (req : ChangePasswordRequest) (s : Server)
    (u : User)
    → find (has_id i) s.db.users ≡ some u
    → (change_user_password b t caller i req s).0 ≡ ok tt
    → (generation_in i (change_user_password b t caller i req s).1.db.users
        ≡ ok (u.token_generation + 1))
      × (any (λ r. text_eq r.user_id i) (change_user_password b t caller i req s).1.db.sessions
          ≡ false)
unfolding change_user_password
change_user_password-bumps b t caller i req s u found done =
    let (_, _, second, to_second) =
      bind-ok (check_caller b caller i req.current_password) _ s tt done in
    rw (to_second, state) (set_password-bumps b t i req.new_password s u found (rw state at second))
  where
    state : (check_caller b caller i req.current_password s).1 ≡ s
    state = elim (Bool-cases (text_eq caller.sub i)) [
      | inl e ↦ rw e (check_current-state b caller.sub req.current_password s)
      | inr e ↦ rw e (guard-state (text_eq caller.role (codes "admin")) tt forbidden s)
    ]
