-- ===== src/Users/Reachable.antt =====
-- Every sequence of store operations keeps the invariant of the user store.
use snx_edge.Common.{
  ℕ, ◌+◌, ◌≡◌, refl, ◌∙◌, Bool, false, ◌||◌, not, ◌*◌, List, [], ◌∷◌, ◌++◌, Option, none, some,
  Text, text_eq, text_eq_sym, byte_len, inl, inr, any, ltb, leb, arith, Bool-cases,
}
use snx_edge.Errors.{internal, Result, ok, err, M, then_run, ok_or}
use snx_edge.Users.Store.{
  User, Session, Db, Bcrypt, bcrypt_cost, has_id, is_active_admin, get_user_by_id, new_user,
  insert_user, create_user, update_user, delete_user, bump_token_generation, bumped,
  set_password_hash_silent, change_password, update_existing, record_failed_login, failed_once,
  lock_if_over, locked_at, reset_failed_logins,
}
use snx_edge.Users.Rows.{
  create_session, delete_session, delete_user_sessions, cleanup_expired_sessions, set_app_state,
  delete_app_state,
}
use snx_edge.Users.LastAdmin.{
  Distinct, IsValid, bookkeeping-IsValid, update_user-IsValid, delete_user-IsValid,
}

-- The calls that change the store, with their arguments.
pub data StoreCall : Type 0 where
  create : (new_id : Text) (now : ℕ) (username password role comment : Text) → StoreCall
  update : (id : Text) (role comment : Option Text) (enabled : Option Bool) (now : ℕ) → StoreCall
  remove : (id : Text) → StoreCall
  revoke : (id : Text) → StoreCall
  rehash : (id hash : Text) → StoreCall
  password : (id new_password : Text) (now : ℕ) → StoreCall
  login_failed : (id : Text) (max_attempts lockout_minutes now : ℕ) → StoreCall
  login_reset : (id : Text) → StoreCall
  open_session : (jti owner : Text) (ip agent : Option Text) (expires now : ℕ) → StoreCall
  close_session : (jti : Text) → StoreCall
  close_sessions : (owner : Text) → StoreCall
  clean_up : (now : ℕ) → StoreCall
  set_state : (key value : Text) → StoreCall
  delete_state : (key : Text) → StoreCall

-- The store after a call, whether it succeeded or not.
unfoldable pub after : Bcrypt → StoreCall → Db → Db
after b (create i now name pw role comment) db = (create_user b i now name pw role comment db).1
after b (update i role comment enabled now) db = (update_user i role comment enabled now db).1
after b (remove i) db = (delete_user i db).1
after b (revoke i) db = (bump_token_generation i db).1
after b (rehash i h) db = (set_password_hash_silent i h db).1
after b (password i pw now) db = (change_password b i pw now db).1
after b (login_failed i n m now) db = (record_failed_login i n m now db).1
after b (login_reset i) db = (reset_failed_logins i db).1
after b (open_session j o ip agent e now) db = (create_session j o ip agent e now db).1
after b (close_session j) db = (delete_session j db).1
after b (close_sessions o) db = (delete_user_sessions o db).1
after b (clean_up now) db = (cleanup_expired_sessions now db).1
after b (set_state k v) db = (set_app_state k v db).1
after b (delete_state k) db = (delete_app_state k db).1

unfoldable pub after_all : Bcrypt → List StoreCall → Db → Db
after_all b [] db = db
after_all b (c ∷ cs) db = after_all b cs (after b c db)

any-snoc :
    {A : Type 0} (p : A → Bool) (xs : List A) (x : A) → any p (xs ++ x ∷ []) ≡ (any p xs || p x)
any-snoc p [] x = ground arith
any-snoc p (y ∷ xs) x = ground (arith, any-snoc p xs x)

Distinct-snoc :
    (us : List User) (u : User)
    → any (λ v. text_eq v.username u.username || text_eq v.id u.id) us ≡ false
    → Distinct us
    → Distinct (us ++ u ∷ [])
Distinct-snoc [] u fresh k = (refl, tt)
Distinct-snoc (v ∷ us) u fresh (f, k) = (
  any-snoc (has_id v.id) us u ∙ (unfold has_id in ground (arith, text_eq_sym u.id v.id)),
  Distinct-snoc us u (ground arith) k,
)

insert_user-IsValid : (u : User) (db : Db) → IsValid db → IsValid (insert_user u db).1
unfolding insert_user
insert_user-IsValid u db v =
    elim (Bool-cases (any (λ w. text_eq w.username u.username || text_eq w.id u.id) db.users)) [
      | inl e ↦ rw e v
      | inr e ↦ rw e (record {
        keys = Distinct-snoc db.users u e v.keys;
        has_admin = any-snoc is_active_admin db.users u ∙ ground (arith, v.has_admin);
      })
    ]

then_run_state :
    {A : Type 0} (r : Result (Unit {0})) (f : Unit {0} → M Db A) (db : Db)
    → ((u : Unit {0}) → IsValid (f u db).1)
    → IsValid db
    → IsValid (then_run r f db).1
then_run_state (ok u) f db k v = k u
then_run_state (err e) f db k v = v

create_user-IsValid :
    (b : Bcrypt) (i : Text) (now : ℕ) (name pw role comment : Text) (db : Db)
    → IsValid db
    → IsValid (create_user b i now name pw role comment db).1
unfolding create_user get_user_by_id
create_user-IsValid b i now name pw role comment db v = elim (Bool-cases (ltb (byte_len pw) 8)) [
  | inl e ↦ rw e v
  | inr e ↦ rw e (hashed (b.hash pw bcrypt_cost))
]
  where
    hashed :
        (h : Option Text)
        → IsValid
            (then_run
              (ok_or internal h)
              (λ h' db'.
                then_run
                  (insert_user (new_user i name h' role comment now) db').0
                  (λ _. get_user_by_id i)
                  (insert_user (new_user i name h' role comment now) db').1)
              db).1
    hashed none = v
    hashed (some h) =
        let row = new_user i name h role comment now in
        let kept = insert_user-IsValid row db v in
        then_run_state (insert_user row db).0 (λ _. get_user_by_id i) (insert_user row db).1
          (λ _. kept) kept

update_existing-IsValid :
    (i : Text) (f : User → User) (db : Db)
    → ((u : User) → (f u).id ≡ u.id)
    → ((u : User) → is_active_admin (f u) ≡ is_active_admin u)
    → IsValid db
    → IsValid (update_existing i f db).1
update_existing-IsValid i f db same kept v = elim (Bool-cases (any (has_id i) db.users)) [
  | inl e ↦ rw e (bookkeeping-IsValid i f db same kept v)
  | inr e ↦ rw e v
]

change_password-IsValid :
    (b : Bcrypt) (i pw : Text) (now : ℕ) (db : Db)
    → IsValid db
    → IsValid (change_password b i pw now db).1
unfolding change_password is_active_admin
change_password-IsValid b i pw now db v = elim (Bool-cases (ltb (byte_len pw) 8)) [
  | inl e ↦ rw e v
  | inr e ↦ rw e (hashed (b.hash pw bcrypt_cost))
]
  where
    hashed :
        (h : Option Text)
        → IsValid
            (then_run
              (ok_or internal h)
              (λ h'. update_existing i (λ u. record u {
                password_hash = h';
                token_generation = u.token_generation + 1;
                updated_at = now;
              }))
              db).1
    hashed none = v
    hashed (some h) = update_existing-IsValid i _ db (λ u. refl) (λ u. refl) v

bump-IsValid : (i : Text) (db : Db) → IsValid db → IsValid (bump_token_generation i db).1
unfolding bump_token_generation is_active_admin
bump-IsValid i db v = elim (Bool-cases (any (has_id i) db.users)) [
  | inl e ↦ rw e (bookkeeping-IsValid i bumped db (λ u. refl) (λ u. refl) v)
  | inr e ↦ rw e v
]

lock-IsValid :
    (i : Text) (n until : ℕ) (o : Option User) (db : Db)
    → IsValid db
    → IsValid (lock_if_over i n until o db).1
unfolding lock_if_over is_active_admin
lock-IsValid i n until none db v = v
lock-IsValid i n until (some u) db v = elim (Bool-cases (leb n u.failed_login_attempts)) [
  | inl e ↦ rw e (bookkeeping-IsValid i (locked_at until) db (λ u. refl) (λ u. refl) v)
  | inr e ↦ rw e v
]

login_failed-IsValid :
    (i : Text) (n m now : ℕ) (db : Db) → IsValid db → IsValid (record_failed_login i n m now db).1
unfolding record_failed_login failed_once is_active_admin
login_failed-IsValid i n m now db v =
    lock-IsValid i n (now + m * 60) _ _
      (bookkeeping-IsValid i failed_once db (λ u. refl) (λ u. refl) v)

-- Calls that touch other tables only.
same_users-IsValid :
    (db : Db) (sessions : List Session) (app_state : List (Text × Text))
    → IsValid db
    → IsValid (record { users = db.users; sessions = sessions; app_state = app_state })
same_users-IsValid db sessions app_state v = record { keys = v.keys; has_admin = v.has_admin }

open_session-IsValid :
    (j o : Text) (ip agent : Option Text) (e now : ℕ) (db : Db)
    → IsValid db
    → IsValid (create_session j o ip agent e now db).1
unfolding create_session
open_session-IsValid j o ip agent e now db v =
    elim (Bool-cases
      (any (λ s. text_eq s.session_id j) db.sessions || not (any (has_id o) db.users))) [
        | inl t ↦ rw t v
        | inr t ↦ rw t (same_users-IsValid db _ db.app_state v)
      ]

after-IsValid : (b : Bcrypt) (c : StoreCall) (db : Db) → IsValid db → IsValid (after b c db)
unfolding after set_password_hash_silent reset_failed_logins delete_session delete_user_sessions
    cleanup_expired_sessions set_app_state delete_app_state is_active_admin
after-IsValid b (create i now name pw role comment) db v =
    create_user-IsValid b i now name pw role comment db v
after-IsValid b (update i role comment enabled now) db v =
    update_user-IsValid i role comment enabled now db v
after-IsValid b (remove i) db v = delete_user-IsValid i db v
after-IsValid b (revoke i) db v = bump-IsValid i db v
after-IsValid b (rehash i h) db v =
    update_existing-IsValid i (λ u. record u { password_hash = h }) db (λ u. refl) (λ u. refl) v
after-IsValid b (password i pw now) db v = change_password-IsValid b i pw now db v
after-IsValid b (login_failed i n m now) db v = login_failed-IsValid i n m now db v
after-IsValid b (login_reset i) db v =
    bookkeeping-IsValid i (λ u. record u { failed_login_attempts = 0; locked_until = none }) db
      (λ u. refl) (λ u. refl) v
after-IsValid b (open_session j o ip agent e now) db v =
    open_session-IsValid j o ip agent e now db v
after-IsValid b (close_session j) db v = same_users-IsValid db _ db.app_state v
after-IsValid b (close_sessions o) db v = same_users-IsValid db _ db.app_state v
after-IsValid b (clean_up now) db v = same_users-IsValid db _ db.app_state v
after-IsValid b (set_state k w) db v = same_users-IsValid db db.sessions _ v
after-IsValid b (delete_state k) db v = same_users-IsValid db db.sessions _ v

-- Whatever calls are made of a store, in whatever order and whether they succeed or not, the ids
-- of its users stay distinct and an enabled administrator stays in it, if the store had both
-- before.
pub after_all-IsValid :
    (b : Bcrypt) (cs : List StoreCall) (db : Db) → IsValid db → IsValid (after_all b cs db)
unfolding after_all
after_all-IsValid b [] db v = v
after_all-IsValid b (c ∷ cs) db v = after_all-IsValid b cs (after b c db) (after-IsValid b c db v)
