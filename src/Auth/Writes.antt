-- ===== src/Auth/Writes.antt =====
-- What each query of the store leaves of the agreement between the cache and the store.
use snx_edge.Common.{
  ℕ, ◌+◌, ◌*◌, ◌||◌, leb, ◌≡◌, refl, ap, ◌∙◌, inl, inr, Bool, not, ◌&&◌, [], ◌∷◌, ◌++◌, Option,
  none, some, Text, codes, text_eq, byte_len, any, find, ltb, Bool-cases,
}
use snx_edge.Errors.{internal, Result, ok, err, ◌>>◌, ok_or, then_run}
use snx_edge.Users.Store.{
  User, Db, Bcrypt, bcrypt_cost, has_id, update_where, generation_of, get_user_by_id, other_admin,
  or_else, updated, removes_admin, privileges_reduced, update_row, update_user, delete_rows,
  delete_checked, delete_user, update_existing, bumped, bump_token_generation,
  set_password_hash_silent, change_password, failed_once, locked_at, lock_if_over,
  record_failed_login, reset_failed_logins, new_user, insert_user, create_user,
}
use snx_edge.Users.Rows.{create_session}
use snx_edge.Auth.Generations.{
  generation_in, generation-kept, generation-other, any→find, find-written, generation-deleted,
  find-snoc,
}
use snx_edge.Auth.Server.{Server, query, stored}
use snx_edge.Auth.Coherent.{Coherent, CoherentBut, Ends, Triple, Steady}

pub reset_failed_logins-Steady : (k : Text) → Steady (reset_failed_logins k)
unfolding reset_failed_logins
reset_failed_logins-Steady k db i g h =
    generation-kept k i (λ u. record u { failed_login_attempts = 0; locked_until = none }) db.users
      (λ u. refl) (λ u. refl)
    ∙ h

pub set_password_hash_silent-Steady : (k hash : Text) → Steady (set_password_hash_silent k hash)
unfolding set_password_hash_silent
set_password_hash_silent-Steady k hash db i g h = elim (Bool-cases (any (has_id k) db.users)) [
  | inl e ↦ rw e (
      generation-kept k i (λ u. record u { password_hash = hash }) db.users (λ u. refl) (λ u. refl)
      ∙ h)
  | inr e ↦ rw e h
]

pub record_failed_login-Steady :
    (k : Text) (max_attempts minutes now : ℕ)
    → Steady (record_failed_login k max_attempts minutes now)
unfolding record_failed_login failed_once
record_failed_login-Steady k max_attempts minutes now db i g h =
    go (find (has_id k) (update_where k failed_once db.users))
  where
    once : generation_in i (update_where k failed_once db.users) ≡ ok g
    once = generation-kept k i failed_once db.users (λ u. refl) (λ u. refl) ∙ h

    go :
        (o : Option User)
        → generation_in i
            (lock_if_over k max_attempts
              (now + minutes * 60)
              o
              (record db { users = update_where k failed_once db.users })).1.users
          ≡ ok g
    go none = unfold lock_if_over in once
    go (some u) =
        unfold lock_if_over in
        (elim (Bool-cases (leb max_attempts u.failed_login_attempts)) [
          | inl e ↦ rw e (
              generation-kept k i (locked_at (now + minutes * 60))
                (update_where k failed_once db.users) (λ u. refl) (λ u. refl)
              ∙ once)
          | inr e ↦ rw e once
        ])

pub create_session-Steady :
    (jti owner : Text) (ip agent : Option Text) (expires now : ℕ)
    → Steady (create_session jti owner ip agent expires now)
unfolding create_session
create_session-Steady jti owner ip agent expires now db i g h =
    elim (Bool-cases
      (any (λ s. text_eq s.session_id jti) db.sessions || not (any (has_id owner) db.users))) [
        | inl e ↦ rw e h
        | inr e ↦ rw e h
      ]

insert_user-Steady : (v : User) → Steady (insert_user v)
unfolding insert_user
insert_user-Steady v db i g h =
    elim (Bool-cases (any (λ w. text_eq w.username v.username || text_eq w.id v.id) db.users)) [
      | inl e ↦ rw e h
      | inr e ↦ rw e (go (find (has_id i) db.users) refl h)
    ]
  where
    go :
        (o : Option User)
        → find (has_id i) db.users ≡ o
        → generation_of o ≡ ok g
        → generation_in i (db.users ++ v ∷ []) ≡ ok g
    go none e q = cc
    go (some u) e q = rw (find-snoc i db.users v u e) q

pub create_user-Steady :
    (b : Bcrypt) (id : Text) (now : ℕ) (name password role comment : Text)
    → Steady (create_user b id now name password role comment)
unfolding create_user
create_user-Steady b id now name password role comment db i g h =
    elim (Bool-cases (ltb (byte_len password) 8)) [
      | inl e ↦ rw e h
      | inr e ↦ rw e (go (b.hash password bcrypt_cost))
    ]
  where
    last :
        (r : Result (Unit {0}) × Db)
        → generation_in i r.1.users ≡ ok g
        → generation_in i (then_run r.0 (λ _. get_user_by_id id) r.1).1.users ≡ ok g
    last (ok a, db2) q = unfold get_user_by_id in q
    last (err e, db2) q = q

    go :
        (o : Option Text)
        → generation_in i
            (then_run
              (ok_or internal o)
              (λ hash. insert_user (new_user id name hash role comment now) >> get_user_by_id id)
              db).1.users
          ≡ ok g
    go none = h
    go (some hash) =
        let v = new_user id name hash role comment now in
        last (insert_user v db) (insert_user-Steady v db i g h)

-- The user `k` is there, with some generation, and the others agree with the cache.
abbrev pub Written : Text → Server → Type 0
Written k s = CoherentBut k s × ((g : ℕ) × (generation_in k s.db.users ≡ ok g))

pub written :
    (k : Text) (f : User → User) (s : Server) (db : Db) (u : User)
    → ((u : User) → (f u).id ≡ u.id)
    → find (has_id k) s.db.users ≡ some u
    → db.users ≡ update_where k f s.db.users
    → Coherent s
    → Written k (record s { db = db })
written k f s db u same e q h = (
  (λ i c apart found. rw q (generation-other k i f s.db.users same apart ∙ h i c found)),
  ((f u).token_generation, rw q (ap generation_of (find-written k f s.db.users u same e))),
)

pub update_user-Triple :
    (k : Text) (role comment : Option Text) (enabled : Option Bool) (now : ℕ)
    → Triple Coherent (query (update_user k role comment enabled now)) (λ u. Written k)
unfolding update_user get_user_by_id update_row
update_user-Triple k role comment enabled now s h = go (find (has_id k) s.db.users) refl
  where
    go :
        (o : Option User)
        → find (has_id k) s.db.users ≡ o
        → Ends (λ u. Written k) (stored (update_user k role comment enabled now s.db) s)
    go none e = unfold update_user get_user_by_id in (rw e h)
    go (some u) e =
        let new_role = or_else role u.role in
        let new_comment = or_else comment u.comment in
        let new_enabled = or_else enabled u.enabled in
        let reduced = privileges_reduced u new_role new_enabled in
        let f : User → User = λ v. updated v new_role new_comment new_enabled now reduced in
        let same : (v : User) → (f v).id ≡ v.id = λ v. unfold updated in refl in
        unfold update_user get_user_by_id update_row in
        (elim (Bool-cases
          (removes_admin u new_role new_enabled && not (other_admin k s.db.users))) [
            | inl r ↦ rw (e, r) h
            | inr r ↦
                rw (e, r)
                  (rw (find-written k f s.db.users u same e) (
                    written k f s (record s.db { users = update_where k f s.db.users }) u same e
                      refl h))
          ])

update_existing-Triple :
    (k : Text) (f : User → User)
    → ((u : User) → (f u).id ≡ u.id)
    → Triple Coherent (query (update_existing k f)) (λ _. Written k)
update_existing-Triple k f same s h = elim (Bool-cases (any (has_id k) s.db.users)) [
  | inl e ↦
      (let (u, q) = any→find k s.db.users e in
        rw e (written k f s (record s.db { users = update_where k f s.db.users }) u same q refl h))
  | inr e ↦ rw e h
]

pub change_password-Triple :
    (b : Bcrypt) (k password : Text) (now : ℕ)
    → Triple Coherent (query (change_password b k password now)) (λ _. Written k)
unfolding change_password
change_password-Triple b k password now s h = elim (Bool-cases (ltb (byte_len password) 8)) [
  | inl e ↦ rw e h
  | inr e ↦ rw e (go (b.hash password bcrypt_cost))
]
  where
    go :
        (o : Option Text)
        → Ends
            (λ _. Written k)
            (stored
              (then_run
                (ok_or internal o)
                (λ hash. update_existing k (λ u. record u {
                  password_hash = hash;
                  token_generation = u.token_generation + 1;
                  updated_at = now;
                }))
                s.db)
              s)
    go none = h
    go (some hash) =
        update_existing-Triple k
          (λ u. record u {
            password_hash = hash;
            token_generation = u.token_generation + 1;
            updated_at = now;
          })
          (λ u. refl) s h

pub delete_user-Triple : (k : Text) → Triple Coherent (query (delete_user k)) (λ _. CoherentBut k)
unfolding delete_user
delete_user-Triple k s h = elim (Bool-cases (other_admin k s.db.users)) [
  | inl e ↦ rw e rows
  | inr e ↦ rw e (go (find (has_id k) s.db.users))
]
  where
    rows : Ends (λ _. CoherentBut k) (stored (delete_rows k s.db) s)
    rows =
        unfold delete_rows in
        (elim (Bool-cases (any (has_id k) s.db.users)) [
          | inl e ↦ rw e (λ i c apart found. generation-deleted k i s.db.users apart ∙ h i c found)
          | inr e ↦ rw e h
        ])

    go : (o : Option User) → Ends (λ _. CoherentBut k) (stored (delete_checked k o s.db) s)
    go none = unfold delete_checked in h
    go (some u) =
        unfold delete_checked in
        (elim (Bool-cases (text_eq u.role (codes "admin"))) [ inl e ↦ rw e h | inr e ↦ rw e rows ])

-- The row is there and has the generation that was read back, or nothing was written.
abbrev pub Bumped : Text → Option ℕ → Server → Type 0
Bumped k none s = Coherent s
Bumped k (some g) s = CoherentBut k s × (generation_in k s.db.users ≡ ok g)

pub bump-Triple :
    (k : Text) (s : Server)
    → Coherent s
    → (o : Option ℕ) × ((query (bump_token_generation k) s).0 ≡ ok o)
      × Bumped k o (query (bump_token_generation k) s).1
unfolding bump_token_generation
bump-Triple k s h = elim (Bool-cases (any (has_id k) s.db.users)) [
  | inl e ↦
      (let (u, q) = any→find k s.db.users e in
        let found = find-written k bumped s.db.users u (λ u. refl) q in
        rw e (
          rw found (
            some (u.token_generation + 1),
            refl,
            (
              (λ i c apart there.
                  generation-other k i bumped s.db.users (λ u. refl) apart ∙ h i c there),
              ap generation_of found,
            ),
          )))
  | inr e ↦ rw e (none, refl, h)
]
