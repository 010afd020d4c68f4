-- ===== src/Auth/Lockout.antt =====
-- The lock of an account after failed logins (login of api/auth.rs, record_failed_login of db.rs).
use snx_edge.Common.{
  ℕ, ◌+◌, ◌*◌, ◌<◌, ◌≤◌, ◌≡◌, refl, inl, inr, Bool, true, false, List, [], ◌∷◌, none, some, Text,
  text_eq, text_eq_refl, length, All, find, any, ltb, leb, arith, Bool-cases, if◌then◌else◌,
}
use snx_edge.Errors.{unauthorized, Result, err}
use snx_edge.Users.Store.{
  User, has_id, update_where, get_user_by_username, failed_once, locked_at, lock_if_over,
  record_failed_login,
}
use snx_edge.Users.LastAdmin.{Distinct, Distinct-update_where, has_id→≡}
use snx_edge.Auth.Server.{Server, Clock, Process}
use snx_edge.Auth.Login.{Sender, Ids, TokenResponse, check_lock, wrong_password, login}
use snx_edge.Auth.Generations.{find-written, find→any}

abbrev pub named : Text → User → Bool
named name u = text_eq u.username name

-- A locked account refuses every login until its time, whatever the password, and nothing changes.
pub login-locked :
    (p : Process) (t : Clock) (ids : Ids) (sender : Sender) (name password : Text) (s : Server)
    (u : User) (until : ℕ)
    → find (λ u. text_eq u.username name) s.db.users ≡ some u
    → u.locked_until ≡ some until
    → t.utc < until
    → login p t ids sender name password s ≡ (err unauthorized, s)
unfolding login get_user_by_username check_lock
login-locked p t ids sender name password s u until found locked early =
    let now : ltb t.utc until ≡ true = ground (arith, early) in rw (found, locked, now) refl

find-write-named :
    (i name : Text) (f : User → User) (us : List User) (u : User)
    → ((v : User) → (f v).username ≡ v.username)
    → find (named name) us ≡ some u
    → has_id i u ≡ true
    → find (named name) (update_where i f us) ≡ some (f u)
unfolding update_where
find-write-named i name f [] u same found mine = cc
find-write-named i name f (v ∷ us) u same found mine = elim (Bool-cases (named name v)) [
  | inl e ↦
      (let q : some v ≡ some u = rw e at found in
        let vu : v ≡ u = cc in
        let t : text_eq (f u).username name ≡ true = rw (same u) (rw (← vu) e) in
        rw (vu) (rw (mine, t) refl))
  | inr e ↦
      (let t : text_eq (f v).username name ≡ false = rw (same v) e in
        elim (Bool-cases (has_id i v)) [
          | inl k ↦ rw (k, t) (find-write-named i name f us u same (rw e at found) mine)
          | inr k ↦ rw (k, e) (find-write-named i name f us u same (rw e at found) mine)
        ])
]

-- With distinct ids, the id of a row finds that row.
find-own :
    (us : List User) (q : User → Bool) (u : User)
    → Distinct us
    → find q us ≡ some u
    → find (has_id u.id) us ≡ some u
find-own [] q u k found = cc
find-own (v ∷ us) q u (fresh, k) found = elim (Bool-cases (q v)) [
  | inl e ↦
      (let same : some v ≡ some u = rw e at found in
        let vu : v ≡ u = cc in
        let mine : has_id u.id v ≡ true = unfold has_id in (rw vu (text_eq_refl u.id)) in
        rw mine same)
  | inr e ↦
      (let rest = find-own us q u k (rw e at found) in
        elim (Bool-cases (has_id u.id v)) [
          | inl m ↦
              (let same : v.id ≡ u.id = has_id→≡ u.id v m in
                let no : any (has_id u.id) us ≡ false = rw same at fresh in
                let yes = find→any u.id us u rest in cc)
          | inr m ↦ rw m rest
        ])
]

-- A wrong password for an account that is neither locked nor disabled.
pub record Guessable (p : Process) (name : Text) (s : Server) (u : User) : Type 0 where
  pub keys : Distinct s.db.users
  pub found : find (named name) s.db.users ≡ some u
  pub unlocked : u.locked_until ≡ none
  pub usable : u.enabled ≡ true

-- What a wrong password for the row `u` leaves of the rows.
abbrev failed_users : Process → Clock → User → List User → List User
failed_users p t u us =
    let once = update_where u.id failed_once us in
    if leb p.config.max_login_attempts (u.failed_login_attempts + 1)
    then update_where u.id (locked_at (t.utc + p.config.lockout_duration_minutes * 60)) once
    else once

abbrev with_users : Server → List User → Server
with_users s us = record s { db = record s.db { users = us } }

wrong_password-value :
    (p : Process) (t : Clock) (s : Server) (u : User)
    → find (has_id u.id) s.db.users ≡ some u
    → wrong_password p t u.id s ≡ (err unauthorized, with_users s (failed_users p t u s.db.users))
unfolding wrong_password record_failed_login lock_if_over failed_once
wrong_password-value p t s u here =
    let written = find-written u.id failed_once s.db.users u (λ v. refl) here in
    rw written (elim (Bool-cases (leb p.config.max_login_attempts (u.failed_login_attempts + 1))) [
      | inl e ↦ rw e refl
      | inr e ↦ rw e refl
    ])

login-wrong :
    (p : Process) (t : Clock) (ids : Ids) (sender : Sender) (name password : Text) (s : Server)
    (u : User)
    → Guessable p name s u
    → p.bcrypt.verify password u.password_hash ≡ some false
    → login p t ids sender name password s
      ≡ (err unauthorized, with_users s (failed_users p t u s.db.users))
unfolding login get_user_by_username check_lock
login-wrong p t ids sender name password s u g wrong =
    go (err unauthorized, with_users s (failed_users p t u s.db.users))
      (wrong_password-value p t s u (find-own s.db.users (named name) u g.keys g.found))
  where
    go :
        (r : Result TokenResponse × Server)
        → wrong_password p t u.id s ≡ r
        → login p t ids sender name password s ≡ r
    go r e =
        unfold login get_user_by_username check_lock in
        (rw (g.found, g.unlocked, g.usable, wrong) e)

own_id : (u : User) → has_id u.id u ≡ true
unfolding has_id
own_id u = text_eq_refl u.id

-- The failure that reaches the limit locks.
last-locks :
    (p : Process) (t later : Clock) (ids : Ids) (sender : Sender) (name password again : Text)
    (s : Server) (u : User)
    → Guessable p name s u
    → p.bcrypt.verify password u.password_hash ≡ some false
    → p.config.max_login_attempts ≤ u.failed_login_attempts + 1
    → later.utc < t.utc + p.config.lockout_duration_minutes * 60
    → login p later ids sender name again (login p t ids sender name password s).1
      ≡ (err unauthorized, (login p t ids sender name password s).1)
unfolding failed_once has_id
last-locks p t later ids sender name password again s u g wrong over early =
    let until = t.utc + p.config.lockout_duration_minutes * 60 in
    let full : leb p.config.max_login_attempts (u.failed_login_attempts + 1) ≡ true =
      ground (arith, over) in
    let once = find-write-named u.id name failed_once s.db.users u (λ v. refl) g.found (own_id u) in
    let twice =
      find-write-named u.id name (locked_at until) (update_where u.id failed_once s.db.users)
        (failed_once u) (λ v. refl) once (own_id u) in
    rw (login-wrong p t ids sender name password s u g wrong, full)
      (login-locked p later ids sender name again
        (with_users s
          (update_where u.id (locked_at until) (update_where u.id failed_once s.db.users)))
        (locked_at until (failed_once u)) until twice refl early)

-- A failure below the limit is counted.
next-Guessable :
    (p : Process) (t : Clock) (ids : Ids) (sender : Sender) (name password : Text) (s : Server)
    (u : User)
    → Guessable p name s u
    → p.bcrypt.verify password u.password_hash ≡ some false
    → u.failed_login_attempts + 1 < p.config.max_login_attempts
    → Guessable p name (login p t ids sender name password s).1 (failed_once u)
unfolding failed_once
next-Guessable p t ids sender name password s u g wrong under =
    let room : leb p.config.max_login_attempts (u.failed_login_attempts + 1) ≡ false =
      ground (arith, under) in
    rw (login-wrong p t ids sender name password s u g wrong, room)
      record {
        keys = Distinct-update_where u.id failed_once s.db.users (λ v. refl) g.keys;
        found = find-write-named u.id name failed_once s.db.users u (λ v. refl) g.found (own_id u);
        unlocked = g.unlocked;
        usable = g.usable;
      }

abbrev pub guess_all : Process → Ids → Sender → Text → List (Clock × Text) → Server → Server
guess_all p ids sender name [] s = s
guess_all p ids sender name ((t, password) ∷ gs) s =
    guess_all p ids sender name gs (login p t ids sender name password s).1

-- When wrong passwords in a row bring an enabled, unlocked account to the allowed number of
-- failures, every login to it before the lockout is over is refused, whatever its password, and
-- changes nothing; the ids of the users are distinct.
pub login-locks_out :
    (p : Process) (ids : Ids) (sender : Sender) (name : Text) (gs : List (Clock × Text))
    (t later : Clock) (password again : Text) (s : Server) (u : User)
    → Guessable p name s u
    → All (λ g. p.bcrypt.verify g.1 u.password_hash ≡ some false) ((t, password) ∷ gs)
    → u.failed_login_attempts + length gs + 1 ≡ p.config.max_login_attempts
    → later.utc < t.utc + p.config.lockout_duration_minutes * 60
    → login p later ids sender name again
        (login p t ids sender name password (guess_all p ids sender name gs s)).1
      ≡ (
        err unauthorized,
        (login p t ids sender name password (guess_all p ids sender name gs s)).1,
      )
unfolding failed_once
login-locks_out p ids sender name [] t later password again s u g (wrong, _) count early =
    last-locks p t later ids sender name password again s u g wrong (omega (arith, count)) early
login-locks_out p ids sender name ((t1, p1) ∷ gs) t later password again s u g
      (wrong, (first, rest)) count early =
    login-locks_out p ids sender name gs t later password again (login p t1 ids sender name p1 s).1
      (failed_once u) (next-Guessable p t1 ids sender name p1 s u g first (omega (arith, count)))
      (wrong, rest) (omega (arith, count)) early
