-- ===== src/Auth/Issue.antt =====
-- What login and refresh give out (api/auth.rs): tokens that `require_auth` takes, and a refresh token
-- that serves once.
use mathlib.Core.Path.{subst}
use snx_edge.Common.{
  ℕ, ◌+◌, ◌*◌, ◌≤◌, ◌≡◌, refl, sym, ap, ◌∙◌, inl, inr, Bool, true, false, not, ◌||◌, Option, none,
  some, Text, codes, text_eq, text_eq_refl, find, any, ◌==◌, arith, Bool-cases, strip_prefix-append,
  if◌then◌else◌,
}
use snx_edge.Errors.{
  AppError, unauthorized, internal, Result, ok, M, ◌>>◌, return, fail, lift, ok_or, bind-ok,
}
use snx_edge.Users.Store.{
  User, Db, has_id, get_user_by_username, get_token_generation, reset_failed_logins,
  record_failed_login,
}
use snx_edge.Users.Rows.{create_session}
use snx_edge.Auth.Permissions.{Claims, permissions_for_role}
use snx_edge.Auth.Server.{Server, Clock, Process, Jwt, query, decode_token, require_auth}
use snx_edge.Auth.Login.{
  Sender, Ids, TokenResponse, token_claims, access_claims, refresh_claims, refresh_exp,
  issue_tokens, check_lock, require_enabled, rehash_if_outdated, welcome, wrong_password, login,
}
use snx_edge.Auth.Generations.{generation_in}
use snx_edge.Auth.Coherent.{Coherent}
use snx_edge.Auth.Requests.{Request, serve, serve-Coherent}
use snx_edge.Auth.Gate.{ask_store, require_auth-uncached}
use snx_edge.Auth.Revocation.{bearer}

-- A token reads back as the claims it was made of, until they expire.
abbrev pub RoundTrips : Jwt → Type 0
RoundTrips jwt =
    (c : Claims) (token : Text) (now : ℕ)
    → jwt.encode c ≡ some token
    → now ≤ c.exp
    → jwt.decode now token ≡ some c

ok_or-ok : {A : Type 0} (e : AppError) (o : Option A) (a : A) → ok_or e o ≡ ok a → o ≡ some a
ok_or-ok e none a h = cc
ok_or-ok e (some b) a h = let same : b ≡ a = cc in ap some same

generation-ok :
    (t : Text) (s : Server) (g : ℕ)
    → (query (get_token_generation t) s).0 ≡ ok g
    → generation_in t s.db.users ≡ ok g
unfolding get_token_generation
generation-ok t s g h = h

create_session-users :
    (jti owner : Text) (ip agent : Option Text) (expires now : ℕ) (db : Db)
    → (create_session jti owner ip agent expires now db).1.users ≡ db.users
unfolding create_session
create_session-users jti owner ip agent expires now db =
    elim (Bool-cases
      (any (λ s. text_eq s.session_id jti) db.sessions || not (any (has_id owner) db.users))) [
        | inl e ↦ rw e refl
        | inr e ↦ rw e refl
      ]

-- The access token that is issued is for the generation of the store.
pub issue_tokens-access :
    (p : Process) (t : Clock) (ids : Ids) (sender : Sender) (i role : Text) (s : Server)
    (r : TokenResponse)
    → (issue_tokens p t ids sender i role s).0 ≡ ok r
    → (g : ℕ) × (generation_in i s.db.users ≡ ok g)
      × (p.jwt.encode (access_claims p t ids i role g) ≡ some r.access_token)
      × ((issue_tokens p t ids sender i role s).1
          ≡ (query
              (create_session ids.refresh_jti i sender.ip sender.user_agent (refresh_exp p t) t.utc)
              s).1)
unfolding issue_tokens get_token_generation
issue_tokens-access p t ids sender i role s r done =
    let (g, have, second, to_second) = bind-ok (query (get_token_generation i)) _ s r done in
    let current = (query (get_token_generation i) s).1 in
    let (access, encoded, third, to_third) =
      bind-ok (lift (ok_or unauthorized (p.jwt.encode (access_claims p t ids i role g)))) _ current
        r second in
    let (refreshed, _, fourth, to_fourth) =
      bind-ok (lift (ok_or unauthorized (p.jwt.encode (refresh_claims p t ids i role g)))) _ current
        r third in
    let open_session : M Server (Unit {0}) =
      query
        (create_session ids.refresh_jti i sender.ip sender.user_agent (refresh_exp p t) t.utc) in
    let (_, _, fifth, to_fifth) = bind-ok open_session _ current r fourth in
    let after = (open_session current).1 in
    let same : record {
      access_token = access;
      refresh_token = refreshed;
      token_type = codes "Bearer";
      expires_in = p.config.access_token_ttl_minutes * 60;
    }
        ≡ r =
      cc in
    (
      g,
      have,
      ok_or-ok unauthorized _ access encoded ∙ ap (λ x. some x.access_token) same,
      to_second ∙ to_third ∙ to_fourth ∙ to_fifth,
    )

-- The end of a handler in an issue of tokens that succeeds.
abbrev Issued :
    Process → Clock → Ids → Sender → User → TokenResponse → Result TokenResponse × Server → Type 0
Issued p t ids sender u r end =
    (before : Server) × ((issue_tokens p t ids sender u.id u.role before).0 ≡ ok r)
    × (end.1 ≡ (issue_tokens p t ids sender u.id u.role before).1)

welcome-issues :
    (p : Process) (t : Clock) (ids : Ids) (sender : Sender) (password : Text) (s : Server)
    (u : User) (r : TokenResponse)
    → (welcome p t ids sender password u s).0 ≡ ok r
    → Issued p t ids sender u r (welcome p t ids sender password u s)
unfolding welcome
welcome-issues p t ids sender password s u r h =
    let (_, _, h2, to2) = bind-ok (query (reset_failed_logins u.id)) _ s r h in
    let rehash = rehash_if_outdated p.bcrypt u.id password u.password_hash in
    let s2 = (query (reset_failed_logins u.id) s).1 in
    let (_, _, h3, to3) = bind-ok rehash _ s2 r h2 in ((rehash s2).1, h3, to2 ∙ to3)

wrong_password-fails :
    (p : Process) (t : Clock) (i : Text) (s : Server) (r : TokenResponse)
    → (wrong_password p t i s).0 ≡ ok r
    → ⊥
unfolding wrong_password
wrong_password-fails p t i s r h =
    let record_it =
      query (
        record_failed_login i p.config.max_login_attempts p.config.lockout_duration_minutes
          t.utc) in
    let (_, _, last, _) = bind-ok record_it _ s r h in cc

-- A login that succeeds ends in the issue of tokens for the user of that name.
login-issues :
    (p : Process) (t : Clock) (ids : Ids) (sender : Sender) (name password : Text) (s : Server)
    (u : User) (r : TokenResponse)
    → find (λ u. text_eq u.username name) s.db.users ≡ some u
    → (login p t ids sender name password s).0 ≡ ok r
    → (before : Server) × ((issue_tokens p t ids sender u.id u.role before).0 ≡ ok r)
      × ((login p t ids sender name password s).1
          ≡ (issue_tokens p t ids sender u.id u.role before).1)
unfolding login get_user_by_username
login-issues p t ids sender name password s u r found done =
    let first = rw found at done in
    let locking = check_lock t u.id u.locked_until in
    let (_, _, second, to_second) = bind-ok locking _ s r first in
    let (_, _, third, to_third) = bind-ok (require_enabled u) _ (locking s).1 r second in
    let ready = (require_enabled u (locking s).1).1 in
    let (valid, _, fourth, to_fourth) =
      bind-ok (lift (ok_or internal (p.bcrypt.verify password u.password_hash))) _ ready r third in
    let (before, issued, last) = finish valid ready fourth in
    (before, issued, rw found (to_second ∙ to_third ∙ to_fourth ∙ last))
  where
    finish :
        (valid : Bool) (s : Server)
        → ((if valid then welcome p t ids sender password u else wrong_password p t u.id) s).0
          ≡ ok r
        → (before : Server) × ((issue_tokens p t ids sender u.id u.role before).0 ≡ ok r)
          × (((if valid then welcome p t ids sender password u else wrong_password p t u.id) s).1
              ≡ (issue_tokens p t ids sender u.id u.role before).1)
    finish true s h = welcome-issues p t ids sender password s u r h
    finish false s h = absurd (wrong_password-fails p t u.id s r h)

accepted :
    (p : Process) (i role : Text) (exp now : ℕ) (jti : Text) (g : ℕ) (s : Server)
    → generation_in i s.db.users ≡ ok g
    → (((if text_eq (token_claims i role exp now jti (codes "access") g).token_type (codes "access")
            then return tt
            else fail unauthorized)
          >> (ask_store p (token_claims i role exp now jti (codes "access") g)
              >> return (token_claims i role exp now jti (codes "access") g)))
        s).0
      ≡ ok (token_claims i role exp now jti (codes "access") g)
unfolding token_claims get_token_generation
accepted p i role exp now jti g s current =
    rw (text_eq_refl (codes "access")) (elim (Bool-cases p.config.enforce_token_generation) [
      | inl e ↦ rw (e, current, same) refl
      | inr e ↦ rw e refl
    ])
  where
    same : (g == g) ≡ true
    same = ground arith

-- An answer of `require_auth` that lets a request pass as a user with a role, until a time and for a
-- generation.
abbrev pub PassesAs : Result Claims → Text → Text → ℕ → ℕ → Type 0
PassesAs answer i role exp g =
    (c : Claims) × (answer ≡ ok c)
    × (c.sub ≡ i)
    × (c.role ≡ role)
    × (c.permissions ≡ permissions_for_role role)
    × (c.exp ≡ exp)
    × (c.token_generation ≡ g)

pub issued-admits :
    (p : Process) (t later : Clock) (ids : Ids) (sender : Sender) (i role : Text) (s : Server)
    (r : TokenResponse)
    → Coherent (issue_tokens p t ids sender i role s).1
    → RoundTrips p.jwt
    → (issue_tokens p t ids sender i role s).0 ≡ ok r
    → later.utc ≤ t.utc + p.config.access_token_ttl_minutes * 60
    → (g : ℕ) × (generation_in i s.db.users ≡ ok g)
      × (generation_in i (issue_tokens p t ids sender i role s).1.db.users ≡ ok g)
      × PassesAs
          (require_auth p later (bearer r.access_token) (issue_tokens p t ids sender i role s).1).0
          i
          role
          (t.utc + p.config.access_token_ttl_minutes * 60)
          g
unfolding decode_token access_claims token_claims
issued-admits p t later ids sender i role s r coherent round issued early =
    let (g, current, encoded, opened) = issue_tokens-access p t ids sender i role s r issued in
    let final = (issue_tokens p t ids sender i role s).1 in
    let generation : generation_in i final.db.users ≡ ok g =
      rw (opened, create_session-users) current in
    (
      g,
      current,
      generation,
      (
        access_claims p t ids i role g,
        require_auth-uncached p later (bearer r.access_token) final coherent
            ∙ rw
                (
                  strip_prefix-append (codes "Bearer ") r.access_token,
                  round (access_claims p t ids i role g) r.access_token later.utc encoded early,
                )
                (accepted p i role (t.utc + p.config.access_token_ttl_minutes * 60) t.utc
                  ids.access_jti g final generation),
        refl,
        refl,
        refl,
        refl,
        refl,
      ),
    )

-- After a login that succeeds and until the access token expires, `require_auth` takes that token
-- and passes on claims with the id and the role of the user of that name, the permissions of that
-- role, the end of the token's life, and the generation that the user has in the store; the cache
-- agreed with the store before, and the token library reads its own tokens back.
pub login-admits :
    (p : Process) (t later : Clock) (ids : Ids) (sender : Sender) (name password : Text)
    (s : Server) (u : User) (r : TokenResponse)
    → Coherent s
    → RoundTrips p.jwt
    → find (λ u. text_eq u.username name) s.db.users ≡ some u
    → (login p t ids sender name password s).0 ≡ ok r
    → later.utc ≤ t.utc + p.config.access_token_ttl_minutes * 60
    → (g : ℕ) × (generation_in u.id (login p t ids sender name password s).1.db.users ≡ ok g)
      × PassesAs
          (require_auth p later (bearer r.access_token) (login p t ids sender name password s).1).0
          u.id
          u.role
          (t.utc + p.config.access_token_ttl_minutes * 60)
          g
login-admits p t later ids sender name password s u r h round found done early =
    let (before, issued, end) = login-issues p t ids sender name password s u r found done in
    let final = (login p t ids sender name password s).1 in
    let coherent : Coherent final =
      unfold serve in (serve-Coherent p t (Request.log_in ids sender name password) s h) in
    let (g, _, current, admitted) =
      issued-admits p t later ids sender u.id u.role before r (subst Coherent end coherent) round
        issued early in
    (
      g,
      subst (λ (q : Server). generation_in u.id q.db.users ≡ ok g) (sym end) current,
      subst
          (λ (q : Server).
            PassesAs (require_auth p later (bearer r.access_token) q).0 u.id u.role
              (t.utc + p.config.access_token_ttl_minutes * 60) g)
          (sym end) admitted,
    )
