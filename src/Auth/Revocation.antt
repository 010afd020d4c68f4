-- ===== src/Auth/Revocation.antt =====
-- The requests that revoke the tokens of a user (api/users.rs), and what `require_auth` says of an old
-- token after them.
use snx_edge.Common.{
  ℕ, ◌+◌, ◌<◌, ◌≤◌, ◌≡◌, ◌≢◌, refl, sym, ap, ◌∙◌, inl, inr, true, false, ◌++◌, Option, none, some,
  Text, codes, text_eq, find, any, ◌==◌, ==_iff, arith, Bool-cases, strip_prefix-append,
  if◌then◌else◌,
}
use snx_edge.Errors.{unauthorized, Result, ok, err, ◌>>◌, return, fail, then_run}
use snx_edge.Users.Store.{
  User, has_id, generation_of, get_token_generation, bumped, bump_token_generation, or_else,
  privileges_reduced,
}
use snx_edge.Auth.Permissions.{Claims}
use snx_edge.Auth.Server.{
  Server, Clock, Process, failed_as, decode_token, require_auth, refresh_token_generation_cache,
}
use snx_edge.Auth.Handlers.{
  UpdateUserRequest, ChangePasswordRequest, update_user, delete_user, change_my_password,
  change_user_password, revoke_user_tokens,
}
use snx_edge.Auth.Generations.{generation_in, find→any, find-written}
use snx_edge.Auth.Coherent.{Coherent}
use snx_edge.Auth.Requests.{Request, serve, serve-Coherent}
use snx_edge.Auth.Bumps.{
  delete_user-gone, put_user-bumps, change_my_password-bumps, change_user_password-bumps,
}
use snx_edge.Auth.Gate.{ask_store, compared, require_auth-uncached}

abbrev pub bearer : Text → Option Text
bearer token = some (codes "Bearer " ++ token)

-- A token of the user `i` that was issued when the generation was `g` or less.
pub record OldToken (p : Process) (t : Clock) (token i : Text) (g : ℕ) : Type 0 where
  pub claims : Claims
  pub decodes : p.jwt.decode t.utc token ≡ some claims
  pub owner : claims.sub ≡ i
  pub issued : claims.token_generation ≤ g

refused-claims :
    (p : Process) (claims : Claims) (s : Server)
    → p.config.enforce_token_generation ≡ true
    → generation_in claims.sub s.db.users ≢ ok claims.token_generation
    → (((if text_eq claims.token_type (codes "access") then return tt else fail unauthorized)
          >> (ask_store p claims >> return claims))
        s).0
      ≡ err unauthorized
unfolding get_token_generation
refused-claims p claims s enforced other =
    elim (Bool-cases (text_eq claims.token_type (codes "access"))) [
      | inl e ↦ rw (e, enforced) (go (generation_in claims.sub s.db.users) refl)
      | inr e ↦ rw e refl
    ]
  where
    go :
        (r : Result ℕ)
        → generation_in claims.sub s.db.users ≡ r
        → (((λ u. then_run (failed_as unauthorized r) (compared claims) u) >> return claims) s).0
          ≡ err unauthorized
    go (err e) q = refl
    go (ok g) q = elim (Bool-cases (g == claims.token_generation)) [
      | inl e ↦ absurd (other (q ∙ ap ok ((==_iff g claims.token_generation).0 e)))
      | inr e ↦ rw e refl
    ]

stale-refused :
    (p : Process) (t : Clock) (token : Text) (claims : Claims) (s : Server)
    → Coherent s
    → p.config.enforce_token_generation ≡ true
    → p.jwt.decode t.utc token ≡ some claims
    → generation_in claims.sub s.db.users ≢ ok claims.token_generation
    → (require_auth p t (bearer token) s).0 ≡ err unauthorized
unfolding decode_token
stale-refused p t token claims s h enforced decodes other =
    require_auth-uncached p t (bearer token) s h
    ∙ rw (strip_prefix-append (codes "Bearer ") token, decodes)
        (refused-claims p claims s enforced other)

-- The generation has gone past the token's, or the user has gone.
pub old-refused :
    (p : Process) (t : Clock) (token i : Text) (g : ℕ) (s : Server)
    → OldToken p t token i g
    → Coherent s
    → p.config.enforce_token_generation ≡ true
    → ((h : ℕ) → generation_in i s.db.users ≡ ok h → g < h)
    → (require_auth p t (bearer token) s).0 ≡ err unauthorized
old-refused p t token i g s old h enforced past =
    stale-refused p t token old.claims s h enforced old.decodes (λ same.
      let late : g < old.claims.token_generation =
        past old.claims.token_generation (rw (← old.owner) same) in
      let early = old.issued in omega (arith, late, early))

-- An equation on a generation decides it.
decided : (r : Result ℕ) (g : ℕ) → r ≡ ok (g + 1) → (h : ℕ) → r ≡ ok h → g < h
decided r g e h q =
    let both : ok (g + 1) ≡ ok h = sym e ∙ q in let same : g + 1 ≡ h = cc in omega (arith, same)

module _ (p : Process) (t later : Clock) (token : Text) (s : Server) (h : Coherent s)
    (enforced : p.config.enforce_token_generation ≡ true) where
  -- After an administrator has called `revoke_user_tokens` for a user that exists, `require_auth`
  -- refuses, at any time, each token of that user that was issued at its old generation or before,
  -- on a server whose cache agreed with the store and that enforces the generations.
  pub revoke_user_tokens-revokes :
      (caller : Claims) (i : Text) (u : User)
      → text_eq caller.role (codes "admin") ≡ true
      → find (has_id i) s.db.users ≡ some u
      → OldToken p later token i u.token_generation
      → (require_auth p later (bearer token) (revoke_user_tokens t caller i s).1).0
        ≡ err unauthorized
  revoke_user_tokens-revokes caller i u is_admin found old =
      old-refused p later token i u.token_generation (revoke_user_tokens t caller i s).1 old
        (unfold serve in (serve-Coherent p t (Request.revoke_tokens caller i) s h)) enforced
        (decided _ u.token_generation after)
    where
      after :
          generation_in i (revoke_user_tokens t caller i s).1.db.users ≡ ok (u.token_generation + 1)
      after =
          let written = find-written i bumped s.db.users u (λ u. refl) found in
          unfold revoke_user_tokens bump_token_generation refresh_token_generation_cache in
          (rw (is_admin, find→any i s.db.users u found, written) (ap generation_of written))

  -- After `delete_user` has succeeded, `require_auth` refuses, at any time, each token of the
  -- deleted user, on a server whose cache agreed with the store and that enforces the generations.
  pub delete_user-revokes :
      (caller : Claims) (i : Text) (g : ℕ)
      → (delete_user t caller i s).0 ≡ ok tt
      → OldToken p later token i g
      → (require_auth p later (bearer token) (delete_user t caller i s).1).0 ≡ err unauthorized
  delete_user-revokes caller i g done old =
      old-refused p later token i g (delete_user t caller i s).1 old
        (unfold serve in (serve-Coherent p t (Request.remove_user caller i) s h)) enforced
        (λ k q.
          let none_left : generation_of none ≡ ok k =
            rw (delete_user-gone t caller i s done) at q in
          cc)

  -- After an update that succeeds and changes the role of a user or disables it, `require_auth`
  -- refuses, at any time, each token of that user that was issued at its old generation or before,
  -- on a server whose cache agreed with the store and that enforces the generations.
  pub update_user-revokes :
      (caller : Claims) (i : Text) (req : UpdateUserRequest) (u v : User)
      → find (has_id i) s.db.users ≡ some u
      → privileges_reduced u (or_else req.new_role u.role) (or_else req.new_enabled u.enabled)
        ≡ true
      → (update_user t caller i req s).0 ≡ ok v
      → OldToken p later token i u.token_generation
      → (require_auth p later (bearer token) (update_user t caller i req s).1).0 ≡ err unauthorized
  update_user-revokes caller i req u v found reduced done old =
      old-refused p later token i u.token_generation (update_user t caller i req s).1 old
        (unfold serve in (serve-Coherent p t (Request.put_user caller i req) s h)) enforced
        (decided _ u.token_generation (put_user-bumps t caller i req s u v found reduced done))

  -- After `change_user_password` has succeeded for a user, `require_auth` refuses, at any time,
  -- each token of that user that was issued at its old generation or before, and no session of the
  -- user is left, on a server whose cache agreed with the store and that enforces the generations.
  pub change_user_password-revokes :
      (caller : Claims) (i : Text) (req : ChangePasswordRequest) (u : User)
      → find (has_id i) s.db.users ≡ some u
      → (change_user_password p.bcrypt t caller i req s).0 ≡ ok tt
      → OldToken p later token i u.token_generation
      → ((require_auth p later (bearer token) (change_user_password p.bcrypt t caller i req s).1).0
          ≡ err unauthorized)
        × (any
              (λ r. text_eq r.user_id i)
              (change_user_password p.bcrypt t caller i req s).1.db.sessions
            ≡ false)
  change_user_password-revokes caller i req u found done old =
      let (bumped_once, gone) = change_user_password-bumps p.bcrypt t caller i req s u found done in
      (
        old-refused p later token i u.token_generation
            (change_user_password p.bcrypt t caller i req s).1 old
            (unfold serve in (serve-Coherent p t (Request.put_password caller i req) s h)) enforced
            (decided _ u.token_generation bumped_once),
        gone,
      )

  -- After `change_my_password` has succeeded, `require_auth` refuses, at any time, each token of
  -- the caller that was issued at its old generation or before, and no session of the caller is
  -- left, on a server whose cache agreed with the store and that enforces the generations.
  pub change_my_password-revokes :
      (caller : Claims) (req : ChangePasswordRequest) (u : User)
      → find (has_id caller.sub) s.db.users ≡ some u
      → (change_my_password p.bcrypt t caller req s).0 ≡ ok tt
      → OldToken p later token caller.sub u.token_generation
      → ((require_auth p later (bearer token) (change_my_password p.bcrypt t caller req s).1).0
          ≡ err unauthorized)
        × (any
              (λ r. text_eq r.user_id caller.sub)
              (change_my_password p.bcrypt t caller req s).1.db.sessions
            ≡ false)
  change_my_password-revokes caller req u found done old =
      let (bumped_once, gone) = change_my_password-bumps p.bcrypt t caller req s u found done in
      (
        old-refused p later token caller.sub u.token_generation
            (change_my_password p.bcrypt t caller req s).1 old
            (unfold serve in
              (serve-Coherent p t (Request.put_my_password caller caller.sub req) s h))
            enforced (decided _ u.token_generation bumped_once),
        gone,
      )
