-- ===== src/Config/Limits.antt =====
-- What an update of the configuration keeps, and what it lets through (api/config.rs, config.rs).
use mathlib.Core.Path.{subst}
use snx_edge.Common.{
  ℕ, ◌≤◌, ◌≡◌, refl, sym, ap, ◌∙◌, Bool, true, false, not, ◌&&◌, ◌||◌, inl, inr, Option, none, some,
  Text, codes, arith, Bool-cases, split_and, if◌then◌else◌,
}
use snx_edge.Errors.{bad_request, internal, Result, ok, err, ◌>>◌, lift, bind-after, bind-at}
use snx_edge.Auth.Permissions.{Claims, require_permission}
use snx_edge.Profiles.Secrets.{and_then, is_some}
use snx_edge.Users.Store.{or_else}
use snx_edge.Config.{
  AuthConfig, LoggingConfig, AppConfig, RouterOsConfig, Sockets, tls_enabled, check_pair, validate,
  check_exposure, exposed, exposed_at,
}
use snx_edge.Config.Update.{
  UpdateConfigRequest, UpdateAuthConfig, UpdateLoggingConfig, ConfigState, positive, level_ok,
  logging_ok, auth_ok, auth_applied, logging_applied, applied, listen_ok, request_ok, check_request,
  persist, invalidate_if, update_config, routeros_client,
}

-- The numbers that may not be 0: no lockout, tokens that expire at once, or a log buffer without room.
abbrev pub Limited : AppConfig → Type 0
Limited config =
    (1 ≤ config.auth.max_login_attempts)
    × (1 ≤ config.auth.lockout_duration_minutes)
    × (1 ≤ config.auth.access_token_ttl_minutes)
    × (1 ≤ config.auth.refresh_token_ttl_days)
    × (1 ≤ config.logging.buffer_size)

positive-or_else : (o : Option ℕ) (n : ℕ) → positive o ≡ true → 1 ≤ n → 1 ≤ or_else o n
positive-or_else none n h le = le
positive-or_else (some m) n h le = ground (arith, h)

auth-Limited :
    (u : Option UpdateAuthConfig) (a : AuthConfig)
    → auth_ok u ≡ true
    → (1 ≤ a.max_login_attempts)
      × (1 ≤ a.lockout_duration_minutes)
      × (1 ≤ a.access_token_ttl_minutes)
      × (1 ≤ a.refresh_token_ttl_days)
    → (1 ≤ (auth_applied u a).max_login_attempts)
      × (1 ≤ (auth_applied u a).lockout_duration_minutes)
      × (1 ≤ (auth_applied u a).access_token_ttl_minutes)
      × (1 ≤ (auth_applied u a).refresh_token_ttl_days)
auth-Limited none a h l = l
auth-Limited (some u) a h (l1, l2, l3, l4) =
    let (h123, h4) = split_and _ _ h in
    let (h12, h3) = split_and _ _ h123 in
    let (h1, h2) = split_and _ _ h12 in
    (
      positive-or_else u.max_login_attempts a.max_login_attempts h1 l1,
      positive-or_else u.lockout_duration_minutes a.lockout_duration_minutes h2 l2,
      positive-or_else u.access_token_ttl_minutes a.access_token_ttl_minutes h3 l3,
      positive-or_else u.refresh_token_ttl_days a.refresh_token_ttl_days h4 l4,
    )

logging-Limited :
    (u : Option UpdateLoggingConfig) (l : LoggingConfig)
    → logging_ok u ≡ true
    → 1 ≤ l.buffer_size
    → 1 ≤ (logging_applied u l).buffer_size
logging-Limited none l h le = le
logging-Limited (some u) l h le =
    let (_, h2) = split_and (level_ok u.level) (positive u.buffer_size) h in
    positive-or_else u.buffer_size l.buffer_size h2 le

module _ (y : Sockets) (save : AppConfig → Bool) where
  applied-Limited :
      (req : UpdateConfigRequest) (config : AppConfig)
      → request_ok y save req ≡ true
      → Limited config
      → Limited (applied req config)
  unfolding request_ok applied
  applied-Limited req config h (l1, l2, l3, l4, l5) =
      let (h12, h3) =
        split_and (logging_ok req.logging && listen_ok y save req.listen) (auth_ok req.auth) h in
      let (h1, _) = split_and (logging_ok req.logging) (listen_ok y save req.listen) h12 in
      let (m1, m2, m3, m4) = auth-Limited req.auth config.auth h3 (l1, l2, l3, l4) in
      (m1, m2, m3, m4, logging-Limited req.logging config.logging h1 l5)

  -- The steps after the checks end in the new configuration, whether it is saved or not.
  after_apply-config :
      (req : UpdateConfigRequest) (s : ConfigState)
      → ((persist y save >> invalidate_if y save (is_some req.routeros))
          (record s { config = applied req s.config })).1.config
        ≡ applied req s.config
  after_apply-config req s =
      bind-after (λ (t : ConfigState). t.config ≡ applied req s.config) (persist y save) _
        (record s { config = applied req s.config }) (λ _ _. left (is_some req.routeros))
        (λ _ _. refl)
    where
      left :
          (b : Bool)
          → (invalidate_if y save b (record s { config = applied req s.config })).1.config
            ≡ applied req s.config
      left true = refl
      left false = refl

  -- An update of the configuration, whether it succeeds or not, leaves the number of login
  -- attempts, the time of a lockout, the lives of both tokens and the room of the log buffer at 1
  -- or more, if they were before.
  pub update_config-Limited :
      (claims : Claims) (req : UpdateConfigRequest) (s : ConfigState)
      → Limited s.config
      → Limited (update_config y save claims req s).1.config
  unfolding update_config
  update_config-Limited claims req s limited =
      bind-after (λ (t : ConfigState). Limited t.config)
        (lift (require_permission claims (codes "config.write"))) _ s
        (λ _ _. elim (Bool-cases (request_ok y save req)) [
          | inr no_good ↦ rw no_good limited
          | inl good ↦ rw good (
              subst Limited (sym (after_apply-config req s))
                (applied-Limited req s.config good limited))
        ])
        (λ _ _. limited)

  -- An update that is saved.
  update_config-run :
      (claims : Claims) (req : UpdateConfigRequest) (s : ConfigState)
      → require_permission claims (codes "config.write") ≡ ok tt
      → request_ok y save req ≡ true
      → update_config y save claims req s
        ≡ (persist y save >> invalidate_if y save (is_some req.routeros))
            (record s { config = applied req s.config })
  unfolding update_config
  update_config-run claims req s allowed good =
      bind-at (lift (require_permission claims (codes "config.write"))) _ s s tt
        (ap (λ (r : Result (Unit {0})). (r, s)) allowed)
      ∙ bind-at (check_request y save req) _ s s tt (rw good refl)

  saved-ok :
      (b : Bool) (t : ConfigState)
      → save t.config ≡ true
      → ((persist y save >> invalidate_if y save b) t).0 ≡ ok tt
  saved-ok true t h = rw h refl
  saved-ok false t h = rw h refl

  exposed-invalid :
      (config : AppConfig) → exposed y config ≡ true → validate y config ≡ err bad_request
  unfolding validate
  exposed-invalid config h = pair config.api.tls_cert config.api.tls_key _ (
      certs (
        not (tls_enabled config.api)
        && (is_some config.api.require_client_cert || is_some config.api.tls_client_ca_optional)))
    where
      pair :
          (cert key : Option Text) (rest : Result (Unit {0}))
          → rest ≡ err bad_request
          → and_then (check_pair cert key) (λ _. rest) ≡ err bad_request
      pair (some cert) none rest e = refl
      pair none (some key) rest e = refl
      pair (some cert) (some key) rest e = e
      pair none none rest e = e

      certs :
          (b : Bool)
          → and_then
              (if b then err bad_request else ok tt)
              (λ (_ : Unit {0}). check_exposure y config)
            ≡ err bad_request
      certs true = refl
      certs false = rw h refl

  -- An update that its caller may make, that passes its checks and that is saved succeeds and
  -- leaves a configuration that the next start of the server refuses, where TLS is not configured,
  -- serving in the clear is not allowed, and the address to listen on in the end is not a
  -- loopback.
  pub update_config-exposes :
      (claims : Claims) (req : UpdateConfigRequest) (s : ConfigState)
      → require_permission claims (codes "config.write") ≡ ok tt
      → request_ok y save req ≡ true
      → save (applied req s.config) ≡ true
      → tls_enabled s.config.api ≡ false
      → s.config.security.allow_plaintext_api ≡ false
      → exposed_at y (y.parse (applied req s.config).api.listen) ≡ true
      → ((update_config y save claims req s).0 ≡ ok tt)
        × (validate y (update_config y save claims req s).1.config ≡ err bad_request)
  unfolding applied
  update_config-exposes claims req s allowed good saved plain refused reachable =
      let run = update_config-run claims req s allowed good in
      (
        ap (λ r. r.0) run
            ∙ saved-ok (is_some req.routeros) (record s { config = applied req s.config }) saved,
        ap (λ (r : Result (Unit {0}) × ConfigState). validate y r.1.config) run
            ∙ ap (validate y) (after_apply-config req s)
            ∙ exposed-invalid (applied req s.config) (rw (plain, refused, reachable) refl),
      )

  pub update_config-stale :
      (builds : RouterOsConfig → Bool) (claims : Claims) (req : UpdateConfigRequest)
      (s : ConfigState) (r : RouterOsConfig)
      → require_permission claims (codes "config.write") ≡ ok tt
      → request_ok y save req ≡ true
      → save (applied req s.config) ≡ false
      → s.client ≡ some r
      → ((update_config y save claims req s).0 ≡ err internal)
        × ((update_config y save claims req s).1.config ≡ applied req s.config)
        × ((routeros_client y save builds (update_config y save claims req s).1).0 ≡ ok r)
  unfolding routeros_client
  update_config-stale builds claims req s r allowed good unsaved cached =
      let run = update_config-run claims req s allowed good in
      let t = (record s { config = applied req s.config }) in
      let failed : (persist y save >> invalidate_if y save (is_some req.routeros)) t
          ≡ (err internal, t) =
        rw unsaved refl in
      (
        ap (λ q. q.0) (run ∙ failed),
        ap (λ (q : Result (Unit {0}) × ConfigState). q.1.config) (run ∙ failed),
        ap (λ (q : Result (Unit {0}) × ConfigState). (routeros_client y save builds q.1).0)
              (run ∙ failed)
            ∙ rw cached refl,
      )
