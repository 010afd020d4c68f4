-- ===== src/Auth/Server.antt =====
-- The state of the server that its handlers share (AppState of state.rs), and the check of a request's
-- token (require_auth of api/auth.rs).
use snx_edge.Common.{
  ℕ, ◌-◌, Bool, not, List, ◌∷◌, Option, none, some, Text, codes, text_eq, strip_prefix, keep, find,
  ltb, ◌==◌, if◌then◌else◌,
}
use snx_edge.Errors.{
  AppError, unauthorized, Result, ok, err, M, ◌>>=◌, ◌>>◌, return, fail, lift, ok_or,
}
use snx_edge.Users.Store.{Db, Bcrypt, get_token_generation}
use snx_edge.Auth.Permissions.{Claims}

pub record TokenGenEntry : Type 0 where
  pub owner : Text
  pub generation : ℕ
  pub fetched_at : ℕ

pub record Server : Type 0 where
  pub db : Db
  pub token_gen_cache : List TokenGenEntry

-- The two clocks of a request: the time of day in seconds, and the monotonic clock in milliseconds.
pub record Clock : Type 0 where
  pub utc : ℕ
  pub instant : ℕ

-- The token library, for the secret of the process: a token is read at a time of day.
pub record Jwt : Type 0 where
  pub encode : Claims → Option Text
  pub decode : ℕ → Text → Option Claims

pub record AuthConfig : Type 0 where
  pub access_token_ttl_minutes : ℕ
  pub refresh_token_ttl_days : ℕ
  pub max_login_attempts : ℕ
  pub lockout_duration_minutes : ℕ
  pub enforce_token_generation : Bool

-- What a process does not change: its libraries and its configuration.
pub record Process : Type 0 where
  pub bcrypt : Bcrypt
  pub jwt : Jwt
  pub config : AuthConfig

-- A query of the store, from a handler.
abbrev pub stored : {A : Type 0} → Result A × Db → Server → Result A × Server
stored (r, db) s = (r, record s { db = db })

abbrev pub query : {A : Type 0} → M Db A → M Server A
query m s = stored (m s.db) s

-- `map_err`
abbrev pub failed_as : {A : Type 0} → AppError → Result A → Result A
failed_as e (ok a) = ok a
failed_as e (err f) = err e

abbrev pub map_err : {A : Type 0} → AppError → M Server A → M Server A
map_err e m s = let (r, t) = m s in (failed_as e r, t)

-- A result that the caller looks at itself.
abbrev pub attempt : {A : Type 0} → M Server A → M Server (Result A)
attempt m s = let (r, t) = m s in (ok r, t)

-- An effect whose result is thrown away.
abbrev pub swallow : {A : Type 0} → M Server A → M Server (Unit {0})
swallow m s = (ok tt, (m s).1)

unfoldable pub is_owner : Text → TokenGenEntry → Bool
is_owner i e = text_eq e.owner i

unfoldable pub without : Text → List TokenGenEntry → List TokenGenEntry
without i cache = keep (λ e. not (is_owner i e)) cache

-- `HashMap::insert` and `HashMap::remove`
unfoldable pub refresh_token_generation_cache : Clock → Text → Option ℕ → M Server (Unit {0})
refresh_token_generation_cache t i (some g) s = (
  ok tt,
  record s {
    token_gen_cache =
        record { owner = i; generation = g; fetched_at = t.instant } ∷ without i s.token_gen_cache;
  },
)
refresh_token_generation_cache t i none s =
    (ok tt, record s { token_gen_cache = without i s.token_gen_cache })

-- `CACHE_TTL`, in milliseconds.
abbrev pub cache_ttl : ℕ
cache_ttl = 30000

-- A miss.
unfoldable pub fetch_token_generation : Clock → Text → M Server ℕ
fetch_token_generation t i = do
  g ← map_err unauthorized (query (get_token_generation i))
  refresh_token_generation_cache t i (some g)
  return g

-- `Instant::elapsed` is zero for an instant that is not past.
unfoldable pub cached_or_fetched : Clock → Text → Option TokenGenEntry → M Server ℕ
cached_or_fetched t i none = fetch_token_generation t i
cached_or_fetched t i (some e) =
    if ltb (t.instant - e.fetched_at) cache_ttl
    then return e.generation
    else fetch_token_generation t i

unfoldable pub lookup_token_generation : Clock → Text → M Server ℕ
lookup_token_generation t i s = cached_or_fetched t i (find (is_owner i) s.token_gen_cache) s

unfoldable pub decode_token : Process → Clock → Text → Result Claims
decode_token p t token = ok_or unauthorized (p.jwt.decode t.utc token)

unfoldable pub check_generation : Process → Clock → Claims → M Server (Unit {0})
check_generation p t claims =
    if p.config.enforce_token_generation
    then (do
      current ← lookup_token_generation t claims.sub
      if current == claims.token_generation then return tt else fail unauthorized)
    else return tt

-- The header's value, and then the claims that the request goes on with.
unfoldable pub require_auth : Process → Clock → Option Text → M Server Claims
require_auth p t header = do
  value ← lift (ok_or unauthorized header)
  token ← lift (ok_or unauthorized (strip_prefix (codes "Bearer ") value))
  claims ← lift (decode_token p t token)
  if text_eq claims.token_type (codes "access") then return tt else fail unauthorized
  check_generation p t claims
  return claims
