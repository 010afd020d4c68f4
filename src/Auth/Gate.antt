-- ===== src/Auth/Gate.antt =====
-- `require_auth` with its cache, against a check that asks the store on each request (api/auth.rs).
use snx_edge.Common.{
  ℕ, ◌-◌, ◌≡◌, refl, inl, inr, Bool, true, false, Option, none, some, Text, codes, text_eq, find,
  ltb, ◌==◌, Bool-cases, strip_prefix, if◌then◌else◌,
}
use snx_edge.Errors.{
  unauthorized, Result, ok, err, M, ◌>>=◌, ◌>>◌, return, fail, lift, ok_or, then_run,
}
use snx_edge.Users.Store.{get_token_generation}
use snx_edge.Auth.Permissions.{Claims}
use snx_edge.Auth.Server.{
  Server, Clock, Process, TokenGenEntry, query, map_err, failed_as, is_owner, cache_ttl,
  refresh_token_generation_cache, fetch_token_generation, cached_or_fetched,
  lookup_token_generation, decode_token, check_generation, require_auth,
}
use snx_edge.Auth.Generations.{generation_in}
use snx_edge.Auth.Coherent.{Coherent}

-- The store's own answer.
abbrev pub stored_generation : Text → Server → Result ℕ
stored_generation i s = failed_as unauthorized (generation_in i s.db.users)

fetch-value :
    (t : Clock) (i : Text) (s : Server) → (fetch_token_generation t i s).0 ≡ stored_generation i s
unfolding fetch_token_generation get_token_generation refresh_token_generation_cache
fetch-value t i s = go (generation_in i s.db.users)
  where
    go :
        (r : Result ℕ)
        → (then_run
            (failed_as unauthorized r)
            (λ g. refresh_token_generation_cache t i (some g) >> return g)
            s).0
          ≡ failed_as unauthorized r
    go (ok g) = unfold refresh_token_generation_cache in refl
    go (err e) = refl

-- A lookup answers as the store does, from the cache or not.
pub lookup-value :
    (t : Clock) (i : Text) (s : Server)
    → Coherent s
    → (lookup_token_generation t i s).0 ≡ stored_generation i s
unfolding lookup_token_generation
lookup-value t i s h = go (find (is_owner i) s.token_gen_cache) refl
  where
    go :
        (o : Option TokenGenEntry)
        → find (is_owner i) s.token_gen_cache ≡ o
        → (cached_or_fetched t i o s).0 ≡ stored_generation i s
    go none e = unfold cached_or_fetched in (fetch-value t i s)
    go (some c) e =
        unfold cached_or_fetched in
        (elim (Bool-cases (ltb (t.instant - c.fetched_at) cache_ttl)) [
          | inl q ↦ rw q (rw (h i c e) refl)
          | inr q ↦ rw q (fetch-value t i s)
        ])

-- The check without the cache.
abbrev pub ask_store : Process → Claims → M Server (Unit {0})
ask_store p claims =
    if p.config.enforce_token_generation
    then (do
      current ← map_err unauthorized (query (get_token_generation claims.sub))
      if current == claims.token_generation then return tt else fail unauthorized)
    else return tt

abbrev pub require_auth_uncached : Process → Clock → Option Text → M Server Claims
require_auth_uncached p t header = do
  value ← lift (ok_or unauthorized header)
  token ← lift (ok_or unauthorized (strip_prefix (codes "Bearer ") value))
  claims ← lift (decode_token p t token)
  if text_eq claims.token_type (codes "access") then return tt else fail unauthorized
  ask_store p claims
  return claims

-- Handlers that give the same result, step by step, on states that may differ.
bind-value :
    {A B : Type 0} (m n : M Server A) (f k : A → M Server B) (s s2 : Server)
    → (m s).0 ≡ (n s2).0
    → ((a : A) (t t2 : Server) → (f a t).0 ≡ (k a t2).0)
    → ((m >>= f) s).0 ≡ ((n >>= k) s2).0
bind-value {A = A} m n f k s s2 e rest = go (m s) (n s2) e
  where
    go : (x y : Result A × Server) → x.0 ≡ y.0 → (then_run x.0 f x.1).0 ≡ (then_run y.0 k y.1).0
    go (ok a, t) (r, t2) q = rw (← q) (rest a t t2)
    go (err a, t) (r, t2) q = rw (← q) refl

-- Whether the generation that a lookup gives is the token's.
abbrev pub compared : Claims → ℕ → M Server (Unit {0})
compared claims current =
    if current == claims.token_generation then return tt else fail unauthorized

compared-value :
    (claims : Claims) (a : ℕ) (s s2 : Server) → (compared claims a s).0 ≡ (compared claims a s2).0
compared-value claims a s s2 = elim (Bool-cases (a == claims.token_generation)) [
  | inl e ↦ rw e refl
  | inr e ↦ rw e refl
]

check-value :
    (p : Process) (t : Clock) (claims : Claims) (s : Server)
    → Coherent s
    → (check_generation p t claims s).0 ≡ (ask_store p claims s).0
unfolding check_generation get_token_generation
check-value p t claims s h = elim (Bool-cases p.config.enforce_token_generation) [
  | inl e ↦ rw e (
      bind-value (lookup_token_generation t claims.sub)
        (map_err unauthorized (query (get_token_generation claims.sub))) (compared claims)
        (compared claims) s s (lookup-value t claims.sub s h)
        (λ a t1 t2. compared-value claims a t1 t2))
  | inr e ↦ rw e refl
]

-- A step that only looks leaves the state.
lift-value :
    {A B : Type 0} (r : Result A) (f k : A → M Server B) (s : Server)
    → ((a : A) → (f a s).0 ≡ (k a s).0)
    → ((lift r >>= f) s).0 ≡ ((lift r >>= k) s).0
lift-value (ok a) f k s rest = rest a
lift-value (err e) f k s rest = refl

guard-value :
    {B : Type 0} (b : Bool) (f k : Unit {0} → M Server B) (s : Server)
    → (f tt s).0 ≡ (k tt s).0
    → (((if b then return tt else fail unauthorized) >>= f) s).0
      ≡ (((if b then return tt else fail unauthorized) >>= k) s).0
guard-value true f k s rest = rest
guard-value false f k s rest = refl

-- On a server whose cache agrees with the store, `require_auth` gives each request the answer of
-- the same check without a cache, which reads the generation from the store.
pub require_auth-uncached :
    (p : Process) (t : Clock) (header : Option Text) (s : Server)
    → Coherent s
    → (require_auth p t header s).0 ≡ (require_auth_uncached p t header s).0
unfolding require_auth
require_auth-uncached p t header s h = lift-value (ok_or unauthorized header) _ _ s (λ value.
    lift-value (ok_or unauthorized (strip_prefix (codes "Bearer ") value)) _ _ s (λ token.
      lift-value (decode_token p t token) _ _ s (λ claims.
        guard-value (text_eq claims.token_type (codes "access")) _ _ s (
          bind-value (check_generation p t claims) (ask_store p claims) (λ _. return claims)
            (λ _. return claims) s s (check-value p t claims s h) (λ a t1 t2. refl)))))
