-- ===== src/Auth/CacheSteps.antt =====
-- The steps of a handler that read or write the cache of token generations (state.rs, api/auth.rs).
use snx_edge.Common.{ℕ, ◌-◌, ◌≡◌, refl, sym, ◌∙◌, Option, none, some, Text, find, ltb}
use snx_edge.Errors.{AppError, unauthorized, Result, ok, err, M, ◌>>◌, return, then_run}
use snx_edge.Users.Store.{Db, get_token_generation, bump_token_generation}
use snx_edge.Auth.Server.{
  Server, Clock, TokenGenEntry, query, map_err, failed_as, swallow, is_owner, cache_ttl,
  refresh_token_generation_cache, fetch_token_generation, cached_or_fetched,
  lookup_token_generation,
}
use snx_edge.Auth.Handlers.{cache_read, recache, cache_bump, bump_and_cache}
use snx_edge.Auth.Generations.{generation_in}
use snx_edge.Auth.Coherent.{
  Coherent, CoherentBut, Ends, Triple, Keeps, bind-Triple, if-Keeps, query-Keeps, refresh-Triple,
}
use snx_edge.Auth.Writes.{Written, Bumped, bump-Triple}

-- A query that only reads, or that writes to other tables.
pub read-Keeps :
    {A : Type 0} (m : M Db A) → ((db : Db) → (m db).1.users ≡ db.users) → Keeps (query m)
read-Keeps m same = query-Keeps m (λ db i g h. rw (same db) h)

pub map_err-Keeps : {A : Type 0} (e : AppError) (m : M Server A) → Keeps m → Keeps (map_err e m)
map_err-Keeps {A = A} e m k s h = go (m s) (k s h)
  where
    go :
        (r : Result A × Server)
        → Ends (λ a. Coherent) r
        → Ends (λ a. Coherent) (failed_as e r.0, r.1)
    go (ok a, t) q = q
    go (err f, t) q = q

pub swallow-Keeps : {A : Type 0} (m : M Server A) → Keeps m → Keeps (swallow m)
swallow-Keeps {A = A} m k s h = go (m s) (k s h)
  where
    go : (r : Result A × Server) → Ends (λ a. Coherent) r → Coherent r.1
    go (ok a, t) q = q
    go (err f, t) q = q

cache_read-Triple :
    (t : Clock) (k : Text) (r : Result ℕ)
    → Triple
        (λ s.
          CoherentBut k s
          × (r ≡ generation_in k s.db.users)
          × ((g : ℕ) × (generation_in k s.db.users ≡ ok g)))
        (cache_read t k r)
        (λ _. Coherent)
cache_read-Triple t k (ok g) s (but, same, _) = refresh-Triple t k g s (but, sym same)
cache_read-Triple t k (err e) s (but, same, (g, here)) = let no : err e ≡ ok g = same ∙ here in cc

pub recache-Triple : (t : Clock) (k : Text) → Triple (Written k) (recache t k) (λ _. Coherent)
unfolding recache get_token_generation
recache-Triple t k s (but, here) =
    cache_read-Triple t k (generation_in k s.db.users) s (but, refl, here)

fetch-Keeps : (t : Clock) (k : Text) → Keeps (fetch_token_generation t k)
unfolding fetch_token_generation get_token_generation
fetch-Keeps t k s h = go (generation_in k s.db.users) refl
  where
    go :
        (r : Result ℕ)
        → generation_in k s.db.users ≡ r
        → Ends
            (λ a. Coherent)
            (then_run
              (failed_as unauthorized r)
              (λ g. refresh_token_generation_cache t k (some g) >> return g)
              s)
    go (err e) q = h
    go (ok g) q =
        bind-Triple (λ s. CoherentBut k s × (generation_in k s.db.users ≡ ok g)) (λ _. Coherent)
          (λ _. Coherent) (refresh_token_generation_cache t k (some g)) (λ _. return g)
          (refresh-Triple t k g) (λ _ s h. h) s ((λ i e apart c. h i e c), q)

pub lookup-Keeps : (t : Clock) (k : Text) → Keeps (lookup_token_generation t k)
unfolding lookup_token_generation
lookup-Keeps t k s h = go (find (is_owner k) s.token_gen_cache)
  where
    go : (o : Option TokenGenEntry) → Ends (λ a. Coherent) (cached_or_fetched t k o s)
    go none = unfold cached_or_fetched in (fetch-Keeps t k s h)
    go (some e) =
        unfold cached_or_fetched in
        (if-Keeps (ltb (t.instant - e.fetched_at) cache_ttl) (return e.generation)
          (fetch_token_generation t k) (λ s h. h) (fetch-Keeps t k) s h)

cache_bump-Keeps :
    (t : Clock) (k : Text) (o : Option ℕ)
    → Triple (Bumped k o) (cache_bump t k (ok o)) (λ _. Coherent)
cache_bump-Keeps t k none s h = h
cache_bump-Keeps t k (some g) s (but, here) = refresh-Triple t k g s (but, here)

pub bump_and_cache-Keeps : (t : Clock) (k : Text) → Keeps (bump_and_cache t k)
unfolding bump_and_cache
bump_and_cache-Keeps t k s h =
    let (o, e, b) = bump-Triple k s h in
    rw e (cache_bump-Keeps t k o (query (bump_token_generation k) s).1 b)
