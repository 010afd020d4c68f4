-- ===== src/Auth/Coherent.antt =====
-- The cache of token generations agrees with the store, between one request and the next.
use snx_edge.Common.{
  ℕ, ◌≡◌, refl, sym, ap, ◌∙◌, inl, inr, Bool, true, false, not, List, none, some, Text, text_eq,
  text_eq→≡, text_eq_sym, find, arith, Bool-cases, if◌then◌else◌,
}
use snx_edge.Errors.{AppError, Result, ok, err, M, ◌>>=◌, return, fail, lift, then_run}
use snx_edge.Users.Store.{Db}
use snx_edge.Auth.Generations.{generation_in, find-keep, find-keep-none}
use snx_edge.Auth.Server.{
  TokenGenEntry, Server, Clock, query, attempt, is_owner, without, refresh_token_generation_cache,
}

-- Each entry of the cache that a lookup can find has the generation of the store.
abbrev pub Coherent : Server → Type 0
Coherent s =
    (i : Text) (e : TokenGenEntry)
    → find (is_owner i) s.token_gen_cache ≡ some e
    → generation_in i s.db.users ≡ ok e.generation

-- The same but for the user `k`, whose row has just been written.
abbrev pub CoherentBut : Text → Server → Type 0
CoherentBut k s =
    (i : Text) (e : TokenGenEntry)
    → text_eq k i ≡ false
    → find (is_owner i) s.token_gen_cache ≡ some e
    → generation_in i s.db.users ≡ ok e.generation

-- An error ends the handler, so that it must leave a coherent server.
abbrev pub Ends : {A : Type 0} → (A → Server → Type 0) → Result A × Server → Type 0
Ends Q (ok a, s) = Q a s
Ends Q (err e, s) = Coherent s

abbrev pub Triple : {A : Type 0} → (Server → Type 0) → M Server A → (A → Server → Type 0) → Type 0
Triple P m Q = (s : Server) → P s → Ends Q (m s)

abbrev pub Keeps : {A : Type 0} → M Server A → Type 0
Keeps {A} m = Triple Coherent m (λ a. Coherent)

pub bind-Triple :
    {A B : Type 0} (P : Server → Type 0) (Q : A → Server → Type 0) (R : B → Server → Type 0)
    (m : M Server A) (f : A → M Server B)
    → Triple P m Q
    → ((a : A) → Triple (Q a) (f a) R)
    → Triple P (m >>= f) R
bind-Triple {A = A} {B = B} P Q R m f first rest s p = go (m s) (first s p)
  where
    go : (r : Result A × Server) → Ends Q r → Ends R (then_run r.0 f r.1)
    go (ok a, t) h = rest a t h
    go (err e, t) h = h

pub bind-Keeps :
    {A B : Type 0} (m : M Server A) (f : A → M Server B)
    → Keeps m
    → ((a : A) → Keeps (f a))
    → Keeps (m >>= f)
bind-Keeps m f = bind-Triple Coherent (λ a. Coherent) (λ b. Coherent) m f

pub lift-Keeps : {A : Type 0} (r : Result A) → Keeps (lift r)
lift-Keeps (ok a) s h = h
lift-Keeps (err e) s h = h

-- A guard of a handler, or a choice between two ways on.
pub if-Keeps :
    {A : Type 0} (b : Bool) (m n : M Server A) → Keeps m → Keeps n → Keeps (if b then m else n)
if-Keeps true m n km kn = km
if-Keeps false m n km kn = kn

pub guard-Keeps :
    {A : Type 0} (b : Bool) (e : AppError) (a : A) → Keeps (if b then return a else fail e)
guard-Keeps true e a s h = h
guard-Keeps false e a s h = h

-- A query that neither changes nor loses a generation.
abbrev pub Steady : {A : Type 0} → M Db A → Type 0
Steady m =
    (db : Db) (i : Text) (g : ℕ)
    → generation_in i db.users ≡ ok g
    → generation_in i (m db).1.users ≡ ok g

pub query-Keeps : {A : Type 0} (m : M Db A) → Steady m → Keeps (query m)
query-Keeps {A = A} m steady s h = go (m s.db) (λ i e c. steady s.db i e.generation (h i e c))
  where
    go :
        (r : Result A × Db)
        → Coherent (record s { db = r.1 })
        → Ends (λ a. Coherent) (r.0, record s { db = r.1 })
    go (ok a, db) k = k
    go (err e, db) k = k

pub attempt-Keeps : {A : Type 0} (m : M Server A) → Keeps m → Keeps (attempt m)
attempt-Keeps {A = A} m k s h = go (m s) (k s h)
  where
    go : (r : Result A × Server) → Ends (λ a. Coherent) r → Coherent r.1
    go (ok a, t) q = q
    go (err e, t) q = q

cache-other :
    (i j : Text) (cache : List TokenGenEntry)
    → text_eq i j ≡ false
    → find (is_owner j) (without i cache) ≡ find (is_owner j) cache
unfolding without is_owner
cache-other i j cache apart =
    find-keep (is_owner j) (λ e. not (is_owner i e)) cache
      (λ e h.
        let off : text_eq e.owner i ≡ false =
          rw (text_eq→≡ e.owner j h) (text_eq_sym j i ∙ apart) in
        rw off refl)

cache-gone : (i : Text) (cache : List TokenGenEntry) → find (is_owner i) (without i cache) ≡ none
unfolding without
cache-gone i cache =
    find-keep-none (is_owner i) (λ e. not (is_owner i e)) cache (λ e h. ground (arith, h))

-- The entry of the written row is written too, with the generation of the store.
pub refresh-Triple :
    (t : Clock) (k : Text) (g : ℕ)
    → Triple
        (λ s. CoherentBut k s × (generation_in k s.db.users ≡ ok g))
        (refresh_token_generation_cache t k (some g))
        (λ _. Coherent)
unfolding refresh_token_generation_cache is_owner
refresh-Triple t k g s (but, here) i e c = elim (Bool-cases (text_eq k i)) [
  | inl q ↦
      (let found : some (record { owner = k; generation = g; fetched_at = t.instant }) ≡ some e =
          rw q at c in
        let same : g ≡ e.generation = cc in rw (← text_eq→≡ k i q) (here ∙ ap ok same))
  | inr q ↦ but i e q (sym (cache-other k i s.token_gen_cache q) ∙ (rw q at c))
]

-- The entry of a deleted row goes.
pub evict-Triple :
    (t : Clock) (k : Text)
    → Triple (CoherentBut k) (refresh_token_generation_cache t k none) (λ _. Coherent)
unfolding refresh_token_generation_cache
evict-Triple t k s but i e c = elim (Bool-cases (text_eq k i)) [
  | inl q ↦
      (let gone : find (is_owner i) (without k s.token_gen_cache) ≡ none =
          rw (text_eq→≡ k i q) (cache-gone i s.token_gen_cache) in
        let no : none ≡ some e = sym gone ∙ c in cc)
  | inr q ↦ but i e q (sym (cache-other k i s.token_gen_cache q) ∙ c)
]
