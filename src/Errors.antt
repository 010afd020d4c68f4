-- ===== src/Errors.antt =====
-- Errors of the server (apps/snx-edge-server/src/error.rs), and the state and error monad of its
-- handlers. The message texts of an error are left out: no code reads them back.
use snx_edge.Common.{
  ap, ℕ, ◌≡◌, refl, Bool, true, false, List, [], ◌∷◌, Option, none, some, if◌then◌else◌,
}

pub data AppError : Type 0 where
  not_found bad_request unauthorized forbidden conflict bad_gateway unavailable internal : AppError

unfoldable pub status_code : AppError → ℕ
status_code not_found = 404
status_code bad_request = 400
status_code unauthorized = 401
status_code forbidden = 403
status_code conflict = 409
status_code bad_gateway = 502
status_code unavailable = 503
status_code internal = 500

pub data Result (A : Type 0) : Type 0 where
  ok : A → Result A
  err : AppError → Result A

abbrev pub is_ok : {A : Type 0} → Result A → Bool
is_ok (ok a) = true
is_ok (err e) = false

-- A handler over a state `S`: an error keeps the state that its effects have reached.
abbrev pub M : Type 0 → Type 0 → Type 0
M S A = S → Result A × S

abbrev pub then_run : {S A B : Type 0} → Result A → (A → M S B) → M S B
then_run (ok a) f s = f a s
then_run (err e) f s = (err e, s)

infixl 5 ◌>>=◌ ◌>>◌
abbrev pub ◌>>=◌ : {S A B : Type 0} → M S A → (A → M S B) → M S B
◌>>=◌ m f s = then_run (m s).0 f (m s).1

abbrev pub ◌>>◌ : {S B : Type 0} → M S (Unit {0}) → M S B → M S B
m >> k = m >>= λ _. k

abbrev pub return : {S A : Type 0} → A → M S A
return a s = (ok a, s)

abbrev pub fail : {S A : Type 0} → AppError → M S A
fail e s = (err e, s)

-- `?` on a value that is no effect.
abbrev pub lift : {S A : Type 0} → Result A → M S A
lift r s = (r, s)

-- `Option::ok_or`
abbrev pub ok_or : {A : Type 0} → AppError → Option A → Result A
ok_or e none = err e
ok_or e (some a) = ok a

-- `for x in xs { f(x).await?; }`
unfoldable pub for_each : {S A : Type 0} → (A → M S (Unit {0})) → List A → M S (Unit {0})
for_each f [] = return tt
for_each f (x ∷ xs) = let rest = for_each f xs in f x >> rest

-- A handler that succeeds has succeeded in its first step, and then in the rest.
pub bind-ok :
    {S A B : Type 0} (m : M S A) (f : A → M S B) (s : S) (b : B)
    → ((m >>= f) s).0 ≡ ok b
    → (a : A) × ((m s).0 ≡ ok a) × ((f a (m s).1).0 ≡ ok b) × (((m >>= f) s).1 ≡ (f a (m s).1).1)
bind-ok {S = S} {A = A} {B = B} m f s b h = go (m s) h
  where
    go :
        (r : Result A × S)
        → (then_run r.0 f r.1).0 ≡ ok b
        → (a : A) × (r.0 ≡ ok a) × ((f a r.1).0 ≡ ok b) × ((then_run r.0 f r.1).1 ≡ (f a r.1).1)
    go (ok a, t) h = (a, refl, h, refl)
    go (err e, t) h = cc

-- The rest runs where the first step has left off.
pub bind-at :
    {S A B : Type 0} (m : M S A) (f : A → M S B) (s t : S) (a : A)
    → m s ≡ (ok a, t)
    → (m >>= f) s ≡ f a t
bind-at {S = S} {A = A} m f s t a h = ap (λ (r : Result A × S). then_run r.0 f r.1) h

-- What holds of the state however the first step ends, and after the rest.
pub bind-after :
    {S A B : Type 0} (P : S → Type 0) (m : M S A) (f : A → M S B) (s : S)
    → ((a : A) → (m s).0 ≡ ok a → P (f a (m s).1).1)
    → ((e : AppError) → (m s).0 ≡ err e → P (m s).1)
    → P ((m >>= f) s).1
bind-after {S = S} {A = A} {B = B} P m f s good bad = go (m s) good bad
  where
    go :
        (r : Result A × S)
        → ((a : A) → r.0 ≡ ok a → P (f a r.1).1)
        → ((e : AppError) → r.0 ≡ err e → P r.1)
        → P (then_run r.0 f r.1).1
    go (ok a, t) good bad = good a refl
    go (err e, t) good bad = bad e refl

-- A guard that lets the handler go on has changed nothing.
pub guard-state :
    {S A : Type 0} (b : Bool) (a : A) (e : AppError) (s : S)
    → ((if b then return a else fail e) s).1 ≡ s
guard-state true a e s = refl
guard-state false a e s = refl
