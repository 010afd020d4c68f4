-- ===== src/Auth/TestServer.antt =====
-- A process whose tokens spell their claims out, and a server with a small store.
use snx_edge.Common.{
  inl, inr, Bool-cases, text_eq, text_eq→≡, ℕ, zero, suc, ◌≡◌, refl, ap, true, List, [], ◌∷◌, ◌++◌,
  Option, none, some, Text, codes, length, take, drop, leb, arith, if◌then◌else◌,
}
use snx_edge.Users.TestStore.{store, plain}
use snx_edge.Errors.{ok}
use snx_edge.Users.Store.{has_id}
use snx_edge.Auth.Permissions.{Claims, admin_permissions, operator_permissions}
use snx_edge.Auth.Server.{Server, Clock, Process, Jwt, is_owner}
use snx_edge.Auth.Coherent.{Coherent}
use snx_edge.Auth.Issue.{RoundTrips}

-- A text with its length before it, in front of more.
abbrev pub spell : Text → Text → Text
spell s rest = length s ∷ (s ++ rest)

abbrev pub spell_all : List Text → Text → Text
spell_all [] rest = rest
spell_all (s ∷ ss) rest = spell s (spell_all ss rest)

abbrev pub first_text : Text → Text
first_text [] = []
first_text (n ∷ s) = take n s

abbrev pub after_text : Text → Text
after_text [] = []
after_text (n ∷ s) = drop n s

abbrev pub read_texts : ℕ → Text → List Text
read_texts zero s = []
read_texts (suc n) s = first_text s ∷ read_texts n (after_text s)

abbrev pub after_texts : ℕ → Text → Text
after_texts zero s = s
after_texts (suc n) s = after_texts n (after_text s)

take-append : (s rest : Text) → take (length s) (s ++ rest) ≡ s
take-append [] rest = refl
take-append (c ∷ s) rest = ap (λ z. c ∷ z) (take-append s rest)

drop-append : (s rest : Text) → drop (length s) (s ++ rest) ≡ rest
drop-append [] rest = refl
drop-append (c ∷ s) rest = drop-append s rest

read-spell : (ss : List Text) (rest : Text) → read_texts (length ss) (spell_all ss rest) ≡ ss
read-spell [] rest = refl
read-spell (s ∷ ss) rest =
    rw (take-append s (spell_all ss rest), drop-append s (spell_all ss rest), read-spell ss rest)
      refl

abbrev pub encoded : Claims → Text
encoded c =
    c.exp
    ∷ c.iat
    ∷ c.token_generation
    ∷ length c.permissions
    ∷ spell_all (c.sub ∷ c.role ∷ c.jti ∷ c.token_type ∷ c.permissions) []

abbrev pub get : List Text → ℕ → Text
get [] n = []
get (s ∷ ss) zero = s
get (s ∷ ss) (suc n) = get ss n

abbrev pub claims_of : ℕ → ℕ → ℕ → List Text → Claims
claims_of exp iat generation ss = record {
  sub = get ss 0;
  role = get ss 1;
  permissions = drop 4 ss;
  exp = exp;
  iat = iat;
  jti = get ss 2;
  token_type = get ss 3;
  token_generation = generation;
}

abbrev pub decoded : ℕ → Text → Option Claims
decoded now (exp ∷ iat ∷ generation ∷ n ∷ s) =
    if leb now exp
    then some (claims_of exp iat generation (read_texts (suc (suc (suc (suc n)))) s))
    else none
decoded now _ = none

abbrev pub jwt : Jwt
jwt = record { encode = λ c. some (encoded c); decode = decoded }

pub jwt-RoundTrips : RoundTrips jwt
jwt-RoundTrips c token now e early =
    let same : encoded c ≡ token = cc in
    let live : leb now c.exp ≡ true = ground (arith, early) in
    rw (← same) (
      rw live (
        ap (λ ss. some (claims_of c.exp c.iat c.token_generation ss))
          (read-spell (c.sub ∷ c.role ∷ c.jti ∷ c.token_type ∷ c.permissions) [])))

abbrev pub process : Process
process = record {
  bcrypt = plain;
  jwt = jwt;
  config = record {
    access_token_ttl_minutes = 15;
    refresh_token_ttl_days = 7;
    max_login_attempts = 3;
    lockout_duration_minutes = 10;
    enforce_token_generation = true;
  };
}

-- The generation of bob is cached.
abbrev pub server : Server
server = record {
  db = store;
  token_gen_cache = record { owner = codes "u2"; generation = 2; fetched_at = 1000 } ∷ [];
}

abbrev pub morning : Clock
morning = record { utc = 1000; instant = 5000 }

abbrev pub later : Clock
later = record { utc = 1060; instant = 65000 }

pub server-Coherent : Coherent server
unfolding is_owner has_id
server-Coherent i e found = elim (Bool-cases (text_eq (codes "u2") i)) [
  | inl k ↦
      (let here : some (record { owner = codes "u2"; generation = 2; fetched_at = 1000 }) ≡ some e =
          rw k at found in
        let same : 2 ≡ e.generation = cc in
        let name : codes "u2" ≡ i = text_eq→≡ (codes "u2") i k in
        rw (← name) (unfold text_eq in (ap ok same)))
  | inr k ↦ (let no : none ≡ some e = rw k at found in cc)
]

abbrev pub alices_claims : Claims
alices_claims = record {
  sub = codes "u1";
  role = codes "admin";
  permissions = admin_permissions;
  exp = 5000;
  iat = 900;
  jti = codes "a1";
  token_type = codes "access";
  token_generation = 4;
}

abbrev pub bobs_claims : Claims
bobs_claims = record {
  sub = codes "u2";
  role = codes "operator";
  permissions = operator_permissions;
  exp = 5000;
  iat = 900;
  jti = codes "b1";
  token_type = codes "access";
  token_generation = 2;
}

abbrev pub bobs_token : Text
bobs_token = encoded bobs_claims

abbrev pub bobs_refresh_claims : Claims
bobs_refresh_claims = record bobs_claims {
  exp = 600000;
  jti = codes "s1";
  token_type = codes "refresh";
}

abbrev pub bobs_refresh_token : Text
bobs_refresh_token = encoded bobs_refresh_claims
