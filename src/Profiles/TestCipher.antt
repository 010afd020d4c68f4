-- ===== src/Profiles/TestCipher.antt =====
-- A cipher and a serializer to run the profiles with (db_secrets.rs).
use snx_edge.Common.{ℕ, ◌≡◌, refl, List, [], ◌∷◌, Option, none, some, Text}
use snx_edge.Json.TestCodec.{parse, print}
use snx_edge.Profiles.Secrets.{Cipher, Opens}
use snx_edge.Profiles.Store.{Serde}

-- It keeps the key before the text.
abbrev pub shift : Cipher
shift = record {
  Key = ℕ;
  seal = λ key nonce plain. some (key ∷ plain);
  unseal = λ key nonce ct. rest_of ct;
  b64_encode = λ bytes. bytes;
  b64_decode = λ t. some t;
}
  where
    rest_of : List ℕ → Option Text
    rest_of [] = none
    rest_of (c ∷ t) = some t

pub shift-Opens : Opens shift
shift-Opens = record { unseal-seal = opens; decode-encode = λ bytes. refl }
  where
    opens :
        (key : ℕ) (nonce : List ℕ) (plain ct : List ℕ)
        → shift.seal key nonce plain ≡ some ct
        → shift.unseal key nonce ct ≡ some plain
    opens key nonce plain ct h = let is : key ∷ plain ≡ ct = cc in rw (← is) refl

abbrev pub serde : Serde
serde = record { parse = parse; print = print }

abbrev pub nonces : Text → List ℕ
nonces name = 7 ∷ 7 ∷ 7 ∷ 7 ∷ 7 ∷ 7 ∷ 7 ∷ 7 ∷ 7 ∷ 7 ∷ 7 ∷ 7 ∷ []
