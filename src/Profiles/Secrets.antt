-- ===== src/Profiles/Secrets.antt =====
-- The encryption of a profile's secrets (apps/snx-edge-server/src/db_secrets.rs).
use snx_edge.Common.{
  ℕ, ◌≡◌, ◌==◌, Bool, true, false, List, [], ◌∷◌, Option, none, some, Text, codes, length,
  if◌then◌else◌,
}
use snx_edge.Errors.{Result, ok, err, internal, ok_or}
use snx_edge.Json.{
  Json, string, number, object, null, bool, array, Fields, end, field, get, insert, remove,
  as_object, as_str, str_of,
}

-- ChaCha20-Poly1305 on the bytes of a text, and base64. `unseal` fails also where the bytes are no text.
pub record Cipher : Type 1 where
  pub Key : Type 0
  pub seal : Key → List ℕ → Text → Option (List ℕ)
  pub unseal : Key → List ℕ → List ℕ → Option Text
  pub b64_encode : List ℕ → Text
  pub b64_decode : Text → Option (List ℕ)

abbrev pub nonce_length : ℕ
nonce_length = 12

-- What the libraries document: a sealed text opens under its key and nonce, and bytes come back.
pub record Opens (a : Cipher) : Type 0 where
  pub unseal-seal :
      (key : a.Key) (nonce : List ℕ) (plain : Text) (ct : List ℕ)
      → a.seal key nonce plain ≡ some ct
      → a.unseal key nonce ct ≡ some plain
  pub decode-encode : (bytes : List ℕ) → a.b64_decode (a.b64_encode bytes) ≡ some bytes

abbrev pub password : Text
password = codes "password"

abbrev pub cert_password : Text
cert_password = codes "cert_password"

abbrev pub enc_marker : Text
enc_marker = codes "__enc_v"

abbrev pub enc_version : Json
enc_version = number (codes "1")

abbrev pub enc_key : Text
enc_key = codes "__enc"

abbrev pub nonce_key : Text
nonce_key = codes "__nonce"

abbrev pub and_then : {A B : Type 0} → Result A → (A → Result B) → Result B
and_then (ok a) f = f a
and_then (err e) f = err e

abbrev pub is_some : {A : Type 0} → Option A → Bool
is_some none = false
is_some (some a) = true

abbrev pub is_empty : Text → Bool
is_empty [] = true
is_empty (c ∷ s) = false

-- The shape of a value that is encrypted already.
abbrev pub has_enc : Option Fields → Bool
has_enc none = false
has_enc (some o) = is_some (get enc_key o)

module _ (a : Cipher) where
  abbrev pub sealed : List ℕ → List ℕ → Json
  sealed nonce ct =
      object (
        field enc_key (string (a.b64_encode ct))
          (field nonce_key (string (a.b64_encode nonce)) end))

  -- The object so far, and `wrote_any`.
  abbrev pub Written : Type 0
  Written = Fields × Bool

  abbrev pub put_sealed : Text → List ℕ → Option (List ℕ) → Written → Result Written
  put_sealed name nonce none w = err internal
  put_sealed name nonce (some ct) (o, wrote) = ok (insert name (sealed nonce ct) o, true)

  abbrev pub encrypt_text : a.Key → List ℕ → Text → Option Text → Written → Result Written
  encrypt_text key nonce name none w = ok w
  encrypt_text key nonce name (some plain) w =
      if is_empty plain then ok w else put_sealed name nonce (a.seal key nonce plain) w

  abbrev pub encrypt_existing : a.Key → List ℕ → Text → Option Json → Written → Result Written
  encrypt_existing key nonce name none w = ok w
  encrypt_existing key nonce name (some existing) (o, wrote) =
      if has_enc (as_object existing)
      then ok (o, true)
      else encrypt_text key nonce name (as_str existing) (o, wrote)

  -- One turn of the loop over `SECRET_FIELDS`.
  unfoldable pub encrypt_field : a.Key → List ℕ → Text → Written → Result Written
  encrypt_field key nonce name w = encrypt_existing key nonce name (get name w.0) w

  abbrev pub marked : Written → Fields
  marked (o, wrote) = if wrote then insert enc_marker enc_version o else o

  unfoldable pub encrypt_object : a.Key → (Text → List ℕ) → Fields → Result Fields
  encrypt_object key nonces o =
      and_then (encrypt_field key (nonces password) password (o, false)) (λ w.
        and_then (encrypt_field key (nonces cert_password) cert_password w) (λ v. ok (marked v)))

  abbrev pub as_value : Result Fields → Result Json
  as_value (ok o) = ok (object o)
  as_value (err e) = err e

  -- `nonces` are the random nonces of the fields.
  unfoldable pub encrypt_profile_secrets : a.Key → (Text → List ℕ) → Json → Result Json
  encrypt_profile_secrets key nonces (object o) = as_value (encrypt_object key nonces o)
  encrypt_profile_secrets key nonces null = ok null
  encrypt_profile_secrets key nonces (bool b) = ok (bool b)
  encrypt_profile_secrets key nonces (number n) = ok (number n)
  encrypt_profile_secrets key nonces (string s) = ok (string s)
  encrypt_profile_secrets key nonces (array xs) = ok (array xs)

  -- A nonce of another length is refused.
  abbrev pub opened : a.Key → Option (List ℕ) → Option (List ℕ) → Result Text
  opened key (some ct) (some nonce) =
      if length nonce == nonce_length then ok_or internal (a.unseal key nonce ct) else err internal
  opened key _ _ = err internal

  abbrev pub decrypt_entry : a.Key → Text → Option Text → Option Text → Fields → Result Fields
  decrypt_entry key name (some enc) (some nonce) o =
      and_then (opened key (a.b64_decode enc) (a.b64_decode nonce))
        (λ plain. ok (insert name (string plain) o))
  decrypt_entry key name _ _ o = ok o

  abbrev pub decrypt_existing : a.Key → Text → Option Fields → Fields → Result Fields
  decrypt_existing key name none o = ok o
  decrypt_existing key name (some entry) o =
      decrypt_entry key name (str_of (get enc_key entry)) (str_of (get nonce_key entry)) o

  abbrev pub object_of : Option Json → Option Fields
  object_of none = none
  object_of (some v) = as_object v

  unfoldable pub decrypt_field : a.Key → Text → Fields → Result Fields
  decrypt_field key name o = decrypt_existing key name (object_of (get name o)) o

  unfoldable pub decrypt_object : a.Key → Fields → Result Fields
  decrypt_object key o =
      if is_some (get enc_marker o)
      then and_then (decrypt_field key password o)
          (λ p. and_then (decrypt_field key cert_password p) (λ q. ok (remove enc_marker q)))
      else ok o

  unfoldable pub decrypt_profile_secrets : a.Key → Json → Result Json
  decrypt_profile_secrets key (object o) = as_value (decrypt_object key o)
  decrypt_profile_secrets key null = ok null
  decrypt_profile_secrets key (bool b) = ok (bool b)
  decrypt_profile_secrets key (number n) = ok (number n)
  decrypt_profile_secrets key (string s) = ok (string s)
  decrypt_profile_secrets key (array xs) = ok (array xs)

abbrev pub marker_in : Option Fields → Bool
marker_in none = false
marker_in (some o) = is_some (get enc_marker o)

unfoldable pub is_encrypted : Json → Bool
is_encrypted v = marker_in (as_object v)
