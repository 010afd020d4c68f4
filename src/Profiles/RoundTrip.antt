-- ===== src/Profiles/RoundTrip.antt =====
-- What is encrypted decrypts to what it was (db_secrets.rs).
use mathlib.Core.Path.{subst}
use snx_edge.Common.{ℕ, ◌≡◌, refl, sym, ap, ◌∙◌, false, List, none, Text, text_eq, length}
use snx_edge.Errors.{Result, ok, err}
use snx_edge.Json.{Json, string, object, null, bool, number, array, Fields, get}
use snx_edge.Profiles.Secrets.{
  Cipher, Opens, password, cert_password, enc_marker, nonce_length, and_then, has_enc, object_of,
  marked, as_value, encrypt_field, encrypt_object, encrypt_profile_secrets, decrypt_object,
  decrypt_profile_secrets,
}
use snx_edge.Profiles.Undo.{
  Effect, untouched, seals, act, wrote_any, Fits, encrypt_field-Turned, acted_get, whole, first,
  second, decrypt_object-whole,
}

pub and_then-ok :
    {A B : Type 0} (r : Result A) (f : A → Result B) (b : B)
    → and_then r f ≡ ok b
    → (a : A) × (r ≡ ok a) × (f a ≡ ok b)
and_then-ok (ok a) f b h = (a, refl, h)
and_then-ok (err e) f b h = cc

module _ (a : Cipher) where
  -- A configuration as a client sends it: no marker, and no secret in the encrypted shape.
  abbrev pub IsPlainObject : Fields → Type 0
  IsPlainObject o =
      (get enc_marker o ≡ none)
      × (has_enc (object_of a (get password o)) ≡ false)
      × (has_enc (object_of a (get cert_password o)) ≡ false)

  abbrev pub IsPlain : Json → Type 0
  IsPlain (object o) = IsPlainObject o
  IsPlain null = Unit {0}
  IsPlain (bool b) = Unit {0}
  IsPlain (number n) = Unit {0}
  IsPlain (string s) = Unit {0}
  IsPlain (array xs) = Unit {0}

  module _ (laws : Opens a) (key : a.Key) (nonces : Text → List ℕ)
      (size : length (nonces password) ≡ nonce_length)
      (size' : length (nonces cert_password) ≡ nonce_length) where
    by_effects :
        (f g : Effect a laws key) (o : Fields)
        → Fits a laws key (nonces password) f (get password o)
        → Fits a laws key (nonces cert_password) g (get cert_password o)
        → get enc_marker o ≡ none
        → decrypt_object a key (
            marked a (
              act a laws key cert_password
                  (nonces cert_password)
                  g
                  (act a laws key password (nonces password) f o),
              wrote_any a laws key g (wrote_any a laws key f false),
            ))
          ≡ ok o
    unfolding act decrypt_object whole second first
    by_effects untouched untouched o fits fits' clear = rw clear refl
    by_effects untouched (seals t c) o fits fits' clear =
        decrypt_object-whole a laws key nonces untouched (seals t c) o size size' fits fits' clear
    by_effects (seals t c) untouched o fits fits' clear =
        decrypt_object-whole a laws key nonces (seals t c) untouched o size size' fits fits' clear
    by_effects (seals t c) (seals u d) o fits fits' clear =
        decrypt_object-whole a laws key nonces (seals t c) (seals u d) o size size' fits fits' clear

    encrypt_object-decrypt :
        (o o' : Fields)
        → IsPlainObject o
        → encrypt_object a key nonces o ≡ ok o'
        → decrypt_object a key o' ≡ ok o
    unfolding encrypt_object text_eq
    encrypt_object-decrypt o o' (clear, plain, plain') h =
        let (w, turn, rest) =
          and_then-ok (encrypt_field a key (nonces password) password (o, false)) _ o' h in
        let (v, turn', last) =
          and_then-ok (encrypt_field a key (nonces cert_password) cert_password w) _ o' rest in
        let (f, fits, e) =
          encrypt_field-Turned a laws key password (nonces password) o false w plain turn in
        let o1 = act a laws key password (nonces password) f o in
        let b1 = wrote_any a laws key f false in
        let same : get cert_password o1 ≡ get cert_password o =
          acted_get a laws key password (nonces password) f cert_password o apart in
        let (g, fits', e') =
          encrypt_field-Turned a laws key cert_password (nonces cert_password) o1 b1 v
            (ap (λ x. has_enc (object_of a x)) same ∙ plain')
            (subst (λ x. encrypt_field a key (nonces cert_password) cert_password x ≡ ok v) e
              turn') in
        let final : o'
            ≡ marked a (
              act a laws key cert_password (nonces cert_password) g o1,
              wrote_any a laws key g b1,
            ) =
          sym (cc (last)) ∙ ap (marked a) e' in
        rw final (
          by_effects f g o fits (subst (λ x. Fits a laws key (nonces cert_password) g x) same fits')
            clear)
      where
        apart : text_eq password cert_password ≡ false
        apart = refl

    -- A configuration without the marker and whose secrets are not in the encrypted shape is
    -- decrypted to what it was, whenever its encryption under the same key succeeds, if the nonces
    -- have twelve bytes, a sealed text opens under its key and nonce, and base64 gives the bytes
    -- back.
    pub encrypt-decrypt :
        (v v' : Json)
        → IsPlain v
        → encrypt_profile_secrets a key nonces v ≡ ok v'
        → decrypt_profile_secrets a key v' ≡ ok v
    unfolding encrypt_profile_secrets decrypt_profile_secrets
    encrypt-decrypt (object o) v' plain h = on (encrypt_object a key nonces o) refl h
      where
        on :
            (r : Result Fields)
            → encrypt_object a key nonces o ≡ r
            → as_value a r ≡ ok v'
            → decrypt_profile_secrets a key v' ≡ ok (object o)
        on (ok o') e h =
            let is : object o' ≡ v' = cc in
            rw (sym is) (rw (encrypt_object-decrypt o o' plain e) refl)
        on (err e') e h = cc
    encrypt-decrypt null v' plain h = let is : null ≡ v' = cc in rw (sym is) refl
    encrypt-decrypt (bool b) v' plain h = let is : bool b ≡ v' = cc in rw (sym is) refl
    encrypt-decrypt (number n) v' plain h = let is : number n ≡ v' = cc in rw (sym is) refl
    encrypt-decrypt (string s) v' plain h = let is : string s ≡ v' = cc in rw (sym is) refl
    encrypt-decrypt (array xs) v' plain h = let is : array xs ≡ v' = cc in rw (sym is) refl
