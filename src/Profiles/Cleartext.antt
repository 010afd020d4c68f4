-- ===== src/Profiles/Cleartext.antt =====
-- No secret is left in the clear where the encryption succeeds (db_secrets.rs).
use snx_edge.Common.{
  inl, inr, ℕ, ◌≡◌, refl, sym, ap, ◌∙◌, Bool, true, false, not, List, Option, none, some, Text,
  text_eq, Bool-cases,
}
use snx_edge.Errors.{Result, ok, err}
use snx_edge.Json.{
  Json, string, object, null, bool, number, array, Fields, get, insert, as_object, as_str, str_of,
}
use snx_edge.Json.Laws.{get-insert, get-insert_ne}
use snx_edge.Profiles.Secrets.{
  Cipher, password, cert_password, enc_marker, enc_version, is_empty, has_enc, marked, as_value,
  sealed, put_sealed, encrypt_text, encrypt_existing, encrypt_field, encrypt_object,
  encrypt_profile_secrets,
}
use snx_edge.Profiles.RoundTrip.{and_then-ok}

-- A text that is not empty.
abbrev pub is_exposed : Option Text → Bool
is_exposed none = false
is_exposed (some t) = not (is_empty t)

abbrev pub text_at : Text → Option Fields → Option Text
text_at name none = none
text_at name (some o) = str_of (get name o)

module _ (a : Cipher) (key : a.Key) (nonces : Text → List ℕ) where
  abbrev Hides : Text → Fields → Type 0
  Hides name o = is_exposed (str_of (get name o)) ≡ false

  encrypt_field-Hides :
      (name : Text) (nonce : List ℕ) (o : Fields) (b : Bool) (w : Fields × Bool)
      → encrypt_field a key nonce name (o, b) ≡ ok w
      → Hides name w.0 × ((other : Text) → text_eq name other ≡ false → get other w.0 ≡ get other o)
  unfolding encrypt_field
  encrypt_field-Hides name nonce o b w h = on (get name o) refl h
    where
      Done : Type 0
      Done =
          Hides name w.0
          × ((other : Text) → text_eq name other ≡ false → get other w.0 ≡ get other o)

      left : (c : Bool) → is_exposed (str_of (get name o)) ≡ false → ok (o, c) ≡ ok w → Done
      left c hidden h =
          let is : (o, c) ≡ w = cc in
          (rw (← is) hidden, λ other apart. ap (λ (x : Fields × Bool). get other x.0) (sym is))

      put : (r : Option (List ℕ)) → put_sealed a name nonce r (o, b) ≡ ok w → Done
      put none h = cc
      put (some ct) h =
          let is : (insert name (sealed a nonce ct) o, true) ≡ w = cc in
          (
            rw (← is) (rw (get-insert name (sealed a nonce ct) o) refl),
            λ other apart.
                ap (λ (x : Fields × Bool). get other x.0) (sym is)
                ∙ get-insert_ne name other (sealed a nonce ct) o apart,
          )

      text :
          (before : Json) (t : Option Text)
          → get name o ≡ some before
          → as_str before ≡ t
          → encrypt_text a key nonce name t (o, b) ≡ ok w
          → Done
      text before none e s h = left b (rw (e, s) refl) h
      text before (some plain) e s h = (elim (Bool-cases (is_empty plain)) [
        | inl nothing ↦ left b (rw (e, s, nothing) refl) (rw nothing at h)
        | inr full ↦ put (a.seal key nonce plain) (rw full at h)
      ])

      enc_hidden :
          (before : Json) → has_enc (as_object before) ≡ true → is_exposed (as_str before) ≡ false
      enc_hidden (object p) h = refl
      enc_hidden null h = refl
      enc_hidden (bool x) h = refl
      enc_hidden (number n) h = refl
      enc_hidden (string s) h = cc
      enc_hidden (array xs) h = refl

      on :
          (before : Option Json)
          → get name o ≡ before
          → encrypt_existing a key nonce name before (o, b) ≡ ok w
          → Done
      on none e h = left b (rw e refl) h
      on (some before) e h = (elim (Bool-cases (has_enc (as_object before))) [
        | inl old ↦ left true (rw e (enc_hidden before old)) (rw old at h)
        | inr new ↦ text before (as_str before) e refl (rw new at h)
      ])

  marked-Hides :
      (name : Text) (o : Fields) (b : Bool)
      → text_eq enc_marker name ≡ false
      → Hides name o
      → Hides name (marked a (o, b))
  marked-Hides name o true apart h = rw (get-insert_ne enc_marker name enc_version o apart) h
  marked-Hides name o false apart h = h

  encrypt_object-Hides :
      (o o' : Fields)
      → encrypt_object a key nonces o ≡ ok o'
      → Hides password o' × Hides cert_password o'
  unfolding encrypt_object text_eq
  encrypt_object-Hides o o' h =
      let (w, turn, rest) =
        and_then-ok (encrypt_field a key (nonces password) password (o, false)) _ o' h in
      let (v, turn', last) =
        and_then-ok (encrypt_field a key (nonces cert_password) cert_password w) _ o' rest in
      let (hides, _) = encrypt_field-Hides password (nonces password) o false w turn in
      let (hides', others) =
        encrypt_field-Hides cert_password (nonces cert_password) w.0 w.1 v turn' in
      let is : marked a v ≡ o' = cc (last) in
      let kept : Hides password v.0 = rw (others password refl) hides in
      (
        rw (← is) (marked-Hides password v.0 v.1 refl kept),
        rw (← is) (marked-Hides cert_password v.0 v.1 refl hides'),
      )

  pub encrypt_profile_secrets-hidden :
      (v v' : Json)
      → encrypt_profile_secrets a key nonces v ≡ ok v'
      → (is_exposed (text_at password (as_object v')) ≡ false)
        × (is_exposed (text_at cert_password (as_object v')) ≡ false)
  unfolding encrypt_profile_secrets
  encrypt_profile_secrets-hidden (object o) v' h = on (encrypt_object a key nonces o) refl h
    where
      on :
          (r : Result Fields)
          → encrypt_object a key nonces o ≡ r
          → as_value a r ≡ ok v'
          → (is_exposed (text_at password (as_object v')) ≡ false)
            × (is_exposed (text_at cert_password (as_object v')) ≡ false)
      on (ok o') e h = let is : object o' ≡ v' = cc in rw (← is) (encrypt_object-Hides o o' e)
      on (err f) e h = cc
  encrypt_profile_secrets-hidden null v' h = let is : null ≡ v' = cc in rw (← is) (refl, refl)
  encrypt_profile_secrets-hidden (bool b) v' h = let is : bool b ≡ v' = cc in rw (← is) (refl, refl)
  encrypt_profile_secrets-hidden (number n) v' h =
      let is : number n ≡ v' = cc in rw (← is) (refl, refl)
  encrypt_profile_secrets-hidden (string s) v' h =
      let is : string s ≡ v' = cc in rw (← is) (refl, refl)
  encrypt_profile_secrets-hidden (array xs) v' h =
      let is : array xs ≡ v' = cc in rw (← is) (refl, refl)
