-- ===== src/Profiles/Undo.antt =====
-- The turns of the encryption of a profile, and that decryption undoes them (db_secrets.rs).
use snx_edge.Common.{
  ℕ, ◌≡◌, refl, sym, ap, ◌∙◌, inl, inr, Bool, true, false, List, Option, none, some, Text, text_eq,
  text_eq_sym, length, Bool-cases,
}
use snx_edge.Errors.{ok}
use snx_edge.Json.{
  Json, string, object, null, bool, number, array, Fields, get, insert, remove, as_object, as_str,
  str_of,
}
use snx_edge.Json.Laws.{
  get-insert, get-insert_ne, insert_same, insert-insert, insert_comm, remove-insert,
  remove-insert_ne,
}
use snx_edge.Profiles.Secrets.{
  Cipher, Opens, password, cert_password, enc_marker, enc_version, enc_key, nonce_key, nonce_length,
  is_some, is_empty, has_enc, sealed, put_sealed, encrypt_text, encrypt_existing, encrypt_field,
  object_of, decrypt_entry, decrypt_existing, decrypt_field, decrypt_object,
}

as_str-string : (v : Json) (t : Text) → as_str v ≡ some t → v ≡ string t
as_str-string (string s) t e = cc
as_str-string null t e = cc
as_str-string (bool b) t e = cc
as_str-string (number n) t e = cc
as_str-string (array xs) t e = cc
as_str-string (object o) t e = cc

module _ (a : Cipher) (laws : Opens a) (key : a.Key) where
  -- What one turn of the encryption does: nothing, or to seal a text.
  pub data Effect : Type 0 where
    untouched : Effect
    seals : Text → List ℕ → Effect

  unfoldable pub act : Text → List ℕ → Effect → Fields → Fields
  act name nonce untouched o = o
  act name nonce (seals plain ct) o = insert name (sealed a nonce ct) o

  undo : Text → Effect → Fields → Fields
  undo name untouched o = o
  undo name (seals plain ct) o = insert name (string plain) o

  abbrev pub wrote_any : Effect → Bool → Bool
  wrote_any untouched b = b
  wrote_any (seals plain ct) b = true

  abbrev pub Fits : List ℕ → Effect → Option Json → Type 0
  Fits nonce untouched before = has_enc (object_of a before) ≡ false
  Fits nonce (seals plain ct) before =
      (before ≡ some (string plain)) × (a.seal key nonce plain ≡ some ct)

  module _ (name : Text) (nonce : List ℕ) where
    abbrev pub Turned : Fields → Bool → Fields × Bool → Type 0
    Turned o b w =
        (f : Effect) × Fits nonce f (get name o) × (w ≡ (act name nonce f o, wrote_any f b))

    pub encrypt_field-Turned :
        (o : Fields) (b : Bool) (w : Fields × Bool)
        → has_enc (object_of a (get name o)) ≡ false
        → encrypt_field a key nonce name (o, b) ≡ ok w
        → Turned o b w
    unfolding encrypt_field act
    encrypt_field-Turned o b w clear h = on (get name o) refl clear h
      where
        kept :
            (before : Option Json)
            → get name o ≡ before
            → has_enc (object_of a before) ≡ false
            → ok (o, b) ≡ ok w
            → Turned o b w
        kept before e clear h = (untouched, rw e clear, cc)

        sealed_text :
            (plain : Text) (r : Option (List ℕ))
            → get name o ≡ some (string plain)
            → a.seal key nonce plain ≡ r
            → put_sealed a name nonce r (o, b) ≡ ok w
            → Turned o b w
        sealed_text plain none e s h = cc
        sealed_text plain (some ct) e s h = (seals plain ct, (e, s), cc)

        text :
            (before : Json) (t : Option Text)
            → get name o ≡ some before
            → as_str before ≡ t
            → has_enc (as_object before) ≡ false
            → encrypt_text a key nonce name t (o, b) ≡ ok w
            → Turned o b w
        text before none e s clear h = kept (some before) e clear h
        text before (some plain) e s clear h = (elim (Bool-cases (is_empty plain)) [
          | inl nothing ↦ kept (some before) e clear (rw nothing at h)
          | inr full ↦
              sealed_text plain (a.seal key nonce plain)
                (e ∙ ap (λ v. some v) (as_str-string before plain s)) refl (rw full at h)
        ])

        on :
            (before : Option Json)
            → get name o ≡ before
            → has_enc (object_of a before) ≡ false
            → encrypt_existing a key nonce name before (o, b) ≡ ok w
            → Turned o b w
        on none e clear h = kept none e clear h
        on (some before) e clear h = text before (as_str before) e refl clear (rw clear at h)

    pub acted_get :
        (f : Effect) (l : Text) (o : Fields)
        → text_eq name l ≡ false
        → get l (act name nonce f o) ≡ get l o
    unfolding act
    acted_get untouched l o apart = refl
    acted_get (seals plain ct) l o apart = get-insert_ne name l (sealed a nonce ct) o apart

    -- Decryption undoes it, in any object that has the same value there.
    decrypt_field-undo :
        (f : Effect) (o whole : Fields)
        → length nonce ≡ nonce_length
        → Fits nonce f (get name o)
        → get name whole ≡ get name (act name nonce f o)
        → decrypt_field a key name whole ≡ ok (undo name f whole)
    unfolding decrypt_field act undo get text_eq
    decrypt_field-undo untouched o whole size clear same = rw same (skips (get name o) clear)
      where
        no_enc :
            (entry : Fields) (e : Option Json)
            → get enc_key entry ≡ e
            → is_some e ≡ false
            → decrypt_entry a key name (str_of e) (str_of (get nonce_key entry)) whole ≡ ok whole
        no_enc entry none e h = refl
        no_enc entry (some v) e h = cc

        skip_entry :
            (entry : Option Fields)
            → has_enc entry ≡ false
            → decrypt_existing a key name entry whole ≡ ok whole
        skip_entry none h = refl
        skip_entry (some entry) h = no_enc entry (get enc_key entry) refl h

        skips :
            (before : Option Json)
            → has_enc (object_of a before) ≡ false
            → decrypt_existing a key name (object_of a before) whole ≡ ok whole
        skips before h = skip_entry (object_of a before) h
    decrypt_field-undo (seals plain ct) o whole size (_, was_sealed) same =
        let here : get name whole ≡ some (sealed a nonce ct) =
          same ∙ get-insert name (sealed a nonce ct) o in
        rw
          (
            here,
            laws.decode-encode ct,
            laws.decode-encode nonce,
            size,
            laws.unseal-seal key nonce plain ct was_sealed,
          )
          refl

    undo-act :
        (f : Effect) (o from : Fields)
        → Fits nonce f (get name from)
        → get name o ≡ get name from
        → undo name f (act name nonce f o) ≡ o
    unfolding act undo
    undo-act untouched o from fits same = refl
    undo-act (seals plain ct) o from (held, _) same =
        insert-insert name (string plain) (sealed a nonce ct) o
        ∙ insert_same name (string plain) o (same ∙ held)

    remove-undo :
        (f : Effect) (l : Text) (o : Fields)
        → text_eq name l ≡ false
        → remove l (undo name f o) ≡ undo name f (remove l o)
    unfolding undo
    remove-undo untouched l o apart = refl
    remove-undo (seals plain ct) l o apart = remove-insert_ne name l (string plain) o apart

    get-undo :
        (f : Effect) (l : Text) (o : Fields)
        → text_eq name l ≡ false
        → get l (undo name f o) ≡ get l o
    unfolding undo
    get-undo untouched l o apart = refl
    get-undo (seals plain ct) l o apart = get-insert_ne name l (string plain) o apart

  -- One field is undone under a turn of the other.
  undo-act-act :
      (name other : Text) (nonce next : List ℕ) (f g : Effect) (o : Fields)
      → text_eq name other ≡ false
      → Fits nonce f (get name o)
      → undo name f (act other next g (act name nonce f o)) ≡ act other next g o
  unfolding undo act
  undo-act-act name other nonce next untouched g o apart fits = refl
  undo-act-act name other nonce next (seals plain ct) untouched o apart fits =
      undo-act name nonce (seals plain ct) o o fits refl
  undo-act-act name other nonce next (seals plain ct) (seals text bytes) o apart fits =
      insert_comm name other (string plain) (sealed a next bytes) (sealed a nonce ct)
        (insert name (sealed a nonce ct) o) apart (get-insert name (sealed a nonce ct) o)
      ∙ ap (insert other (sealed a next bytes)) (undo-act name nonce (seals plain ct) o o fits refl)

  module _ (nonces : Text → List ℕ) (f g : Effect) (o : Fields)
      (size : length (nonces password) ≡ nonce_length)
      (size' : length (nonces cert_password) ≡ nonce_length)
      (fits : Fits (nonces password) f (get password o))
      (fits' : Fits (nonces cert_password) g (get cert_password o))
      (clear : get enc_marker o ≡ none) where
    unfoldable pub first : Fields
    first = act password (nonces password) f o

    unfoldable pub second : Fields
    second = act cert_password (nonces cert_password) g first

    unfoldable pub whole : Fields
    whole = insert enc_marker enc_version second

    pub apart : text_eq cert_password password ≡ false
    unfolding text_eq
    apart = refl

    first_marker : text_eq password enc_marker ≡ false
    unfolding text_eq
    first_marker = refl

    second_marker : text_eq cert_password enc_marker ≡ false
    unfolding text_eq
    second_marker = refl

    pub swapped : (x y : Text) → text_eq x y ≡ false → text_eq y x ≡ false
    swapped x y e = sym (text_eq_sym x y) ∙ e

    unmarked : remove enc_marker whole ≡ second
    unfolding whole second first
    unmarked = remove-insert enc_marker enc_version second (
        acted_get cert_password (nonces cert_password) g enc_marker first second_marker
        ∙ acted_get password (nonces password) f enc_marker o first_marker
        ∙ clear)

    in_first : get cert_password first ≡ get cert_password o
    unfolding first
    in_first =
        acted_get password (nonces password) f cert_password o
          (swapped cert_password password apart)

    decrypts_first : decrypt_field a key password whole ≡ ok (undo password f whole)
    unfolding whole second first
    decrypts_first = decrypt_field-undo password (nonces password) f o whole size fits (
        get-insert_ne enc_marker password enc_version second
          (swapped password enc_marker first_marker)
        ∙ acted_get cert_password (nonces cert_password) g password first apart)

    decrypts_second :
        decrypt_field a key cert_password (undo password f whole)
        ≡ ok (undo cert_password g (undo password f whole))
    unfolding whole second first
    decrypts_second =
        decrypt_field-undo cert_password (nonces cert_password) g first (undo password f whole)
          size' (rw in_first fits')
          (get-undo password (nonces password) f cert_password whole
              (swapped cert_password password apart)
            ∙ get-insert_ne enc_marker cert_password enc_version second
                (swapped cert_password enc_marker second_marker))

    undone : remove enc_marker (undo cert_password g (undo password f whole)) ≡ o
    unfolding second first
    undone =
        remove-undo cert_password (nonces cert_password) g enc_marker (undo password f whole)
          second_marker
        ∙ ap (undo cert_password g)
            (remove-undo password (nonces password) f enc_marker whole first_marker)
        ∙ ap (λ z. undo cert_password g (undo password f z)) unmarked
        ∙ ap (undo cert_password g) (
            undo-act-act password cert_password (nonces password) (nonces cert_password) f g o
              (swapped cert_password password apart) fits)
        ∙ undo-act cert_password (nonces cert_password) g o o fits' refl

    pub decrypt_object-whole : decrypt_object a key whole ≡ ok o
    unfolding decrypt_object whole
    decrypt_object-whole =
        rw (get-insert enc_marker enc_version second, decrypts_first, decrypts_second, undone) refl
