-- ===== src/Profiles/Masking.antt =====
-- A client that sends back the configuration it was shown, secrets masked (api/profiles.rs).
use mathlib.Core.Path.{subst}
use snx_edge.Common.{
  ℕ, List, inl, inr, ◌≡◌, refl, sym, ap, ◌∙◌, ◌⊎◌, Bool, true, false, Option, none, some, Text,
  codes, text_eq, not, ◌&&◌, Bool-cases, length, if◌then◌else◌,
}
use snx_edge.Errors.{ok, M, bind-ok, lift, return, fail, bad_request, ◌>>=◌}
use snx_edge.Json.{Json, object, null, bool, number, string, array, Fields, get, insert, str_of}
use snx_edge.Json.Laws.{get-insert, get-insert_ne, insert_same, insert-insert, insert_comm}
use snx_edge.Auth.Permissions.{Claims, require_permission}
use snx_edge.Profiles.Secrets.{Cipher, Opens, nonce_length, password, cert_password, is_empty}
use snx_edge.Profiles.RoundTrip.{IsPlain}
use snx_edge.Profiles.Store.{
  ProfileRow, Profile, Serde, Reads, Rows, get_profile, get_profile_config, decoded, shown,
}
use snx_edge.Profiles.Store
use snx_edge.Users.Store.{or_else}
use snx_edge.Profiles.Stored.{update_profile-config, text-parses}
use snx_edge.Profiles.Veiled.{Veiled, mask_secrets-Veiled}
use snx_edge.Profiles.Handlers.{
  secret_mask, masked, mask_field, mask_fields, mask_secrets, is_mask, put_existing, unmask_field,
  unmask_fields, unmasked, or_null, check_given, config_disables_cert_check, profile_to_response,
  update_profile,
}

abbrev mask : Json
mask = string secret_mask

-- What the masking of one field has done.
Masks : Text → Fields → Fields → Type 0
Masks k o x = (x ≡ o) ⊎ ((v : Json) × (get k o ≡ some v) × (x ≡ insert k mask o))

mask_field-Masks : (k : Text) (o : Fields) → Masks k o (mask_field k o)
unfolding mask_field Masks
mask_field-Masks k o = at (get k o) refl
  where
    text : (v : Json) (t : Option Text) → get k o ≡ some v → Masks k o (masked k t o)
    text v none e = inl refl
    text v (some s) e = elim (Bool-cases (is_empty s)) [
      | inl h ↦ inl (rw h refl)
      | inr h ↦ inr (v, e, rw h refl)
    ]

    at : (b : Option Json) → get k o ≡ b → Masks k o (masked k (str_of (get k o)) o)
    at none e = rw e (inl refl)
    at (some v) e = text v (str_of (get k o)) e

-- A field that is as stored stays.
unmask_field-same : (k : Text) (o x : Fields) → get k x ≡ get k o → unmask_field (object o) k x ≡ x
unfolding unmask_field
unmask_field-same k o x h = elim (Bool-cases (is_mask (str_of (get k x)))) [
  | inr e ↦ rw e refl
  | inl e ↦ rw e (put (get k o) h)
]
  where
    put : (b : Option Json) → get k x ≡ b → put_existing k b x ≡ x
    put none e = refl
    put (some v) e = insert_same k v x e

-- A masked field is put back.
unmask_field-masked :
    (k : Text) (o y : Fields) (v : Json)
    → get k o ≡ some v
    → unmask_field (object o) k (insert k mask y) ≡ insert k v y
unfolding unmask_field text_eq
unmask_field-masked k o y v e = rw (get-insert k mask y, e) (insert-insert k v mask y)

apart : text_eq password cert_password ≡ false
unfolding text_eq
apart = refl

apart' : text_eq cert_password password ≡ false
unfolding text_eq
apart' = refl

by_effects :
    (o o1 o2 : Fields)
    → Masks password o o1
    → Masks cert_password o1 o2
    → unmask_fields (object o) o2 ≡ o
unfolding Masks
by_effects o o1 o2 (inl e) (inl e') =
    rw (e', e, unmask_field-same password o o refl) (unmask_field-same cert_password o o refl)
by_effects o o1 o2 (inl e) (inr (v, at, e')) =
    let at_o : get cert_password o ≡ some v = rw e at at in
    rw
      (
        e',
        e,
        unmask_field-same password o (insert cert_password mask o)
            (get-insert_ne cert_password password mask o apart'),
      )
      (unmask_field-masked cert_password o o v at_o ∙ insert_same cert_password v o at_o)
by_effects o o1 o2 (inr (u, at, e)) (inl e') =
    rw (e', e, unmask_field-masked password o o u at, insert_same password u o at)
      (unmask_field-same cert_password o o refl)
by_effects o o1 o2 (inr (u, at, e)) (inr (v, at', e')) =
    let at_o : get cert_password o ≡ some v =
      sym (get-insert_ne password cert_password mask o apart) ∙ (rw e at at') in
    rw
      (
        e',
        e,
        ← insert_comm password cert_password mask mask u o apart at,
        unmask_field-masked password o (insert cert_password mask o) u at,
        insert_comm password cert_password u mask u o apart at,
        insert_same password u o at,
      )
      (unmask_field-masked cert_password o o v at_o ∙ insert_same cert_password v o at_o)

pub unmask_fields-mask_fields : (o : Fields) → unmask_fields (object o) (mask_fields o) ≡ o
unmask_fields-mask_fields o =
    by_effects o (mask_field password o) (mask_field cert_password (mask_field password o))
      (mask_field-Masks password o) (mask_field-Masks cert_password (mask_field password o))

module _ (a : Cipher) (laws : Opens a) (serde : Serde) (reads : Reads serde)
    (profile_key : Option a.Key) (allow_no_cert_check : Bool) (nonces : Text → List ℕ)
    (size : length (nonces password) ≡ nonce_length)
    (size' : length (nonces cert_password) ≡ nonce_length) where
  -- The configuration to store is the one that is stored.
  unmasked-shown :
      (i : Text) (rows : Rows) (q : Profile) (v : Json) (c : Option Json)
      → (get_profile a serde profile_key i rows).0 ≡ ok q
      → q.config ≡ v
      → (unmasked a serde profile_key allow_no_cert_check i (some (mask_secrets v)) rows).0 ≡ ok c
      → (c ≡ some v)
        × ((unmasked a serde profile_key allow_no_cert_check i (some (mask_secrets v)) rows).1
            ≡ rows)
  unfolding mask_secrets get_profile get_profile_config
  unmasked-shown i rows q (object o) c had is h =
      let (t, text, rest, to) = bind-ok (get_profile_config a serde profile_key i) _ rows c h in
      let parses : serde.parse t ≡ some (object o) =
        text-parses a laws serde reads profile_key nonces size size' i rows q t had text
        ∙ ap (λ x. some x) is in
      let kept : some (object (unmask_fields (object o) (mask_fields o))) ≡ c =
        (let at_o : ok (some (object (unmask_fields (or_null (serde.parse t)) (mask_fields o))))
              ≡ ok c =
            rest in
          cc (at_o, parses)) in
      (sym kept ∙ ap (λ x. some (object x)) (unmask_fields-mask_fields o), to)
  unmasked-shown i rows q null c had is h = (cc, refl)
  unmasked-shown i rows q (bool b) c had is h = (cc, refl)
  unmasked-shown i rows q (number n) c had is h = (cc, refl)
  unmasked-shown i rows q (string s) c had is h = (cc, refl)
  unmasked-shown i rows q (array xs) c had is h = (cc, refl)

  policy-state :
      (c : Option Json) (rows : Rows)
      → (check_given a serde profile_key allow_no_cert_check c rows).1 ≡ rows
  policy-state none rows = refl
  policy-state (some v) rows =
      split_on (config_disables_cert_check v && not allow_no_cert_check) rows
    where
      split_on :
          (b : Bool) (rows : Rows)
          → ((if b then fail bad_request else return {A = Unit {0}} tt) rows).1 ≡ rows
      split_on true rows = refl
      split_on false rows = refl

  -- The update of the row, and the answer.
  abbrev saves : ℕ → Text → Option Text → Option Json → Option Bool → M Rows Profile
  saves now i name config enabled = do
    p ← Store.update_profile a serde profile_key i name config enabled now nonces
    return (profile_to_response p)

  -- What a state holds after the update: the profile that was answered, with this configuration.
  abbrev Saved : Text → Json → Profile → Rows → Type 0
  Saved i v p rows =
      (saved : Profile) × ((get_profile a serde profile_key i rows).0 ≡ ok saved)
      × (saved.config ≡ v)
      × (p ≡ profile_to_response saved)

  saves-Saved :
      (now : ℕ) (i : Text) (name : Option Text) (config : Option Json) (enabled : Option Bool)
      (rows start : Rows) (q p : Profile)
      → (get_profile a serde profile_key i rows).0 ≡ ok q
      → IsPlain a q.config
      → config ≡ some q.config
      → start ≡ rows
      → (saves now i name config enabled start).0 ≡ ok p
      → Saved i q.config p (saves now i name config enabled start).1
  saves-Saved now i name config enabled rows start q p had plain is at h =
      let (saved, ran, answer, to) =
        bind-ok (Store.update_profile a serde profile_key i name config enabled now nonces) _ start
          p h in
      let wanted : or_else config q.config ≡ q.config = rw is refl in
      let (config_is, reads_back) =
        update_profile-config a laws serde reads profile_key nonces size size' i name config enabled
          now start q saved (rw at had) (subst (IsPlain a) (sym wanted) plain) ran in
      let shown : profile_to_response saved ≡ p = cc (answer) in
      (
        saved,
        ap (λ z. (get_profile a serde profile_key i z).0) to ∙ reads_back,
        config_is ∙ wanted,
        sym shown,
      )

  -- After a PUT that succeeds and whose configuration is the stored one as the server shows it,
  -- with its secrets masked, the profile reads back with the configuration that it had, secrets
  -- included, and the answer is that profile as the server shows it, in which a password or a
  -- certificate's password is empty or `***` where it is a text; with or without a key, for a
  -- stored configuration without marker or encrypted secrets, under the laws of the cipher and of
  -- the serializer.
  pub update_profile-secrets_kept :
      (now : ℕ) (claims : Claims) (i : Text) (name : Option Text) (enabled : Option Bool)
      (rows : Rows) (q p : Profile)
      → (get_profile a serde profile_key i rows).0 ≡ ok q
      → IsPlain a q.config
      → (update_profile a serde profile_key allow_no_cert_check now nonces claims i
          (record { name = name; config = some (mask_secrets q.config); enabled = enabled })
          rows).0
        ≡ ok p
      → (saved : Profile) × ((get_profile a serde profile_key i
            (update_profile a serde profile_key allow_no_cert_check now nonces claims i
              (record { name = name; config = some (mask_secrets q.config); enabled = enabled })
              rows).1).0
          ≡ ok saved)
        × (saved.config ≡ q.config)
        × (p ≡ profile_to_response saved)
        × Veiled p.config
  unfolding update_profile
  update_profile-secrets_kept now claims i name enabled rows q p had plain h =
      let shown = some (mask_secrets q.config) in
      let (_, _, h1, to1) =
        bind-ok (lift (require_permission claims (codes "profiles.write"))) _ rows p h in
      let (c, merged, h2, to2) =
        bind-ok (unmasked a serde profile_key allow_no_cert_check i shown) _ rows p h1 in
      let (is, still) = unmasked-shown i rows q q.config c had refl merged in
      let start = (unmasked a serde profile_key allow_no_cert_check i shown rows).1 in
      let (_, _, h3, to3) =
        bind-ok (check_given a serde profile_key allow_no_cert_check c) _ start p h2 in
      let (saved, got, kept, answer) = subst (Saved i q.config p) (sym (to1 ∙ to2 ∙ to3)) (
        saves-Saved now i name c enabled rows
          (check_given a serde profile_key allow_no_cert_check c start).1 q p had plain is
          (policy-state c start ∙ still) h3) in
      (
        saved,
        got,
        kept,
        answer,
        subst Veiled (sym (ap (λ (x : Profile). x.config) answer))
            (mask_secrets-Veiled saved.config),
      )
