-- ===== src/Profiles/Tests.antt =====
-- The theorems on profiles at concrete profiles (db_secrets.rs, db.rs, api/profiles.rs).
use snx_edge.Common.{
  ℕ, ◌≡◌, refl, Bool, true, false, List, [], ◌∷◌, Option, none, some, Text, codes, text_eq, All,
  ◌++◌, inl, trim, trim_start, is_whitespace, all, arith, inr, Bool-cases, ltb, ltb→lt, ◌<◌, ap,
}
use snx_edge.Errors.{ok}
use snx_edge.Json.{Json, Fields, object, string, field, end, get, insert, remove}
use snx_edge.Json.TestCodec.{print, parse-print}
use snx_edge.Auth.Permissions.{Claims, require_permission, has_permission, permissions_for_role}
use snx_edge.Profiles.Secrets.{
  password, cert_password, encrypt_profile_secrets, encrypt_object, encrypt_field, decrypt_field,
  decrypt_object, is_encrypted, decrypt_profile_secrets, enc_marker, enc_key, nonce_key,
  enc_version,
}
use snx_edge.Profiles.RoundTrip.{IsPlain, encrypt-decrypt}
use snx_edge.Profiles.Store.{
  ProfileRow, Profile, Serde, Rows, get_profile, encrypted_blobs, open_all,
  verify_profile_encryption, decrypt_in_place,
}
use snx_edge.Profiles.Store
use snx_edge.Profiles.TestCipher.{shift, shift-Opens, serde, nonces}
use snx_edge.Profiles.AtRest.{RowHides, start, later, creates, Reach-Hides}
use snx_edge.Profiles.Handlers.{mask_secrets, update_profile, profile_to_response}
use snx_edge.Profiles.Keys.{AreBytes, hex_encode}
use snx_edge.Profiles.Verified.{verify_profile_encryption-readable}
use snx_edge.Profiles.Veiled.{Veiled}
use snx_edge.Profiles.Masking.{update_profile-secrets_kept}

abbrev office_fields : Fields
office_fields =
    field (codes "server") (string (codes "vpn.example.com"))
      (field password (string (codes "hunter2")) (field cert_password (string []) end))

abbrev sealed_password : Json
sealed_password =
    object (
      field enc_key (string (42 ∷ codes "hunter2"))
        (field nonce_key (string (nonces password)) end))

abbrev sealed_office : Json
sealed_office = object (
    field (codes "server") (string (codes "vpn.example.com")) (
      field password sealed_password
        (field cert_password (string []) (field enc_marker enc_version end))))

office-IsPlain : IsPlain shift (object office_fields)
unfolding get text_eq
office-IsPlain = (refl, refl, refl)

office_sealed : encrypt_profile_secrets shift 42 nonces (object office_fields) ≡ ok sealed_office
unfolding encrypt_profile_secrets encrypt_object encrypt_field get insert text_eq
office_sealed = refl

encrypt-decrypt_example : decrypt_profile_secrets shift 42 sealed_office ≡ ok (object office_fields)
encrypt-decrypt_example =
    encrypt-decrypt shift shift-Opens 42 nonces refl refl (object office_fields) sealed_office
      office-IsPlain office_sealed

abbrev profile_id : Text
profile_id = codes "p1"

abbrev text_of : Option Text → Text
text_of none = []
text_of (some t) = t

abbrev office_row : ProfileRow
office_row = record {
  id = profile_id;
  name = codes "Office";
  config = text_of (print sealed_office);
  enabled = true;
  created_at = 100;
  updated_at = 100;
}

abbrev office_profile : Profile
office_profile = record {
  id = profile_id;
  name = codes "Office";
  config = object office_fields;
  enabled = true;
  created_at = 100;
  updated_at = 100;
}

abbrev admin_claims : Claims
admin_claims = record {
  sub = codes "u1";
  role = codes "admin";
  permissions = permissions_for_role (codes "admin");
  exp = 900;
  iat = 0;
  jti = codes "j";
  token_type = codes "access";
  token_generation = 0;
}

-- The profile is renamed, and its configuration sent back as it was shown.
abbrev renamed : Profile
renamed = record office_profile { name = codes "Head office"; updated_at = 200 }

office_shown :
    (get_profile shift serde (some 42) profile_id (office_row ∷ [])).0 ≡ ok office_profile
unfolding get_profile Store.is_row text_eq Store.decrypt_in_place is_encrypted get
    decrypt_profile_secrets decrypt_object decrypt_field insert remove
office_shown = refl

office_renamed :
    (update_profile shift serde
      (some 42)
      false
      200
      nonces
      admin_claims
      profile_id
      (record {
        name = some (codes "Head office");
        config = some (mask_secrets (object office_fields));
        enabled = none;
      })
      (office_row ∷ [])).0
    ≡ ok (profile_to_response renamed)
unfolding get_profile update_profile Store.update_profile Store.is_row text_eq
    Store.decrypt_in_place is_encrypted get decrypt_profile_secrets decrypt_object decrypt_field
    insert remove require_permission has_permission permissions_for_role
    snx_edge.Common.strip_prefix snx_edge.Common.starts_with mask_secrets Store.get_profile_config
    snx_edge.Auth.Permissions.grants snx_edge.Auth.Permissions.strip_suffix
    snx_edge.Profiles.Handlers.config_disables_cert_check snx_edge.Profiles.Handlers.mask_field
    snx_edge.Profiles.Handlers.unmask_field encrypt_field encrypt_object encrypt_profile_secrets
    Store.encrypt_in_place Store.update_rows
office_renamed = refl

update_profile-secrets_kept_example :
    (saved : Profile) × ((get_profile shift serde
        (some 42)
        profile_id
        (update_profile shift serde
          (some 42)
          false
          200
          nonces
          admin_claims
          profile_id
          (record {
            name = some (codes "Head office");
            config = some (mask_secrets (object office_fields));
            enabled = none;
          })
          (office_row ∷ [])).1).0
      ≡ ok saved)
    × (saved.config ≡ object office_fields)
    × (profile_to_response renamed ≡ profile_to_response saved)
    × Veiled (profile_to_response renamed).config
update_profile-secrets_kept_example =
    update_profile-secrets_kept shift shift-Opens serde parse-print (some 42) false nonces refl refl
      200 admin_claims profile_id (some (codes "Head office")) none (office_row ∷ []) office_profile
      (profile_to_response renamed) office_shown office-IsPlain office_renamed

Reach-Hides_example :
    All
      (RowHides shift serde 42)
      (Store.create_profile shift serde
        (some 42)
        profile_id
        100
        nonces
        (codes "Office")
        (object office_fields)
        []).1
Reach-Hides_example =
    Reach-Hides shift serde 42 parse-print
      (Store.create_profile shift serde (some 42) profile_id 100 nonces (codes "Office")
        (object office_fields) []).1
      (later start (creates [] profile_id 100 nonces (codes "Office") (object office_fields)))

verified : verify_profile_encryption shift serde (some 42) (office_row ∷ []) ≡ ok tt
unfolding verify_profile_encryption encrypted_blobs open_all is_encrypted get
    decrypt_profile_secrets decrypt_object decrypt_field insert remove text_eq
verified = refl

verify_profile_encryption-readable_example :
    (w : Json) × (decrypt_in_place shift serde (some 42) sealed_office ≡ ok w)
verify_profile_encryption-readable_example =
    verify_profile_encryption-readable shift serde (some 42) (office_row ∷ []) office_row
      sealed_office verified (inl refl) refl

-- A key in the environment, with the end of its line.
abbrev key_bytes : List ℕ
key_bytes =
    0 ∷ 255 ∷ 16 ∷ 1 ∷ 2 ∷ 3 ∷ 4 ∷ 5 ∷ 6 ∷ 7 ∷ 8 ∷ 9 ∷ 10 ∷ 11 ∷ 12 ∷ 13 ∷ 0 ∷ 255 ∷ 16 ∷ 1 ∷ 2 ∷ 3
    ∷ 4 ∷ 5 ∷ 6 ∷ 7 ∷ 8 ∷ 9 ∷ 10 ∷ 11 ∷ 12 ∷ 13 ∷ []

abbrev key_line : Text
key_line = codes "00ff100102030405060708090a0b0c0d00ff100102030405060708090a0b0c0d" ++ 10 ∷ []

all-AreBytes : (bytes : List ℕ) → all (λ n. ltb n 256) bytes ≡ true → AreBytes bytes
all-AreBytes [] h = tt
all-AreBytes (n ∷ bytes) h = elim (Bool-cases (ltb n 256)) [
  | inl e ↦ (ltb→lt n 256 e, all-AreBytes bytes (rw e at h))
  | inr e ↦ (let never : false ≡ true = rw e at h in cc never)
]

key_bytes-AreBytes : AreBytes key_bytes
key_bytes-AreBytes = all-AreBytes key_bytes refl

key_trimmed : trim key_line ≡ hex_encode key_bytes
unfolding trim trim_start is_whitespace
key_trimmed = refl

abbrev no_base64 : Text → Option (List ℕ)
no_base64 t = none
