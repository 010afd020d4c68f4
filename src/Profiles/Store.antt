-- ===== src/Profiles/Store.antt =====
-- The profiles in the database (apps/snx-edge-server/src/db.rs). The id of a new row, the time and the
-- nonces are arguments.
use snx_edge.Common.{
  ℕ, ◌≡◌, Bool, true, not, List, [], ◌∷◌, ◌++◌, Option, none, some, Text, text_eq, any, keep, find,
  if◌then◌else◌,
}
use snx_edge.Errors.{
  not_found, bad_request, conflict, internal, Result, ok, err, M, ◌>>=◌, ◌>>◌, lift, ok_or,
}
use snx_edge.Json.{Json}
use snx_edge.Profiles.Secrets.{
  Cipher, and_then, is_encrypted, encrypt_profile_secrets, decrypt_profile_secrets,
}
use snx_edge.Users.Store.{or_else}

pub record ProfileRow : Type 0 where
  pub id : Text
  pub name : Text
  pub config : Text
  pub enabled : Bool
  pub created_at : ℕ
  pub updated_at : ℕ

pub record Profile : Type 0 where
  pub id : Text
  pub name : Text
  pub config : Json
  pub enabled : Bool
  pub created_at : ℕ
  pub updated_at : ℕ

-- `serde_json::from_str` and `to_string`.
pub record Serde : Type 0 where
  pub parse : Text → Option Json
  pub print : Json → Option Text

-- What is printed reads back.
abbrev pub Reads : Serde → Type 0
Reads serde = (v : Json) (s : Text) → serde.print v ≡ some s → serde.parse s ≡ some v

abbrev pub Rows : Type 0
Rows = List ProfileRow

unfoldable pub is_row : Text → ProfileRow → Bool
is_row i r = text_eq r.id i

abbrev pub profile_of : ProfileRow → Json → Profile
profile_of r config = record {
  id = r.id;
  name = r.name;
  config = config;
  enabled = r.enabled;
  created_at = r.created_at;
  updated_at = r.updated_at;
}

module _ (a : Cipher) (serde : Serde) (profile_key : Option a.Key) where
  abbrev pub with_key : Option a.Key → Json → Result Json
  with_key none v = err internal
  with_key (some key) v = decrypt_profile_secrets a key v

  unfoldable pub decrypt_in_place : Json → Result Json
  decrypt_in_place v = if is_encrypted v then with_key profile_key v else ok v

  abbrev pub sealed_with : Option a.Key → (Text → List ℕ) → Json → Result Json
  sealed_with none nonces v = ok v
  sealed_with (some key) nonces v = encrypt_profile_secrets a key nonces v

  unfoldable pub encrypt_in_place : (Text → List ℕ) → Json → Result Json
  encrypt_in_place nonces v = sealed_with profile_key nonces v

  abbrev pub decoded : ProfileRow → Result Json
  decoded r = and_then (ok_or internal (serde.parse r.config)) decrypt_in_place

  abbrev pub shown : ProfileRow → Result Profile
  shown r = and_then (decoded r) (λ config. ok (profile_of r config))

  unfoldable pub get_profile : Text → M Rows Profile
  get_profile i rows = (and_then (ok_or not_found (find (is_row i) rows)) shown, rows)

  unfoldable pub get_profile_config : Text → M Rows Text
  get_profile_config i rows = (
    and_then (ok_or not_found (find (is_row i) rows))
        (λ r. and_then (decoded r) (λ config. ok_or internal (serde.print config))),
    rows,
  )

  -- The text that is stored for a configuration.
  abbrev pub stored_text : (Text → List ℕ) → Json → Result Text
  stored_text nonces config =
      and_then (encrypt_in_place nonces config) (λ v. ok_or bad_request (serde.print v))

  -- The primary key may refuse the row.
  abbrev pub insert_row : ProfileRow → M Rows (Unit {0})
  insert_row r rows =
      if any (is_row r.id) rows then (err conflict, rows) else (ok tt, rows ++ r ∷ [])

  unfoldable pub create_profile : Text → ℕ → (Text → List ℕ) → Text → Json → M Rows Profile
  create_profile new_id now nonces name config = do
    text ← lift (stored_text nonces config)
    insert_row (record {
      id = new_id;
      name = name;
      config = text;
      enabled = true;
      created_at = now;
      updated_at = now;
    })
    get_profile new_id

  -- `UPDATE profiles SET … WHERE id = ?`
  unfoldable pub update_rows : Text → (ProfileRow → ProfileRow) → Rows → Rows
  update_rows i f [] = []
  update_rows i f (r ∷ rs) = (if is_row i r then f r else r) ∷ update_rows i f rs

  abbrev pub set_row : Text → (ProfileRow → ProfileRow) → M Rows (Unit {0})
  set_row i f rows = (ok tt, update_rows i f rows)

  unfoldable pub update_profile :
      Text → Option Text → Option Json → Option Bool → ℕ → (Text → List ℕ) → M Rows Profile
  update_profile i name config enabled now nonces = do
    existing ← get_profile i
    text ← lift (stored_text nonces (or_else config existing.config))
    set_row i (λ r. record r {
      name = or_else name existing.name;
      config = text;
      enabled = or_else enabled existing.enabled;
      updated_at = now;
    })
    get_profile i

  unfoldable pub delete_profile : Text → M Rows (Unit {0})
  delete_profile i rows =
      if any (is_row i) rows
      then (ok tt, keep (λ r. not (is_row i r)) rows)
      else (err not_found, rows)

  -- The stored values that carry the marker; a text that is no JSON is passed over.
  abbrev pub if_encrypted : Option Json → List Json → List Json
  if_encrypted none rest = rest
  if_encrypted (some v) rest = if is_encrypted v then v ∷ rest else rest

  unfoldable pub encrypted_blobs : Rows → List Json
  encrypted_blobs [] = []
  encrypted_blobs (r ∷ rs) = if_encrypted (serde.parse r.config) (encrypted_blobs rs)

  abbrev pub as_wrong_key : Result Json → Result (Unit {0})
  as_wrong_key (ok v) = ok tt
  as_wrong_key (err e) = err internal

  unfoldable pub open_all : a.Key → List Json → Result (Unit {0})
  open_all key [] = ok tt
  open_all key (v ∷ vs) =
      and_then (as_wrong_key (decrypt_profile_secrets a key v)) (λ _. open_all key vs)

  abbrev pub checked : Option a.Key → List Json → Result (Unit {0})
  checked key [] = ok tt
  checked none (v ∷ vs) = err internal
  checked (some key) (v ∷ vs) = open_all key (v ∷ vs)

  unfoldable pub verify_profile_encryption : Rows → Result (Unit {0})
  verify_profile_encryption rows = checked profile_key (encrypted_blobs rows)
