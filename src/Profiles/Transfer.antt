-- ===== src/Profiles/Transfer.antt =====
-- The list of the profiles, and their export and import as TOML (db.rs, api/profiles.rs). The TOML
-- library is a parameter; a table is the object of its keys.
use snx_edge.Common.{
  ℕ, Bool, true, false, List, [], ◌∷◌, ◌++◌, Option, Text, codes, map, ltb, ◌==◌, if◌then◌else◌,
}
use snx_edge.Errors.{bad_request, internal, Result, ok, M, ◌>>=◌, ◌>>◌, return, lift, ok_or}
use snx_edge.Auth.Permissions.{Claims, require_permission}
use snx_edge.Json.{Json, object, null, bool, number, string, array, Fields, get, remove, str_of}
use snx_edge.Users.Store.{or_else}
use snx_edge.Profiles.Secrets.{Cipher, and_then, password, cert_password}
use snx_edge.Profiles.Store.{ProfileRow, Profile, Serde, Rows, shown, get_profile}
use snx_edge.Profiles.Store
use snx_edge.Profiles.Handlers.{profile_to_response, sanitize_filename, validate_profile_config}

-- The order of the bytes of UTF-8, which is that of the characters.
unfoldable pub text_le : Text → Text → Bool
text_le [] t = true
text_le (a ∷ s) [] = false
text_le (a ∷ s) (b ∷ t) = let rest = text_le s t in if a == b then rest else ltb a b

unfoldable pub insert_row_by_name : ProfileRow → Rows → Rows
insert_row_by_name r [] = r ∷ []
insert_row_by_name r (x ∷ xs) =
    let rest = insert_row_by_name r xs in if text_le r.name x.name then r ∷ x ∷ xs else x ∷ rest

-- `ORDER BY name`
unfoldable pub order_by_name : Rows → Rows
order_by_name [] = []
order_by_name (r ∷ rs) = insert_row_by_name r (order_by_name rs)

-- `toml::to_string_pretty` of a JSON value that converts, and the parse of a document.
pub record Toml : Type 0 where
  pub from_json : Json → Option Json
  pub to_string_pretty : Json → Option Text
  pub parse_table : Text → Option Fields

module _ (a : Cipher) (serde : Serde) (profile_key : Option a.Key)
    (allow_no_cert_check : Bool) where
  unfoldable pub show_all : Rows → Result (List Profile)
  show_all [] = ok []
  show_all (r ∷ rs) =
      and_then (shown a serde profile_key r) (λ p. and_then (show_all rs) (λ ps. ok (p ∷ ps)))

  unfoldable pub list_profiles : M Rows (List Profile)
  list_profiles rows = (show_all (order_by_name rows), rows)

  unfoldable pub read_profiles : Claims → M Rows (List Profile)
  read_profiles claims = do
    lift (require_permission claims (codes "profiles.read"))
    ps ← list_profiles
    return (map profile_to_response ps)

  module _ (toml : Toml) where
    abbrev pub without_secrets : Json → Json
    without_secrets (object o) = object (remove cert_password (remove password o))
    without_secrets null = null
    without_secrets (bool b) = bool b
    without_secrets (number n) = number n
    without_secrets (string s) = string s
    without_secrets (array xs) = array xs

    -- The name of the file, and the document.
    unfoldable pub export_profile : Claims → Text → M Rows (Text × Text)
    export_profile claims i = do
      lift (require_permission claims (codes "profiles.read"))
      profile ← get_profile a serde profile_key i
      value ← lift (ok_or internal (toml.from_json profile.config))
      document ← lift (ok_or internal (toml.to_string_pretty (without_secrets value)))
      return (sanitize_filename profile.name ++ codes ".conf", document)

    unfoldable pub import_profile : Text → ℕ → (Text → List ℕ) → Claims → Text → M Rows Profile
    import_profile new_id now nonces claims body = do
      lift (require_permission claims (codes "profiles.write"))
      table ← lift (ok_or bad_request (toml.parse_table body))
      let name = or_else (str_of (get (codes "name") table)) (codes "imported")
      let config = object (remove (codes "name") table)
      validate_profile_config a serde profile_key allow_no_cert_check config
      profile ← Store.create_profile a serde profile_key new_id now nonces name config
      return (profile_to_response profile)
