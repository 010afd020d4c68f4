-- ===== src/Profiles/Handlers.antt =====
-- The handlers of profiles (apps/snx-edge-server/src/api/profiles.rs), without the upload of files and
-- TOML. The broadcast of a change is left out.
use snx_edge.Common.{
  ℕ, Bool, false, not, ◌&&◌, ◌||◌, ◌==◌, List, [], ◌∷◌, Option, none, some, Text, codes, text_eq,
  map, if◌then◌else◌,
}
use snx_edge.Errors.{bad_request, M, ◌>>=◌, ◌>>◌, return, fail, lift}
use snx_edge.Auth.Permissions.{Claims, require_permission}
use snx_edge.Json.{
  Json, object, null, bool, number, string, array, Fields, get, insert, as_object, str_of,
}
use snx_edge.Profiles.Secrets.{Cipher, password, cert_password, is_empty}
use snx_edge.Profiles.Store.{Profile, Serde, Rows, get_profile, get_profile_config}
use snx_edge.Profiles.Store
use snx_edge.Reconciler.{is_ascii_alphanumeric}

abbrev pub secret_mask : Text
secret_mask = codes "***"

-- A character that is kept in a file name.
abbrev pub is_file_char : ℕ → Bool
is_file_char c = is_ascii_alphanumeric c || c == 46 || c == 95 || c == 45

abbrev pub or_profile : Text → Text
or_profile [] = codes "profile"
or_profile (c ∷ s) = c ∷ s

unfoldable pub sanitize_filename : Text → Text
sanitize_filename name = or_profile (map (λ c. if is_file_char c then c else 95) name)

abbrev is_true : Option Json → Bool
is_true none = false
is_true (some (bool b)) = b
is_true (some null) = false
is_true (some (number n)) = false
is_true (some (string s)) = false
is_true (some (array xs)) = false
is_true (some (object o)) = false

-- `Value::get` of a value that is no object is none.
abbrev pub get_in : Text → Option Fields → Option Json
get_in k none = none
get_in k (some o) = get k o

unfoldable pub config_disables_cert_check : Json → Bool
config_disables_cert_check config = is_true (get_in (codes "no_cert_check") (as_object config))

abbrev pub masked : Text → Option Text → Fields → Fields
masked k none o = o
masked k (some t) o = if is_empty t then o else insert k (string secret_mask) o

unfoldable pub mask_field : Text → Fields → Fields
mask_field k o = masked k (str_of (get k o)) o

abbrev pub mask_fields : Fields → Fields
mask_fields o = mask_field cert_password (mask_field password o)

unfoldable pub mask_secrets : Json → Json
mask_secrets (object o) = object (mask_fields o)
mask_secrets null = null
mask_secrets (bool b) = bool b
mask_secrets (number n) = number n
mask_secrets (string s) = string s
mask_secrets (array xs) = array xs

abbrev pub profile_to_response : Profile → Profile
profile_to_response p = record p { config = mask_secrets p.config }

abbrev pub is_mask : Option Text → Bool
is_mask none = false
is_mask (some t) = text_eq t secret_mask

abbrev pub put_existing : Text → Option Json → Fields → Fields
put_existing k none o = o
put_existing k (some v) o = insert k v o

-- One turn of the loop that keeps the secrets which the client has sent back masked.
unfoldable pub unmask_field : Json → Text → Fields → Fields
unfolding text_eq
unmask_field existing k o =
    if is_mask (str_of (get k o)) then put_existing k (get_in k (as_object existing)) o else o

abbrev pub unmask_fields : Json → Fields → Fields
unmask_fields existing o = unmask_field existing cert_password (unmask_field existing password o)

abbrev pub or_null : Option Json → Json
or_null none = null
or_null (some v) = v

pub record CreateProfileRequest : Type 0 where
  pub name : Text
  pub config : Json

pub record UpdateProfileRequest : Type 0 where
  pub name : Option Text
  pub config : Option Json
  pub enabled : Option Bool

module _ (a : Cipher) (serde : Serde) (profile_key : Option a.Key)
    (allow_no_cert_check : Bool) where
  abbrev pub check_policy : Json → M Rows (Unit {0})
  check_policy config =
      if config_disables_cert_check config && not allow_no_cert_check
      then fail bad_request
      else return tt

  abbrev pub check_server : Option Text → M Rows (Unit {0})
  check_server none = fail bad_request
  check_server (some server) = if is_empty server then fail bad_request else return tt

  abbrev pub check_object : Json → Option Fields → M Rows (Unit {0})
  check_object config none = fail bad_request
  check_object config (some o) = do
    check_server (str_of (get (codes "server") o))
    check_policy config

  unfoldable pub validate_profile_config : Json → M Rows (Unit {0})
  validate_profile_config config = check_object config (as_object config)

  unfoldable pub create_profile :
      Text → ℕ → (Text → List ℕ) → Claims → CreateProfileRequest → M Rows Profile
  create_profile new_id now nonces claims req = do
    lift (require_permission claims (codes "profiles.write"))
    validate_profile_config req.config
    p ← Store.create_profile a serde profile_key new_id now nonces req.name req.config
    return (profile_to_response p)

  unfoldable pub read_profile : Claims → Text → M Rows Profile
  read_profile claims i = do
    lift (require_permission claims (codes "profiles.read"))
    p ← get_profile a serde profile_key i
    return (profile_to_response p)

  -- The configuration to store; what is stored is asked for only where the new one is an object.
  abbrev pub unmasked : Text → Option Json → M Rows (Option Json)
  unmasked i none = return none
  unmasked i (some (object o)) = do
    text ← get_profile_config a serde profile_key i
    return (some (object (unmask_fields (or_null (serde.parse text)) o)))
  unmasked i (some null) = return (some null)
  unmasked i (some (bool b)) = return (some (bool b))
  unmasked i (some (number n)) = return (some (number n))
  unmasked i (some (string s)) = return (some (string s))
  unmasked i (some (array xs)) = return (some (array xs))

  abbrev pub check_given : Option Json → M Rows (Unit {0})
  check_given none = return tt
  check_given (some config) = check_policy config

  unfoldable pub update_profile :
      ℕ → (Text → List ℕ) → Claims → Text → UpdateProfileRequest → M Rows Profile
  update_profile now nonces claims i req = do
    lift (require_permission claims (codes "profiles.write"))
    config ← unmasked i req.config
    check_given config
    p ← Store.update_profile a serde profile_key i req.name config req.enabled now nonces
    return (profile_to_response p)

  unfoldable pub delete_profile : Claims → Text → M Rows (Unit {0})
  delete_profile claims i = do
    lift (require_permission claims (codes "profiles.write"))
    Store.delete_profile a serde profile_key i
