-- ===== src/Auth/Permissions.antt =====
-- Roles and permissions: `has_permission` of api/auth.rs, `permissions_for_role` of db.rs, and the
-- role checks of api/users.rs.
use mathlib.Core.List.{reverse}
use snx_edge.Common.{
  ℕ, Bool, false, ◌||◌, List, [], ◌∷◌, ◌++◌, Option, none, some, Text, codes, text_eq, strip_prefix,
  starts_with, any, if◌then◌else◌,
}
use snx_edge.Errors.{bad_request, forbidden, Result, ok, err}

pub record Claims : Type 0 where
  pub sub : Text
  pub role : Text
  pub permissions : List Text
  pub exp : ℕ
  pub iat : ℕ
  pub jti : Text
  pub token_type : Text
  pub token_generation : ℕ

abbrev pub admin_permissions : List Text
admin_permissions =
    codes "tunnel.*"
    ∷ codes "config.*"
    ∷ codes "profiles.*"
    ∷ codes "routing.*"
    ∷ codes "routing.setup"
    ∷ codes "routing.teardown"
    ∷ codes "users.*"
    ∷ codes "logs.*"
    ∷ []

abbrev pub operator_permissions : List Text
operator_permissions =
    codes "tunnel.connect"
    ∷ codes "tunnel.disconnect"
    ∷ codes "tunnel.status"
    ∷ codes "config.read"
    ∷ codes "profiles.read"
    ∷ codes "routing.clients.*"
    ∷ codes "routing.bypass.*"
    ∷ codes "routing.corp.*"
    ∷ codes "routing.diagnostics"
    ∷ codes "logs.*"
    ∷ []

abbrev pub viewer_permissions : List Text
viewer_permissions =
    codes "tunnel.status"
    ∷ codes "config.read"
    ∷ codes "profiles.read"
    ∷ codes "routing.read"
    ∷ codes "logs.read"
    ∷ []

unfoldable pub permissions_for_role : Text → List Text
unfolding text_eq
permissions_for_role role =
    if text_eq role (codes "admin")
    then admin_permissions
    else if text_eq role (codes "operator")
    then operator_permissions
    else if text_eq role (codes "viewer")
    then viewer_permissions
    else []

abbrev reversed : Option Text → Option Text
reversed none = none
reversed (some s) = some (reverse s)

-- `str::strip_suffix`
unfoldable pub strip_suffix : Text → Text → Option Text
strip_suffix suffix s = reversed (strip_prefix (reverse suffix) (reverse s))

abbrev pub covers : Option Text → Text → Bool
covers none required = false
covers (some prefix) required = starts_with (prefix ++ codes ".") required

unfoldable pub grants : Text → Text → Bool
unfolding strip_suffix
grants p required = text_eq p required || covers (strip_suffix (codes ".*") p) required

unfoldable pub has_permission : Claims → Text → Bool
unfolding grants
has_permission claims required = any (λ p. grants p required) claims.permissions

unfoldable pub require_permission : Claims → Text → Result (Unit {0})
require_permission claims permission =
    if has_permission claims permission then ok tt else err forbidden

unfoldable pub validate_role : Text → Result (Unit {0})
validate_role role =
    if text_eq role (codes "admin")
      || text_eq role (codes "operator")
      || text_eq role (codes "viewer")
    then ok tt
    else err bad_request

unfoldable pub role_level : Text → ℕ
role_level role =
    if text_eq role (codes "viewer")
    then 1
    else if text_eq role (codes "operator")
    then 2
    else if text_eq role (codes "admin")
    then 3
    else 0
