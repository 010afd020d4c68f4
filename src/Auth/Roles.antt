-- ===== src/Auth/Roles.antt =====
-- What the roles of the server may do (api/auth.rs, db.rs).
use snx_edge.Common.{
  ◌≡◌, refl, inl, inr, true, List, [], ◌∷◌, ◌++◌, none, some, Text, codes, text_eq, text_eq→≡,
  strip_prefix, starts_with, any, arith, Bool-cases, is_found, All, In, ◌==◌, In→any,
}
use snx_edge.Auth.Permissions.{
  grants, permissions_for_role, strip_suffix, has_permission, Claims, admin_permissions,
  operator_permissions, viewer_permissions,
}

-- A longer prefix is a stronger demand.
starts_with-part : (p q s : Text) → starts_with (p ++ q) s ≡ true → starts_with p s ≡ true
unfolding starts_with strip_prefix
starts_with-part [] q s h = refl
starts_with-part (a ∷ p) q [] h = h
starts_with-part (a ∷ p) q (b ∷ s) h = elim (Bool-cases (a == b)) [
  | inl e ↦ rw e (starts_with-part p q s (rw e at h))
  | inr e ↦ absurd (impossible (rw e at h))
]
  where
    impossible : is_found none ≡ true → ⊥
    impossible t = cc

-- One permission of a role implies another role's.
abbrev Within : List Text → Text → Type 0
Within wider p = (r : Text) → grants p r ≡ true → any (λ q. grants q r) wider ≡ true

named-Within :
    (wider : List Text) (p : Text)
    → strip_suffix (codes ".*") p ≡ none
    → any (λ q. grants q p) wider ≡ true
    → Within wider p
unfolding grants
named-Within wider p plain has r h =
    let e : p ≡ r = text_eq→≡ p r (ground (arith, plain)) in rw (← e) has

wild-Within :
    (wider : List Text) (p q stem wide rest : Text)
    → strip_suffix (codes ".*") p ≡ some stem
    → strip_suffix (codes ".*") q ≡ some wide
    → stem ++ codes "." ≡ (wide ++ codes ".") ++ rest
    → In q wider
    → any (λ q. grants q p) wider ≡ true
    → Within wider p
unfolding grants
wild-Within wider p q stem wide rest sp sq longer i has r h = elim (Bool-cases (text_eq p r)) [
  | inl e ↦ rw (← text_eq→≡ p r e) has
  | inr e ↦
      (let h2 : starts_with (stem ++ codes ".") r ≡ true = rw (e, sp) at h in
        let h3 : starts_with (wide ++ codes ".") r ≡ true =
          starts_with-part (wide ++ codes ".") rest r (rw longer at h2) in
        In→any (λ q. grants q r) q wider i (rw sq (ground arith)))
]

All-Within :
    (wider ps : List Text)
    → All (Within wider) ps
    → (r : Text) → any (λ p. grants p r) ps ≡ true
    → any (λ q. grants q r) wider ≡ true
All-Within wider [] _ r h = cc
All-Within wider (p ∷ ps) (w, ws) r h = elim (Bool-cases (grants p r)) [
  | inl e ↦ w r e
  | inr e ↦ All-Within wider ps ws r (rw e at h)
]

operator-Within : All (Within admin_permissions) operator_permissions
unfolding grants strip_suffix starts_with strip_prefix text_eq
operator-Within = (
  named-Within admin_permissions (codes "tunnel.connect") refl refl,
  (
    named-Within admin_permissions (codes "tunnel.disconnect") refl refl,
    (
      named-Within admin_permissions (codes "tunnel.status") refl refl,
      (
        named-Within admin_permissions (codes "config.read") refl refl,
        (
          named-Within admin_permissions (codes "profiles.read") refl refl,
          (
            wild-Within admin_permissions (codes "routing.clients.*") (codes "routing.*")
                (codes "routing.clients") (codes "routing") (codes "clients.") refl refl refl
                (inr (inr (inr (inl refl)))) refl,
            (
              wild-Within admin_permissions (codes "routing.bypass.*") (codes "routing.*")
                  (codes "routing.bypass") (codes "routing") (codes "bypass.") refl refl refl
                  (inr (inr (inr (inl refl)))) refl,
              (
                wild-Within admin_permissions (codes "routing.corp.*") (codes "routing.*")
                    (codes "routing.corp") (codes "routing") (codes "corp.") refl refl refl
                    (inr (inr (inr (inl refl)))) refl,
                (
                  named-Within admin_permissions (codes "routing.diagnostics") refl refl,
                  (
                    wild-Within admin_permissions (codes "logs.*") (codes "logs.*") (codes "logs")
                        (codes "logs") [] refl refl refl
                        (inr (inr (inr (inr (inr (inr (inr (inl refl)))))))) refl,
                    tt,
                  ),
                ),
              ),
            ),
          ),
        ),
      ),
    ),
  ),
)

viewer-Within : All (Within admin_permissions) viewer_permissions
unfolding grants strip_suffix starts_with strip_prefix text_eq
viewer-Within = (
  named-Within admin_permissions (codes "tunnel.status") refl refl,
  (
    named-Within admin_permissions (codes "config.read") refl refl,
    (
      named-Within admin_permissions (codes "profiles.read") refl refl,
      (
        named-Within admin_permissions (codes "routing.read") refl refl,
        (named-Within admin_permissions (codes "logs.read") refl refl, tt),
      ),
    ),
  ),
)

abbrev pub with_role : Text → Claims → Claims
with_role role claims = record claims { permissions = permissions_for_role role }

-- Whatever the permissions of a role allow, those of an administrator allow.
pub has_permission-admin :
    (role required : Text) (claims : Claims)
    → has_permission (with_role role claims) required ≡ true
    → has_permission (with_role (codes "admin") claims) required ≡ true
unfolding has_permission permissions_for_role
has_permission-admin role required claims h = elim (Bool-cases (text_eq role (codes "admin"))) [
  | inl e ↦ rw e at h
  | inr e ↦ (elim (Bool-cases (text_eq role (codes "operator"))) [
    | inl o ↦
        All-Within admin_permissions operator_permissions operator-Within required (rw (e, o) at h)
    | inr o ↦ (elim (Bool-cases (text_eq role (codes "viewer"))) [
      | inl v ↦
          All-Within admin_permissions viewer_permissions viewer-Within required (rw (e, o, v) at h)
      | inr v ↦ All-Within admin_permissions [] tt required (rw (e, o, v) at h)
    ])
  ])
]
