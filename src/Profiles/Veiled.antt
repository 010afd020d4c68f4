-- ===== src/Profiles/Veiled.antt =====
-- What a client is shown of the secrets of a profile (`mask_secrets` of api/profiles.rs).
use snx_edge.Common.{
  ◌≡◌, refl, ◌⊎◌, inl, inr, true, false, Option, none, some, Text, codes, text_eq, Bool-cases,
}
use snx_edge.Json.{Json, object, null, bool, number, string, array, Fields, get, str_of}
use snx_edge.Json.Laws.{get-insert, get-insert_ne}
use snx_edge.Profiles.Secrets.{password, cert_password, is_empty}
use snx_edge.Profiles.Handlers.{secret_mask, masked, mask_field, mask_secrets}

-- A text that is not empty is `***`.
abbrev pub IsVeiled : Option Text → Type 0
IsVeiled none = Unit
IsVeiled (some t) = (is_empty t ≡ true) ⊎ (t ≡ codes "***")

-- Neither of the two secrets is shown.
abbrev pub Veiled : Json → Type 0
Veiled (object o) =
    IsVeiled (str_of (get (codes "password") o)) × IsVeiled (str_of (get (codes "cert_password") o))
Veiled null = Unit
Veiled (bool b) = Unit
Veiled (number n) = Unit
Veiled (string s) = Unit
Veiled (array xs) = Unit

mask_field-IsVeiled : (k : Text) (o : Fields) → IsVeiled (str_of (get k (mask_field k o)))
unfolding mask_field
mask_field-IsVeiled k o = at (str_of (get k o)) refl
  where
    at : (t : Option Text) → str_of (get k o) ≡ t → IsVeiled (str_of (get k (masked k t o)))
    at none e = rw e tt
    at (some t) e = elim (Bool-cases (is_empty t)) [
      | inl h ↦ rw (h, e) (inl h)
      | inr h ↦ rw (h, get-insert k (string secret_mask) o) (inr refl)
    ]

mask_field-other :
    (k l : Text) (o : Fields) → text_eq k l ≡ false → get l (mask_field k o) ≡ get l o
unfolding mask_field
mask_field-other k l o apart = at (str_of (get k o))
  where
    at : (t : Option Text) → get l (masked k t o) ≡ get l o
    at none = refl
    at (some t) = elim (Bool-cases (is_empty t)) [
      | inl h ↦ rw h refl
      | inr h ↦ rw h (get-insert_ne k l (string secret_mask) o apart)
    ]

pub mask_secrets-Veiled : (v : Json) → Veiled (mask_secrets v)
unfolding mask_secrets text_eq
mask_secrets-Veiled (object o) = (
  rw (mask_field-other cert_password password (mask_field password o) refl)
      (mask_field-IsVeiled password o),
  mask_field-IsVeiled cert_password (mask_field password o),
)
mask_secrets-Veiled null = tt
mask_secrets-Veiled (bool b) = tt
mask_secrets-Veiled (number n) = tt
mask_secrets-Veiled (string s) = tt
mask_secrets-Veiled (array xs) = tt
