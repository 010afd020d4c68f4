-- ===== src/Users/State.antt =====
-- The application state after its writes (db.rs).
use snx_edge.Common.{
  ◌≡◌, refl, true, false, not, List, [], ◌∷◌, none, some, Text, text_eq, text_eq_refl, text_eq→≡,
  keep, arith, ap,
}
use snx_edge.Users.Rows.{lookup_state, upsert}

text_eq-at : (j k l : Text) → text_eq j k ≡ true → text_eq j l ≡ text_eq k l
text_eq-at j k l h = ap (λ t. text_eq t l) (text_eq→≡ j k h)

pub lookup_state-upsert :
    (k v : Text) (m : List (Text × Text)) → lookup_state k (upsert k v m) ≡ some v
unfolding lookup_state upsert
lookup_state-upsert k v [] = rw (text_eq_refl k) refl
lookup_state-upsert k v ((j, w) ∷ m) = ground (arith, lookup_state-upsert k v m)

pub lookup_state-upsert_ne :
    (k l v : Text) (m : List (Text × Text))
    → text_eq k l ≡ false
    → lookup_state l (upsert k v m) ≡ lookup_state l m
unfolding lookup_state upsert
lookup_state-upsert_ne k l v [] h = rw h refl
lookup_state-upsert_ne k l v ((j, w) ∷ m) h =
    ground (arith, lookup_state-upsert_ne k l v m h, text_eq-at j k l)

pub lookup_state-deleted :
    (k : Text) (m : List (Text × Text))
    → lookup_state k (keep (λ (e : Text × Text). not (text_eq e.0 k)) m) ≡ none
unfolding lookup_state
lookup_state-deleted k [] = refl
lookup_state-deleted k ((j, w) ∷ m) = ground (arith, lookup_state-deleted k m)
