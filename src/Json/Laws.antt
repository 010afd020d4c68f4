-- ===== src/Json/Laws.antt =====
-- The laws of `get`, `insert` and `remove`.
use snx_edge.Common.{
  ◌≡◌, refl, ap, true, false, none, some, Text, text_eq, text_eq_refl, text_eq→≡, text_eq_sym,
  arith,
}
use snx_edge.Json.{Json, Fields, end, field, get, insert, remove}

text_eq-at : (j k l : Text) → text_eq j k ≡ true → text_eq j l ≡ text_eq k l
text_eq-at j k l h = ap (λ t. text_eq t l) (text_eq→≡ j k h)

pub get-insert : (k : Text) (v : Json) (o : Fields) → get k (insert k v o) ≡ some v
unfolding get insert
get-insert k v end = rw (text_eq_refl k) refl
get-insert k v (field j w o) = ground (arith, get-insert k v o)

pub get-insert_ne :
    (k l : Text) (v : Json) (o : Fields) → text_eq k l ≡ false → get l (insert k v o) ≡ get l o
unfolding get insert
get-insert_ne k l v end h = rw h refl
get-insert_ne k l v (field j w o) h = ground (arith, get-insert_ne k l v o, text_eq-at j k l)

-- To write what is there changes nothing.
pub insert_same : (k : Text) (v : Json) (o : Fields) → get k o ≡ some v → insert k v o ≡ o
unfolding get insert
insert_same k v end h = cc
insert_same k v (field j w o) h = ground (arith, insert_same k v o)

pub insert-insert : (k : Text) (v w : Json) (o : Fields) → insert k v (insert k w o) ≡ insert k v o
unfolding insert
insert-insert k v w end = rw (text_eq_refl k) refl
insert-insert k v w (field j u o) = ground (arith, insert-insert k v w o)

pub remove-insert_ne :
    (k l : Text) (v : Json) (o : Fields)
    → text_eq k l ≡ false
    → remove l (insert k v o) ≡ insert k v (remove l o)
unfolding remove insert
remove-insert_ne k l v end h = rw h refl
remove-insert_ne k l v (field j w o) h = ground (arith, remove-insert_ne k l v o, text_eq-at j k l)

pub remove_absent : (k : Text) (o : Fields) → get k o ≡ none → remove k o ≡ o
unfolding get remove
remove_absent k end h = refl
remove_absent k (field j v o) h = ground (arith, remove_absent k o)

pub remove-insert :
    (k : Text) (v : Json) (o : Fields) → get k o ≡ none → remove k (insert k v o) ≡ o
unfolding get insert remove
remove-insert k v end h = rw (text_eq_refl k) refl
remove-insert k v (field j w o) h = ground (arith, remove-insert k v o)

pub get-remove_ne : (k l : Text) (o : Fields) → text_eq k l ≡ false → get l (remove k o) ≡ get l o
unfolding get remove
get-remove_ne k l end h = refl
get-remove_ne k l (field j v o) h = ground (arith, get-remove_ne k l o, text_eq-at j k l)

-- A key that is there keeps its place.
pub insert_comm :
    (k l : Text) (v w u : Json) (o : Fields)
    → text_eq k l ≡ false
    → get k o ≡ some u
    → insert k v (insert l w o) ≡ insert l w (insert k v o)
unfolding get insert
insert_comm k l v w u end h e = cc
insert_comm k l v w u (field j x o) h e =
    ground (arith, insert_comm k l v w u o, text_eq-at j k l, text_eq_sym k l)
