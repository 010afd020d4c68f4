-- ===== src/Users/LastAdmin.antt =====
-- The store never loses its last enabled administrator.
use snx_edge.Common.{
  ℕ, ◌≡◌, refl, ◌∙◌, ◌⊎◌, inl, inr, Bool, true, false, not, ◌&&◌, List, [], ◌∷◌, Option, none, some,
  Text, text_eq, text_eq→≡, any, keep, find, arith, Bool-cases,
}
use snx_edge.Errors.{not_found, then_run, ok_or}
use snx_edge.Users.Store.{
  User, Db, admin, has_id, update_where, is_active_admin, other_admin, get_user_by_id, or_else,
  updated, removes_admin, privileges_reduced, update_row, update_user, delete_rows, delete_user,
  delete_checked,
}

-- No two rows share a primary key.
abbrev pub Distinct : List User → Type 0
Distinct [] = Unit
Distinct (u ∷ us) = (any (has_id u.id) us ≡ false) × Distinct us

pub record IsValid (db : Db) : Type 0 where
  pub keys : Distinct db.users
  pub has_admin : any is_active_admin db.users ≡ true

-- Another administrator is not touched by a write to the row `i`.
other-update_where :
    (i : Text) (f : User → User) (us : List User)
    → other_admin i us ≡ true
    → any is_active_admin (update_where i f us) ≡ true
unfolding other_admin update_where
other-update_where i f [] h = h
other-update_where i f (u ∷ us) h = ground (arith, other-update_where i f us)

update_where-absent :
    (i : Text) (f : User → User) (us : List User)
    → any (has_id i) us ≡ false
    → update_where i f us ≡ us
unfolding update_where
update_where-absent i f [] h = refl
update_where-absent i f (u ∷ us) h = ground (arith, update_where-absent i f us)

pub has_id→≡ : (i : Text) (u : User) → has_id i u ≡ true → u.id ≡ i
unfolding has_id
has_id→≡ i u h = text_eq→≡ u.id i h

-- A write that keeps the one row `i` an administrator, if it was one, keeps the store in charge.
kept-update_where :
    (i : Text) (f : User → User) (us : List User) (u : User)
    → Distinct us
    → find (has_id i) us ≡ some u
    → (is_active_admin u ≡ false) ⊎ (is_active_admin (f u) ≡ true)
    → any is_active_admin us ≡ true
    → any is_active_admin (update_where i f us) ≡ true
unfolding update_where
kept-update_where i f [] u k found keep h = ground arith
kept-update_where i f (v ∷ us) u (fresh, k) found keep h = elim (Bool-cases (has_id i v)) [
  | inl e ↦
      (let rest : any (has_id i) us ≡ false = rw (← has_id→≡ i v e) fresh in
        ground (arith, update_where-absent i f us rest))
  | inr e ↦ ground (arith, kept-update_where i f us u k (ground arith) keep)
]

any-update_where-id :
    (i j : Text) (f : User → User) (us : List User)
    → ((u : User) → (f u).id ≡ u.id)
    → any (has_id j) (update_where i f us) ≡ any (has_id j) us
unfolding update_where has_id
any-update_where-id i j f [] same = refl
any-update_where-id i j f (u ∷ us) same = ground (arith, same u, any-update_where-id i j f us same)

pub Distinct-update_where :
    (i : Text) (f : User → User) (us : List User)
    → ((u : User) → (f u).id ≡ u.id)
    → Distinct us
    → Distinct (update_where i f us)
unfolding update_where
Distinct-update_where i f [] same k = k
Distinct-update_where i f (u ∷ us) same (fresh, k) = elim (Bool-cases (has_id i u)) [
  | inl e ↦ rw e (
      rw (same u)
        (any-update_where-id i u.id f us same ∙ fresh, Distinct-update_where i f us same k))
  | inr e ↦ rw e (any-update_where-id i u.id f us same ∙ fresh, Distinct-update_where i f us same k)
]

any-update_where-kept :
    (i : Text) (f : User → User) (us : List User)
    → ((u : User) → is_active_admin (f u) ≡ is_active_admin u)
    → any is_active_admin (update_where i f us) ≡ any is_active_admin us
unfolding update_where
any-update_where-kept i f [] kept = refl
any-update_where-kept i f (u ∷ us) kept = ground (arith, kept u, any-update_where-kept i f us kept)

-- A write that keeps keys, roles and the enabled flag keeps the invariant.
pub bookkeeping-IsValid :
    (i : Text) (f : User → User) (db : Db)
    → ((u : User) → (f u).id ≡ u.id)
    → ((u : User) → is_active_admin (f u) ≡ is_active_admin u)
    → IsValid db
    → IsValid (record db { users = update_where i f db.users })
bookkeeping-IsValid i f db same kept v = record {
  keys = Distinct-update_where i f db.users same v.keys;
  has_admin = any-update_where-kept i f db.users kept ∙ v.has_admin;
}

removes_admin-keeps :
    (u : User) (role comment : Text) (enabled : Bool) (now : ℕ) (reduced : Bool)
    → removes_admin u role enabled ≡ false
    → (is_active_admin u ≡ false)
      ⊎ (is_active_admin (updated u role comment enabled now reduced) ≡ true)
unfolding removes_admin is_active_admin updated
removes_admin-keeps u role comment enabled now reduced h = ground arith

update_row-IsValid :
    (i : Text) (u : User) (role comment : Option Text) (enabled : Option Bool) (now : ℕ) (db : Db)
    → find (has_id i) db.users ≡ some u
    → IsValid db
    → IsValid (update_row i u role comment enabled now db).1
unfolding update_row get_user_by_id
update_row-IsValid i u role comment enabled now db found v =
    let new_role = or_else role u.role in
    let new_comment = or_else comment u.comment in
    let new_enabled = or_else enabled u.enabled in
    let f = λ (w : User).
      updated w new_role new_comment new_enabled now (privileges_reduced u new_role new_enabled) in
    let keys : Distinct (update_where i f db.users) =
      Distinct-update_where i f db.users (λ w. unfold updated in refl) v.keys in
    elim (Bool-cases (removes_admin u new_role new_enabled)) [
      | inl r ↦ elim (Bool-cases (other_admin i db.users)) [
        | inl o ↦ rw (r, o) (record { keys = keys; has_admin = other-update_where i f db.users o })
        | inr o ↦ rw (r, o) v
      ]
      | inr r ↦ rw r (record {
        keys = keys;
        has_admin =
            kept-update_where i f db.users u v.keys found
              (removes_admin-keeps u new_role new_comment new_enabled now
                (privileges_reduced u new_role new_enabled) r)
              v.has_admin;
      })
    ]

-- After `update_user`, whether it succeeds or not, the ids of the users are distinct and there is
-- an enabled administrator, if both held before.
pub update_user-IsValid :
    (i : Text) (role comment : Option Text) (enabled : Option Bool) (now : ℕ) (db : Db)
    → IsValid db
    → IsValid (update_user i role comment enabled now db).1
unfolding update_user get_user_by_id
update_user-IsValid i role comment enabled now db v = go (find (has_id i) db.users) refl
  where
    go :
        (o : Option User)
        → find (has_id i) db.users ≡ o
        → IsValid (then_run (ok_or not_found o) (λ u. update_row i u role comment enabled now) db).1
    go none e = v
    go (some u) e = update_row-IsValid i u role comment enabled now db e v

-- Deleting the row `i` leaves another administrator in place.
other-delete :
    (i : Text) (us : List User)
    → other_admin i us ≡ true
    → any is_active_admin (keep (λ u. not (has_id i u)) us) ≡ true
unfolding other_admin
other-delete i [] h = h
other-delete i (u ∷ us) h = ground (arith, other-delete i us)

-- With no other administrator, the row found under the key is one, if there is any.
only_admin :
    (i : Text) (us : List User) (u : User)
    → other_admin i us ≡ false
    → any is_active_admin us ≡ true
    → Distinct us
    → find (has_id i) us ≡ some u
    → is_active_admin u ≡ true
unfolding other_admin
only_admin i [] u o h k found = ground arith
only_admin i (v ∷ us) u o h (fresh, k) found = elim (Bool-cases (has_id i v)) [
  | inl e ↦
      (let rest : any (has_id i) us ≡ false = rw (← has_id→≡ i v e) fresh in
        let none_left : any is_active_admin us ≡ false = no_admin us rest (ground arith) in
        ground arith)
  | inr e ↦ only_admin i us u (ground arith) (ground arith) k (ground arith)
]
  where
    no_admin :
        (vs : List User)
        → any (has_id i) vs ≡ false
        → any (λ w. is_active_admin w && not (has_id i w)) vs ≡ false
        → any is_active_admin vs ≡ false
    no_admin [] a b = refl
    no_admin (w ∷ vs) a b = ground (arith, no_admin vs)

any-keep :
    {A : Type 0} (p q : A → Bool) (xs : List A) → any p xs ≡ false → any p (keep q xs) ≡ false
any-keep p q [] h = refl
any-keep p q (x ∷ xs) h = ground (arith, any-keep p q xs)

Distinct-keep : (q : User → Bool) (us : List User) → Distinct us → Distinct (keep q us)
Distinct-keep q [] k = k
Distinct-keep q (u ∷ us) (fresh, k) = elim (Bool-cases (q u)) [
  | inl e ↦ rw e (any-keep (has_id u.id) q us fresh, Distinct-keep q us k)
  | inr e ↦ rw e (Distinct-keep q us k)
]

delete_rows-IsValid :
    (i : Text) (db : Db) → other_admin i db.users ≡ true → IsValid db → IsValid (delete_rows i db).1
unfolding delete_rows
delete_rows-IsValid i db o v = elim (Bool-cases (any (has_id i) db.users)) [
  | inl e ↦ rw e (record {
    keys = Distinct-keep (λ u. not (has_id i u)) db.users v.keys;
    has_admin = other-delete i db.users o;
  })
  | inr e ↦ rw e v
]

active→admin : (u : User) → is_active_admin u ≡ true → text_eq u.role admin ≡ true
unfolding is_active_admin
active→admin u h = ground arith

-- After `delete_user`, whether it succeeds or not, the ids of the users are distinct and there is
-- an enabled administrator, if both held before.
pub delete_user-IsValid : (i : Text) (db : Db) → IsValid db → IsValid (delete_user i db).1
unfolding delete_user delete_checked
delete_user-IsValid i db v = elim (Bool-cases (other_admin i db.users)) [
  | inl o ↦ rw o (delete_rows-IsValid i db o v)
  | inr o ↦ rw o (go o (find (has_id i) db.users) refl)
]
  where
    go :
        other_admin i db.users ≡ false
        → (u : Option User) → find (has_id i) db.users ≡ u
        → IsValid (delete_checked i u db).1
    go o none e = v
    go o (some u) e =
        let a : is_active_admin u ≡ true = only_admin i db.users u o v.has_admin v.keys e in
        let r : text_eq u.role admin ≡ true = active→admin u a in rw r v
