-- ===== src/Auth/Generations.antt =====
-- What the queries of the store do to the token generation of each user.
use snx_edge.Common.{
  ℕ, ◌≡◌, refl, ap, ◌∙◌, inl, inr, Bool, true, false, not, List, [], ◌∷◌, ◌++◌, Option, none, some,
  Text, text_eq, text_eq→≡, text_eq_sym, any, keep, find, arith, Bool-cases, if◌then◌else◌,
}
use snx_edge.Errors.{Result, ok}
use snx_edge.Users.Store.{User, has_id, update_where, generation_of}

-- The generation of the user `i`.
abbrev pub generation_in : Text → List User → Result ℕ
generation_in i us = generation_of (find (has_id i) us)

pub find-keep :
    {A : Type 0} (p q : A → Bool) (xs : List A)
    → ((x : A) → p x ≡ true → q x ≡ true)
    → find p (keep q xs) ≡ find p xs
find-keep p q [] imp = refl
find-keep p q (x ∷ xs) imp = elim (Bool-cases (p x)) [
  | inl e ↦ rw (imp x e, e) refl
  | inr e ↦ (elim (Bool-cases (q x)) [
    | inl k ↦ rw (k, e) (find-keep p q xs imp)
    | inr k ↦ rw (k, e) (find-keep p q xs imp)
  ])
]

pub find-keep-none :
    {A : Type 0} (p q : A → Bool) (xs : List A)
    → ((x : A) → q x ≡ true → p x ≡ false)
    → find p (keep q xs) ≡ none
find-keep-none p q [] imp = refl
find-keep-none p q (x ∷ xs) imp = elim (Bool-cases (q x)) [
  | inl e ↦ rw e (rw (imp x e) (find-keep-none p q xs imp))
  | inr e ↦ rw e (find-keep-none p q xs imp)
]

pub find-true : {A : Type 0} (p : A → Bool) (xs : List A) (x : A) → find p xs ≡ some x → p x ≡ true
find-true p [] x h = cc
find-true p (y ∷ ys) x h = elim (Bool-cases (p y)) [
  | inl e ↦ (let q : some y ≡ some x = rw e at h in cc)
  | inr e ↦ find-true p ys x (rw e at h)
]

abbrev pub map_found : (User → User) → Option User → Option User
map_found f none = none
map_found f (some u) = some (f u)

abbrev pub write_to : Text → (User → User) → User → User
write_to i f u = if has_id i u then f u else u

pub find-update_where :
    (i j : Text) (f : User → User) (us : List User)
    → ((u : User) → (f u).id ≡ u.id)
    → find (has_id j) (update_where i f us) ≡ map_found (write_to i f) (find (has_id j) us)
unfolding update_where has_id
find-update_where i j f [] same = refl
find-update_where i j f (u ∷ us) same = elim (Bool-cases (text_eq u.id i)) [
  | inl e ↦ (elim (Bool-cases (text_eq u.id j)) [
    | inl k ↦ (let t : text_eq (f u).id j ≡ true = rw (same u) k in rw (e, t, k, e) refl)
    | inr k ↦
        (let t : text_eq (f u).id j ≡ false = rw (same u) k in
          rw (e, t, k) (find-update_where i j f us same))
  ])
  | inr e ↦ (elim (Bool-cases (text_eq u.id j)) [
    | inl k ↦ rw (e, k, e) refl
    | inr k ↦ rw (e, k) (find-update_where i j f us same)
  ])
]

generation-found :
    (i : Text) (f : User → User) (o : Option User)
    → ((u : User) → (f u).token_generation ≡ u.token_generation)
    → generation_of (map_found (write_to i f) o) ≡ generation_of o
generation-found i f none same = refl
generation-found i f (some u) same = elim (Bool-cases (has_id i u)) [
  | inl e ↦ rw e (ap ok (same u))
  | inr e ↦ rw e refl
]

-- A write that leaves the generation alone.
pub generation-kept :
    (i j : Text) (f : User → User) (us : List User)
    → ((u : User) → (f u).id ≡ u.id)
    → ((u : User) → (f u).token_generation ≡ u.token_generation)
    → generation_in j (update_where i f us) ≡ generation_in j us
generation-kept i j f us same kept =
    ap generation_of (find-update_where i j f us same)
    ∙ generation-found i f (find (has_id j) us) kept

-- A write to the row `i` is none to another row.
pub generation-other :
    (i j : Text) (f : User → User) (us : List User)
    → ((u : User) → (f u).id ≡ u.id)
    → text_eq i j ≡ false
    → generation_in j (update_where i f us) ≡ generation_in j us
generation-other i j f us same apart =
    ap generation_of (find-update_where i j f us same) ∙ go (find (has_id j) us) refl
  where
    other : (u : User) → has_id j u ≡ true → has_id i u ≡ false
    other u h = unfold has_id in (rw (text_eq→≡ u.id j h) (text_eq_sym j i ∙ apart))

    go :
        (o : Option User)
        → find (has_id j) us ≡ o
        → generation_of (map_found (write_to i f) o) ≡ generation_of o
    go none e = refl
    go (some u) e = rw (other u (find-true (has_id j) us u e)) refl

pub any→find :
    (i : Text) (us : List User)
    → any (has_id i) us ≡ true
    → (u : User) × (find (has_id i) us ≡ some u)
any→find i [] h = cc
any→find i (u ∷ us) h = elim (Bool-cases (has_id i u)) [
  | inl e ↦ (u, rw e refl)
  | inr e ↦ (let (v, q) = any→find i us (rw e at h) in (v, rw e q))
]

pub find→any :
    (i : Text) (us : List User) (u : User) → find (has_id i) us ≡ some u → any (has_id i) us ≡ true
find→any i [] u h = cc
find→any i (v ∷ us) u h = elim (Bool-cases (has_id i v)) [
  | inl e ↦ rw e refl
  | inr e ↦ rw e (find→any i us u (rw e at h))
]

-- A write to the row that is there.
pub find-written :
    (i : Text) (f : User → User) (us : List User) (u : User)
    → ((u : User) → (f u).id ≡ u.id)
    → find (has_id i) us ≡ some u
    → find (has_id i) (update_where i f us) ≡ some (f u)
find-written i f us u same e =
    find-update_where i i f us same ∙ rw e (rw (find-true (has_id i) us u e) refl)

-- Another row is deleted.
pub generation-deleted :
    (i j : Text) (us : List User)
    → text_eq i j ≡ false
    → generation_in j (keep (λ u. not (has_id i u)) us) ≡ generation_in j us
generation-deleted i j us apart =
    ap generation_of (find-keep (has_id j) (λ u. not (has_id i u)) us (λ u h. rw (other u h) refl))
  where
    other : (u : User) → has_id j u ≡ true → has_id i u ≡ false
    other u h = unfold has_id in (rw (text_eq→≡ u.id j h) (text_eq_sym j i ∙ apart))

pub generation-gone :
    (i : Text) (us : List User) → find (has_id i) (keep (λ u. not (has_id i u)) us) ≡ none
generation-gone i us =
    find-keep-none (has_id i) (λ u. not (has_id i u)) us (λ u h. ground (arith, h))

-- A new row is the last.
pub find-snoc :
    (j : Text) (us : List User) (v u : User)
    → find (has_id j) us ≡ some u
    → find (has_id j) (us ++ v ∷ []) ≡ some u
find-snoc j [] v u h = cc
find-snoc j (w ∷ us) v u h = elim (Bool-cases (has_id j w)) [
  | inl e ↦ rw e (rw e at h)
  | inr e ↦ rw e (find-snoc j us v u (rw e at h))
]
