-- ===== src/RouterOs/Keeps.antt =====
-- Which objects the requests of the client leave alone.
use mathlib.Core.Path.{subst}
use snx_edge.Common.{
  ℕ, ◌≡◌, refl, sym, ap, ◌∙◌, ◌≢◌, ◌⊎◌, inl, inr, Bool, true, false, List, [], ◌∷◌, none, some,
  Text, In, arith, Bool-cases,
}
use snx_edge.Errors.{Result, ok, err, M, ◌>>=◌, return, for_each, then_run, lift}
use snx_edge.RouterOs.Device.{
  RestPath, RestPath-discrete, Object, id_of, Reply, unreachable, replied, is_success, Device,
  Lawful,
}
use snx_edge.RouterOs.Client.{Shape, receive, decode_all, get_list, create, delete, is_object_id}

-- A decoded list is what the path held.
receive-ok :
    {A : Type 0} (r : Reply A) (a : A)
    → receive r ≡ ok a
    → (n : ℕ) × (r ≡ replied n (some a)) × (is_success n ≡ true)
unfolding receive
receive-ok unreachable a h = ground arith
receive-ok (replied n none) a h = ground arith
receive-ok (replied n (some b)) a h = (n, ground arith, ground arith)

decode_all-ok :
    (shape : Shape) (objs out : List Object) → decode_all shape objs ≡ ok out → objs ≡ out
unfolding decode_all
decode_all-ok shape objs out h = ground arith

-- Inversion of a bind whose first part is a value.
pub then_run-ok :
    {S A B : Type 0} (r : Result A) (f : A → M S B) (s : S) (b : B)
    → (then_run r f s).0 ≡ ok b
    → (a : A) × (r ≡ ok a) × ((f a s).0 ≡ ok b)
then_run-ok (ok a) f s b h = (a, refl, h)
then_run-ok (err e) f s b h = ground arith

then_run-lift_state :
    {S A B : Type 0} (r : Result A) (f : A → Result B) (s : S)
    → (then_run r (λ a. lift (f a)) s).1 ≡ s
then_run-lift_state (ok a) f s = refl
then_run-lift_state (err e) f s = refl

pub return-bind :
    {S A B C : Type 0} (r : Result A) (g : A → B) (f : B → M S C) (s : S)
    → then_run (then_run r (λ a. return (g a)) s).0 f (then_run r (λ a. return (g a)) s).1
      ≡ then_run r (λ a. f (g a)) s
return-bind (ok a) g f s = refl
return-bind (err e) g f s = refl

module _ (d : Device) (law : Lawful d) where
  pub get_list_value :
      (shape : Shape) (p : RestPath) (s : d.State) (objs : List Object)
      → (get_list d shape p s).0 ≡ ok objs
      → objs ≡ law.view s p
  unfolding get_list
  get_list_value shape p s objs h =
      let (out, r, v) =
        then_run-ok (receive (d.get p s).0) (λ o. lift (decode_all shape o)) (d.get p s).1 objs h in
      let (n, reply, fine) = receive-ok (d.get p s).0 out r in
      sym (decode_all-ok shape out objs v) ∙ law.get_reports p s n out reply fine

  pub get_list_state :
      (shape : Shape) (p q : RestPath) (s : d.State)
      → law.view (get_list d shape p s).1 q ≡ law.view s q
  unfolding get_list
  get_list_state shape p q s =
      ap (λ t. law.view t q)
        (then_run-lift_state (receive (d.get p s).0) (decode_all shape) (d.get p s).1)
      ∙ law.get_keeps p q s

-- An object `o` of the path `q` that a computation leaves in place, whatever its result.
module _ (d : Device) (law : Lawful d) (o : Object) (q : RestPath) where
  abbrev pub Keeps : {A : Type 0} → M d.State A → Type 0
  Keeps m = (s : d.State) → In o (law.view s q) → In o (law.view (m s).1 q)

  then_run-Keeps :
      {A B : Type 0} (r : Result A) (f : A → M d.State B) (s : d.State)
      → In o (law.view s q)
      → ((a : A) → r ≡ ok a → In o (law.view (f a s).1 q))
      → In o (law.view (then_run r f s).1 q)
  then_run-Keeps (ok a) f s h k = k a refl
  then_run-Keeps (err e) f s h k = h

  pub bind-Keeps :
      {A B : Type 0} (m : M d.State A) (f : A → M d.State B)
      → Keeps m
      → ((a : A) → Keeps (f a))
      → Keeps (m >>= f)
  bind-Keeps m f hm hf s h =
      then_run-Keeps (m s).0 f (m s).1 (hm s h) (λ a e. hf a (m s).1 (hm s h))

  pub for_each-Keeps :
      {A : Type 0} (f : A → M d.State (Unit {0})) (xs : List A)
      → ((a : A) → In a xs → Keeps (f a))
      → Keeps (for_each f xs)
  unfolding for_each
  for_each-Keeps f [] k s h = h
  for_each-Keeps f (x ∷ xs) k s h =
      bind-Keeps (f x) (λ _. for_each f xs) (k x (inl refl))
        (λ _. for_each-Keeps f xs (λ a i. k a (inr i))) s h

  -- Of the entries of a listing of `p`, only `o` itself has its identity.
  abbrev pub Apart : RestPath → List Object → Type 0
  Apart p objs = p ≡ q → (e : Object) → In e objs → id_of e ≡ id_of o → e ≡ o

  pub get_list-Keeps :
      {A : Type 0} (shape : Shape) (p : RestPath) (f : List Object → M d.State A)
      → ((objs : List Object) → Apart p objs → Keeps (f objs))
      → Keeps (get_list d shape p >>= f)
  get_list-Keeps shape p f k s h =
      let m = get_list d shape p in
      let still : In o (law.view (m s).1 q) = rw (get_list_state d law shape p q s) h in
      then_run-Keeps (m s).0 f (m s).1 still (λ objs e.
        k objs
          (λ same x i ids.
            law.ids_unique q x o s
              (subst (λ z. In x (law.view s z)) same
                (subst (λ z. In x z) (get_list_value d law shape p s objs e) i))
              h ids)
          (m s).1 still)

  -- The same where the listing is filtered first.
  pub listing-Keeps :
      {A B : Type 0} (shape : Shape) (p : RestPath) (g : List Object → A) (f : A → M d.State B)
      → ((objs : List Object) → Apart p objs → Keeps (f (g objs)))
      → Keeps (get_list d shape p >>= (λ objs. return (g objs)) >>= f)
  listing-Keeps shape p g f k s h =
      rw (return-bind (get_list d shape p s).0 g f (get_list d shape p s).1)
        (get_list-Keeps shape p (λ objs. f (g objs)) k s h)

  pub create-Keeps : (p : RestPath) (b : Object) → Keeps (create d p b)
  unfolding create
  create-Keeps p b s h = law.put_keeps p q b o s h

  pub delete-Keeps : (p : RestPath) (i : Text) → (p ≢ q) ⊎ (id_of o ≢ i) → Keeps (delete d p i)
  unfolding delete
  delete-Keeps p i k s h = elim (Bool-cases (is_object_id i)) [
    | inl e ↦ rw e (law.del_keeps p q i o s h k)
    | inr e ↦ rw e h
  ]

  -- Deleting entries of a listing other than `o` keeps `o`.
  pub delete_entry-Keeps :
      (p : RestPath) (objs : List Object) (matches : Object → Bool) (e : Object)
      → Apart p objs
      → In e objs
      → matches e ≡ true
      → matches o ≡ false
      → Keeps (delete d p (id_of e))
  delete_entry-Keeps p objs matches e apart i me mo =
      delete-Keeps p (id_of e) (elim (RestPath-discrete p q) [
        | yes same ↦ inr (λ ids.
            (let x : e ≡ o = apart same e i (sym ids) in
              let y : matches o ≡ true = rw (← x) me in cc))
        | no differ ↦ inl differ
      ])
