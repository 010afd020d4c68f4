-- ===== src/RouterOs/Removal.antt =====
-- What the deleting methods take off the router when they succeed.
use mathlib.Core.Path.{subst}
use snx_edge.Common.{
  ℕ, ◌+◌, ◌≡◌, refl, ◌≢◌, inl, inr, Bool, true, false, List, [], ◌∷◌, Option, Text, In, keep-In,
  keep, length, arith, Bool-cases,
}
use snx_edge.Errors.{Result, ok, err, M, ◌>>=◌, return, for_each, then_run}
use snx_edge.RouterOs.Comment.{comment_matches_tag}
use snx_edge.RouterOs.Device.{
  RestPath, filter, nat, mangle, route, address_list, routing_table, Object, id_of, Reply,
  unreachable, replied, is_success, Device, Lawful,
}
use snx_edge.RouterOs.Client.{
  Shape, id_entry, comment_such, get_list, delete, delete_managed, is_object_id, receive_status,
}
use snx_edge.RouterOs.Provisioner.{legacy_paths}
use snx_edge.RouterOs.Setup.{add_up, teardown}
use snx_edge.RouterOs.Keeps.{then_run-ok, get_list_value, get_list_state}

receive_status-ok :
    {A : Type 0} (r : Reply A)
    → receive_status r ≡ ok tt
    → (n : ℕ) × (b : Option A) × (r ≡ replied n b) × (is_success n ≡ true)
unfolding receive_status
receive_status-ok unreachable h = ground arith
receive_status-ok (replied n b) h = (n, b, refl, ground arith)

module _ (d : Device) (law : Lawful d) where
  delete-adds_none :
      (p q : RestPath) (i : Text) (o : Object) (s : d.State)
      → In o (law.view (delete d p i s).1 q)
      → In o (law.view s q)
  unfolding delete
  delete-adds_none p q i o s h = elim (Bool-cases (is_object_id i)) [
    | inl e ↦ law.del_adds_none p q i o s (rw e at h)
    | inr e ↦ rw e at h
  ]

  delete-removes :
      (p : RestPath) (i : Text) (o : Object) (s : d.State)
      → (delete d p i s).0 ≡ ok tt
      → In o (law.view (delete d p i s).1 p)
      → id_of o ≢ i
  unfolding delete
  delete-removes p i o s done h = elim (Bool-cases (is_object_id i)) [
    | inl e ↦
        (let (n, b, reply, fine) = receive_status-ok (d.del p i s).0 (rw e at done) in
          law.del_removes p i o s n b reply fine (rw e at h))
    | inr e ↦ (let never : err _ ≡ ok tt = rw e at done in cc)
  ]

  -- A computation that adds nothing to the path `q`.
  abbrev AddsNone : {A : Type 0} → RestPath → Object → M d.State A → Type 0
  AddsNone q o m = (s : d.State) → In o (law.view (m s).1 q) → In o (law.view s q)

  then_run-AddsNone :
      {A B : Type 0} (q : RestPath) (o : Object) (r : Result A) (f : A → M d.State B) (s : d.State)
      → ((a : A) → AddsNone q o (f a))
      → In o (law.view (then_run r f s).1 q)
      → In o (law.view s q)
  then_run-AddsNone q o (ok a) f s k h = k a s h
  then_run-AddsNone q o (err e) f s k h = h

  bind-AddsNone :
      {A B : Type 0} (q : RestPath) (o : Object) (m : M d.State A) (f : A → M d.State B)
      → AddsNone q o m
      → ((a : A) → AddsNone q o (f a))
      → AddsNone q o (m >>= f)
  bind-AddsNone q o m f hm hf s h = hm s (then_run-AddsNone q o (m s).0 f (m s).1 hf h)

  get_list-AddsNone :
      (shape : Shape) (p q : RestPath) (o : Object) → AddsNone q o (get_list d shape p)
  get_list-AddsNone shape p q o s h = rw (get_list_state d law shape p q s) at h

  -- Deleting one entry after another.
  abbrev pub delete_all : RestPath → List Object → M d.State (Unit {0})
  delete_all p xs = for_each (λ e. delete d p (id_of e)) xs

  delete_all-AddsNone :
      (p q : RestPath) (xs : List Object) (o : Object) → AddsNone q o (delete_all p xs)
  unfolding for_each
  delete_all-AddsNone p q [] o s h = h
  delete_all-AddsNone p q (x ∷ xs) o s h =
      bind-AddsNone q o (delete d p (id_of x)) (λ _. delete_all p xs)
        (λ t k. delete-adds_none p q (id_of x) o t k) (λ _. delete_all-AddsNone p q xs o) s h

  delete_all-removes :
      (p : RestPath) (xs : List Object) (o : Object) (s : d.State)
      → (delete_all p xs s).0 ≡ ok tt
      → In o (law.view (delete_all p xs s).1 p)
      → (e : Object) → In e xs
      → id_of o ≢ id_of e
  unfolding for_each
  delete_all-removes p [] o s done h e i = absurd i
  delete_all-removes p (x ∷ xs) o s done h e i =
      let first = delete d p (id_of x) in
      let s1 = (first s).1 in
      let (u, went, later) = then_run-ok (first s).0 (λ _. delete_all p xs) s1 tt done in
      let left : In o (law.view (delete_all p xs s1).1 p) =
        subst (λ r. In o (law.view (then_run r (λ _. delete_all p xs) s1).1 p)) went h in
      elim i [
        | inl same ↦
            rw same (delete-removes p (id_of x) o s went (delete_all-AddsNone p p xs o s1 left))
        | inr there ↦ delete_all-removes p xs o s1 later left e there
      ]

  -- Where the entries deleted cover those that pass a test, what is left fails it.
  pub delete_all-clears :
      (p : RestPath) (test : Object → Bool) (xs : List Object) (o : Object) (s : d.State)
      → (In o (law.view s p) → test o ≡ true → In o xs)
      → (delete_all p xs s).0 ≡ ok tt
      → In o (law.view (delete_all p xs s).1 p)
      → test o ≡ false
  delete_all-clears p test xs o s cover done h = elim (Bool-cases (test o)) [
    | inl t ↦
        absurd
          (delete_all-removes p xs o s done h o (cover (delete_all-AddsNone p p xs o s h) t) refl)
    | inr f ↦ f
  ]

  abbrev is_managed : Text → Object → Bool
  is_managed tag = comment_such (λ c. comment_matches_tag c tag)

  delete_managed-AddsNone :
      (tag : Text) (p q : RestPath) (o : Object) → AddsNone q o (delete_managed d tag p)
  unfolding delete_managed
  delete_managed-AddsNone tag p q o =
      bind-AddsNone q o (get_list d id_entry p) _ (get_list-AddsNone id_entry p q o) (λ entries.
        bind-AddsNone q o (delete_all p (keep (is_managed tag) entries)) _
          (delete_all-AddsNone p q (keep (is_managed tag) entries) o) (λ u s h. h))

  delete_managed-clears :
      (tag : Text) (p : RestPath) (o : Object) (s : d.State) (n : ℕ)
      → (delete_managed d tag p s).0 ≡ ok n
      → In o (law.view (delete_managed d tag p s).1 p)
      → is_managed tag o ≡ false
  unfolding delete_managed
  delete_managed-clears tag p o s n done h =
      let m = get_list d id_entry p in
      let s1 = (m s).1 in
      let count = λ (entries : List Object). delete_all p (keep (is_managed tag) entries) >>= λ _.
      return (length (keep (is_managed tag) entries)) in
      let (entries, listed, rest) = then_run-ok (m s).0 count s1 n done in
      let (u, deleted, _) =
        then_run-ok (delete_all p (keep (is_managed tag) entries) s1).0
          (λ _. return (length (keep (is_managed tag) entries)))
          (delete_all p (keep (is_managed tag) entries) s1).1 n rest in
      let left : In o (law.view (count entries s1).1 p) =
        subst (λ r. In o (law.view (then_run r count s1).1 p)) listed h in
      let gone : In o (law.view (delete_all p (keep (is_managed tag) entries) s1).1 p) =
        subst
          (λ r. In o (
            law.view
              (then_run r (λ (x : Unit {0}). return (length (keep (is_managed tag) entries)))
                (delete_all p (keep (is_managed tag) entries) s1).1).1
              p))
          deleted left in
      delete_all-clears p (is_managed tag) (keep (is_managed tag) entries) o s1
        (λ here t.
          keep-In (is_managed tag) o entries
            (rw (get_list_value d law id_entry p s entries listed)
              (rw (get_list_state d law id_entry p p s) at here))
            t)
        deleted gone

  add_up-AddsNone :
      (tag : Text) (ps : List RestPath) (q : RestPath) (o : Object)
      → AddsNone q o (add_up (delete_managed d tag) ps)
  unfolding add_up
  add_up-AddsNone tag [] q o s h = h
  add_up-AddsNone tag (p ∷ ps) q o s h =
      bind-AddsNone q o (delete_managed d tag p) _ (delete_managed-AddsNone tag p q o)
        (λ n.
          bind-AddsNone q o (add_up (delete_managed d tag) ps) _ (add_up-AddsNone tag ps q o)
            (λ total t k. k))
        s h

  add_up-clears :
      (tag : Text) (ps : List RestPath) (p : RestPath) (o : Object) (s : d.State) (n : ℕ)
      → (add_up (delete_managed d tag) ps s).0 ≡ ok n
      → In p ps
      → In o (law.view (add_up (delete_managed d tag) ps s).1 p)
      → is_managed tag o ≡ false
  unfolding add_up
  add_up-clears tag [] p o s n done i h = absurd i
  add_up-clears tag (x ∷ ps) p o s n done i h =
      let first = delete_managed d tag x in
      let later = add_up (delete_managed d tag) ps in
      let rest = λ (k : ℕ). later >>= λ total. return (k + total) in
      let s1 = (first s).1 in
      let (k, went, more) = then_run-ok (first s).0 rest s1 n done in
      let (total, all_went, _) =
        then_run-ok (later s1).0 (λ t. return (k + t)) (later s1).1 n more in
      let left : In o (law.view (rest k s1).1 p) =
        subst (λ r. In o (law.view (then_run r rest s1).1 p)) went h in
      let there : In o (law.view (later s1).1 p) =
        subst (λ r. In o (law.view (then_run r (λ (t : ℕ). return (k + t)) (later s1).1).1 p))
          all_went left in
      elim i [
        | inl same ↦
            delete_managed-clears tag x o s k went
              (subst (λ z. In o (law.view s1 z)) same (add_up-AddsNone tag ps p o s1 there))
        | inr in_rest ↦ add_up-clears tag ps p o s1 total all_went in_rest there
      ]

  -- Every path of the REST tree is torn down.
  all_paths : (p : RestPath) → In p legacy_paths
  all_paths filter = inl refl
  all_paths nat = inr (inl refl)
  all_paths mangle = inr (inr (inl refl))
  all_paths route = inr (inr (inr (inl refl)))
  all_paths address_list = inr (inr (inr (inr (inl refl))))
  all_paths routing_table = inr (inr (inr (inr (inr (inl refl)))))

  -- After a `teardown` that returns a count, no path of a lawful router holds an object whose
  -- comment matches the server's tag.
  pub teardown-clears :
      (tag : Text) (p : RestPath) (o : Object) (s : d.State) (n : ℕ)
      → (teardown d tag s).0 ≡ ok n
      → In o (law.view (teardown d tag s).1 p)
      → comment_such (λ c. comment_matches_tag c tag) o ≡ false
  unfolding teardown
  teardown-clears tag p o s n done h = add_up-clears tag legacy_paths p o s n done (all_paths p) h
