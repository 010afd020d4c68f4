-- ===== src/RouterOs/TestRouter.antt =====
-- A small router that keeps the laws which the server relies on.
use snx_edge.Common.{
  arith, ℕ, ◌≡◌, ◌≢◌, refl, sym, ◌∙◌, ap, ◌⊎◌, inl, inr, Bool, true, false, List, [], ◌∷◌, Option,
  none, some, Text, codes, text_eq, text_eq→≡, In, Bool-cases, if◌then◌else◌,
}
use snx_edge.RouterOs.Device.{
  RestPath, filter, nat, mangle, route, address_list, routing_table, id, address, list, comment,
  gateway, distance, Object, field, id_of, Reply, replied, Device, Lawful, is_success,
}
use snx_edge.RouterOs.Provisioner.{RouterOsConfig}

abbrev pub tag : Text
tag = codes "managed-by=snx-edge"

abbrev pub router_config : RouterOsConfig
router_config = record {
  comment_tag = tag;
  address_list_vpn = codes "vpn-clients";
  address_list_bypass = codes "vpn-bypass";
  address_list_corp = codes "vpn-corp";
  routing_table_name = codes "vpn";
  connection_mark_name = codes "vpn-conn";
  routing_mark = codes "vpn";
}

abbrev pub client_entry : Object
client_entry =
    (id, codes "*1")
    ∷ (list, codes "vpn-clients")
    ∷ (address, codes "10.0.0.7")
    ∷ (comment, codes "managed-by=snx-edge;kind=client;note=printer")
    ∷ []

abbrev pub vpn_route : Object
vpn_route =
    (id, codes "*2")
    ∷ (gateway, codes "172.18.0.2")
    ∷ (distance, codes "1")
    ∷ (comment, codes "managed-by=snx-edge;kind=default-route")
    ∷ []

abbrev pub foreign_route : Object
foreign_route = (id, codes "*3") ∷ (gateway, codes "192.168.88.1") ∷ []

-- Whether the entry is there, and whether the route is; the foreign route always is.
abbrev pub shown : Bool × Bool → RestPath → List Object
shown (e, r) address_list = if e then client_entry ∷ [] else []
shown (e, r) route = if r then foreign_route ∷ vpn_route ∷ [] else foreign_route ∷ []
shown (e, r) filter = []
shown (e, r) nat = []
shown (e, r) mangle = []
shown (e, r) routing_table = []

abbrev pub unknown : Bool × Bool → Reply (Unit {0}) × (Bool × Bool)
unknown s = (replied 404 none, s)

abbrev pub deleted : RestPath → Text → Bool × Bool → Reply (Unit {0}) × (Bool × Bool)
deleted address_list i (e, r) =
    if text_eq i (codes "*1") then (replied 204 none, (false, r)) else unknown (e, r)
deleted route i (e, r) =
    if text_eq i (codes "*2") then (replied 204 none, (e, false)) else unknown (e, r)
deleted filter i s = unknown s
deleted nat i s = unknown s
deleted mangle i s = unknown s
deleted routing_table i s = unknown s

-- It has no room for mangle rules, and stores no new object.
abbrev pub added : RestPath → Bool × Bool → Reply Object × (Bool × Bool)
added mangle s = (replied 500 none, s)
added _ s = (replied 201 (some []), s)

abbrev pub router : Device
router = record {
  State = Bool × Bool;
  get = λ p s. (replied 200 (some (shown s p)), s);
  put = λ p b s. added p s;
  del = deleted;
}

pub reports :
    (xs objs : List Object) (n : ℕ) → replied 200 (some xs) ≡ replied n (some objs) → objs ≡ xs
reports xs objs n h = cc

pub added-state : (p : RestPath) (s : Bool × Bool) → (added p s).1 ≡ s
added-state mangle s = refl
added-state filter s = refl
added-state nat s = refl
added-state route s = refl
added-state address_list s = refl
added-state routing_table s = refl

apart : codes "*3" ≡ codes "*2" → ⊥
unfolding text_eq
apart e = let no : true ≡ false = ap (text_eq (codes "*3")) e in cc

kept_entry :
    (i : Text) (o : Object) (e r : Bool)
    → In o (shown (e, r) address_list)
    → id_of o ≢ i
    → In o (shown (deleted address_list i (e, r)).1 address_list)
unfolding id_of field
kept_entry i o false r h other = absurd h
kept_entry i o true r (inr none_left) other = absurd none_left
kept_entry i o true r (inl q) other = elim (Bool-cases (text_eq i (codes "*1"))) [
  | inl k ↦ absurd (other (ap id_of q ∙ sym (text_eq→≡ i (codes "*1") k)))
  | inr k ↦ rw k (inl q)
]

kept_route :
    (i : Text) (o : Object) (e r : Bool)
    → In o (shown (e, r) route)
    → id_of o ≢ i
    → In o (shown (deleted route i (e, r)).1 route)
unfolding id_of field
kept_route i o e r h other = elim (Bool-cases (text_eq i (codes "*2"))) [
  | inl k ↦ rw k (go k r h)
  | inr k ↦ rw k h
]
  where
    go :
        text_eq i (codes "*2") ≡ true
        → (r : Bool) → In o (shown (e, r) route)
        → In o (shown (e, false) route)
    go k false h = h
    go k true (inl q) = inl q
    go k true (inr (inl q)) = absurd (other (ap id_of q ∙ sym (text_eq→≡ i (codes "*2") k)))
    go k true (inr (inr none_left)) = absurd none_left

entry_only :
    (i : Text) (q : RestPath) (e r : Bool)
    → address_list ≢ q
    → shown (deleted address_list i (e, r)).1 q ≡ shown (e, r) q
entry_only i q e r other = elim (Bool-cases (text_eq i (codes "*1"))) [
  | inl k ↦ rw k (go q other)
  | inr k ↦ rw k refl
]
  where
    go : (q : RestPath) → address_list ≢ q → shown (false, r) q ≡ shown (e, r) q
    go address_list other = absurd (other refl)
    go filter other = refl
    go nat other = refl
    go mangle other = refl
    go route other = refl
    go routing_table other = refl

route_only :
    (i : Text) (q : RestPath) (e r : Bool)
    → route ≢ q
    → shown (deleted route i (e, r)).1 q ≡ shown (e, r) q
route_only i q e r other = elim (Bool-cases (text_eq i (codes "*2"))) [
  | inl k ↦ rw k (go q other)
  | inr k ↦ rw k refl
]
  where
    go : (q : RestPath) → route ≢ q → shown (e, false) q ≡ shown (e, r) q
    go route other = absurd (other refl)
    go filter other = refl
    go nat other = refl
    go mangle other = refl
    go address_list other = refl
    go routing_table other = refl

pub kept :
    (p q : RestPath) (i : Text) (o : Object) (s : Bool × Bool)
    → In o (shown s q)
    → (p ≢ q) ⊎ (id_of o ≢ i)
    → In o (shown (deleted p i s).1 q)
kept filter q i o s h apart = h
kept nat q i o s h apart = h
kept mangle q i o s h apart = h
kept routing_table q i o s h apart = h
kept address_list q i o (e, r) h (inl other) = rw (entry_only i q e r other) h
kept route q i o (e, r) h (inl other) = rw (route_only i q e r other) h
kept address_list address_list i o (e, r) h (inr other) = kept_entry i o e r h other
kept address_list filter i o (e, r) h (inr other) = absurd h
kept address_list nat i o (e, r) h (inr other) = absurd h
kept address_list mangle i o (e, r) h (inr other) = absurd h
kept address_list routing_table i o (e, r) h (inr other) = absurd h
kept address_list route i o (e, r) h (inr other) = rw (entry_only i route e r (λ same. cc)) h
kept route route i o (e, r) h (inr other) = kept_route i o e r h other
kept route filter i o (e, r) h (inr other) = absurd h
kept route nat i o (e, r) h (inr other) = absurd h
kept route mangle i o (e, r) h (inr other) = absurd h
kept route routing_table i o (e, r) h (inr other) = absurd h
kept route address_list i o (e, r) h (inr other) = rw (route_only i address_list e r (λ same. cc)) h

pub adds_none :
    (p q : RestPath) (i : Text) (o : Object) (s : Bool × Bool)
    → In o (shown (deleted p i s).1 q)
    → In o (shown s q)
adds_none filter q i o s h = h
adds_none nat q i o s h = h
adds_none mangle q i o s h = h
adds_none routing_table q i o s h = h
adds_none address_list q i o (e, r) h = elim (Bool-cases (text_eq i (codes "*1"))) [
  | inl k ↦ go q (rw k at h)
  | inr k ↦ rw k at h
]
  where
    go : (q : RestPath) → In o (shown (false, r) q) → In o (shown (e, r) q)
    go address_list h = absurd h
    go filter h = h
    go nat h = h
    go mangle h = h
    go route h = h
    go routing_table h = h
adds_none route q i o (e, r) h = elim (Bool-cases (text_eq i (codes "*2"))) [
  | inl k ↦ go q r (rw k at h)
  | inr k ↦ rw k at h
]
  where
    go : (q : RestPath) (r : Bool) → In o (shown (e, false) q) → In o (shown (e, r) q)
    go route true (inl same) = inl same
    go route true (inr none_left) = absurd none_left
    go route false h = h
    go address_list r h = h
    go filter r h = h
    go nat r h = h
    go mangle r h = h
    go routing_table r h = h

unknown_refused :
    (n : ℕ) (b : Option (Unit {0})) → replied 404 none ≡ replied n b → is_success n ≡ true → ⊥
unfolding is_success
unknown_refused n b h fine = let e : 404 ≡ n = cc in absurd (ground arith)

pub removes :
    (p : RestPath) (i : Text) (o : Object) (s : Bool × Bool) (n : ℕ) (b : Option (Unit {0}))
    → (deleted p i s).0 ≡ replied n b
    → is_success n ≡ true
    → In o (shown (deleted p i s).1 p)
    → id_of o ≢ i
unfolding is_success id_of field
removes filter i o s n b a fine h same = h
removes nat i o s n b a fine h same = h
removes mangle i o s n b a fine h same = h
removes routing_table i o s n b a fine h same = h
removes address_list i o (e, r) n b a fine h same = elim (Bool-cases (text_eq i (codes "*1"))) [
  | inl k ↦ absurd (rw k at h)
  | inr k ↦ unknown_refused n b (rw k at a) fine
]
removes route i o (e, r) n b a fine h same = elim (Bool-cases (text_eq i (codes "*2"))) [
  | inl k ↦ go (rw k at h) (text_eq→≡ i (codes "*2") k)
  | inr k ↦ unknown_refused n b (rw k at a) fine
]
  where
    go : In o (shown (e, false) route) → i ≡ codes "*2" → ⊥
    go (inl q) k = apart (sym (ap id_of q) ∙ same ∙ k)
    go (inr none_left) k = none_left

pub unique :
    (p : RestPath) (o o' : Object) (s : Bool × Bool)
    → In o (shown s p)
    → In o' (shown s p)
    → id_of o ≡ id_of o'
    → o ≡ o'
unfolding id_of field
unique filter o o' s h k same = absurd h
unique nat o o' s h k same = absurd h
unique mangle o o' s h k same = absurd h
unique routing_table o o' s h k same = absurd h
unique address_list o o' (true, r) (inl a) (inl b) same = a ∙ sym b
unique address_list o o' (true, r) (inl a) (inr b) same = absurd b
unique address_list o o' (true, r) (inr a) k same = absurd a
unique address_list o o' (false, r) h k same = absurd h
unique route o o' (e, false) (inl a) (inl b) same = a ∙ sym b
unique route o o' (e, false) (inl a) (inr b) same = absurd b
unique route o o' (e, false) (inr a) k same = absurd a
unique route o o' (e, true) (inl a) (inl b) same = a ∙ sym b
unique route o o' (e, true) (inl a) (inr (inl b)) same =
    absurd (apart (sym (ap id_of a) ∙ same ∙ ap id_of b))
unique route o o' (e, true) (inl a) (inr (inr b)) same = absurd b
unique route o o' (e, true) (inr (inl a)) (inl b) same =
    absurd (apart (sym (sym (ap id_of a) ∙ same ∙ ap id_of b)))
unique route o o' (e, true) (inr (inl a)) (inr (inl b)) same = a ∙ sym b
unique route o o' (e, true) (inr (inl a)) (inr (inr b)) same = absurd b
unique route o o' (e, true) (inr (inr a)) k same = absurd a

abbrev pub router-Lawful : Lawful router
router-Lawful = record {
  view = shown;
  get_reports = λ p s n objs h fine. reports (shown s p) objs n h;
  get_keeps = λ p q s. refl;
  put_keeps = λ p q b o s h. rw (added-state p s) h;
  del_keeps = kept;
  del_adds_none = adds_none;
  del_removes = removes;
  ids_unique = unique;
}
