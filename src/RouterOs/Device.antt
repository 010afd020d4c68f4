-- ===== src/RouterOs/Device.antt =====
-- The RouterOS REST service as the server sees it: a parameter of the model. The objects are those
-- of apps/snx-edge-types/src/routing.rs, with their JSON keys.
use snx_edge.Common.{
  ℕ, ◌≡◌, ◌≢◌, ◌⊎◌, Bool, true, ◌&&◌, List, [], ◌∷◌, Option, none, some, Text, In, leb, ltb, ◌==◌,
  if◌then◌else◌,
}

-- The paths of the REST tree that the server reads and writes.
pub data RestPath : Type 0 where
  filter nat mangle route address_list routing_table : RestPath

pub RestPath-discrete : Discrete RestPath
RestPath-discrete = hlevel

-- The keys of the JSON objects. RouterOS answers with texts for all values.
pub data Key : Type 0 where
  id name fib list address comment disabled chain action passthrough protocol gateway distance : Key
  src_address_list dst_address_list connection_state connection_mark new_connection_mark : Key
  new_routing_mark dst_port to_addresses routing_table_key check_gateway route_type : Key
  tcp_flags new_mss dst_address : Key

abbrev key_number : Key → ℕ
key_number id = 0
key_number name = 1
key_number fib = 2
key_number list = 3
key_number address = 4
key_number comment = 5
key_number disabled = 6
key_number chain = 7
key_number action = 8
key_number passthrough = 9
key_number protocol = 10
key_number gateway = 11
key_number distance = 12
key_number src_address_list = 13
key_number dst_address_list = 14
key_number connection_state = 15
key_number connection_mark = 16
key_number new_connection_mark = 17
key_number new_routing_mark = 18
key_number dst_port = 19
key_number to_addresses = 20
key_number routing_table_key = 21
key_number check_gateway = 22
key_number route_type = 23
key_number tcp_flags = 24
key_number new_mss = 25
key_number dst_address = 26

abbrev pub Object : Type 0
Object = List (Key × Text)

-- A field of a decoded object: `None` where the key is missing.
unfoldable pub field : Key → Object → Option Text
field k [] = none
field k ((j, v) ∷ o) = let rest = field k o in if key_number j == key_number k then some v else rest

-- `#[serde(default)] id: String`
unfoldable pub id_of : Object → Text
unfolding field
id_of o = elim (field id o) [ none ↦ [] | some i ↦ i ]

-- The outcome of one HTTP request: no reply, or a status with the body where it is valid JSON of the
-- expected form.
pub data Reply (A : Type 0) : Type 0 where
  unreachable : Reply A
  replied : ℕ → Option A → Reply A

-- `StatusCode::is_success`
unfoldable pub is_success : ℕ → Bool
is_success n = leb 200 n && ltb n 300

pub record Device : Type 1 where
  pub State : Type 0
  pub get : RestPath → State → Reply (List Object) × State
  pub put : RestPath → Object → State → Reply Object × State
  pub del : RestPath → Text → State → Reply (Unit {0}) × State

-- What RouterOS documents of these requests, while no other client writes. A failed PUT or DELETE
-- may have taken effect or not.
pub record Lawful (d : Device) : Type 0 where
  pub view : d.State → RestPath → List Object
  -- A read reports the records of the path and changes none.
  pub get_reports :
      (p : RestPath) (s : d.State) (n : ℕ) (objs : List Object)
      → (d.get p s).0 ≡ replied n (some objs)
      → is_success n ≡ true
      → objs ≡ view s p
  pub get_keeps : (p q : RestPath) (s : d.State) → view (d.get p s).1 q ≡ view s q
  -- A creation removes nothing, and on success the record is there with its comment.
  pub put_keeps :
      (p q : RestPath) (b o : Object) (s : d.State)
      → In o (view s q)
      → In o (view (d.put p b s).1 q)
  -- A deletion takes away no record but the one named, and adds none.
  pub del_keeps :
      (p q : RestPath) (i : Text) (o : Object) (s : d.State)
      → In o (view s q)
      → (p ≢ q) ⊎ (id_of o ≢ i)
      → In o (view (d.del p i s).1 q)
  pub del_adds_none :
      (p q : RestPath) (i : Text) (o : Object) (s : d.State)
      → In o (view (d.del p i s).1 q)
      → In o (view s q)
  pub del_removes :
      (p : RestPath) (i : Text) (o : Object) (s : d.State) (n : ℕ) (b : Option (Unit {0}))
      → (d.del p i s).0 ≡ replied n b
      → is_success n ≡ true
      → In o (view (d.del p i s).1 p)
      → id_of o ≢ i
  -- `.id` is unique in its path.
  pub ids_unique :
      (p : RestPath) (o o' : Object) (s : d.State)
      → In o (view s p)
      → In o' (view s p)
      → id_of o ≡ id_of o'
      → o ≡ o'
