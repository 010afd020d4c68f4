-- ===== src/RouterOs/Client.antt =====
-- The HTTP client of the RouterOS REST API (routeros/client.rs), over any device.
use snx_edge.Common.{
  ℕ, Bool, true, false, ◌&&◌, ◌||◌, List, [], ◌∷◌, map, Option, none, some, Text, codes, text_eq,
  length, any, all, keep, leb, ◌==◌, if◌then◌else◌,
}
use snx_edge.Errors.{
  bad_request, conflict, bad_gateway, internal, Result, ok, err, M, ◌>>=◌, ◌>>◌, return, fail, lift,
  for_each,
}
use snx_edge.RouterOs.Comment.{comment_matches_tag, comment_is_legacy, entry_comment}
use snx_edge.RouterOs.Device.{
  RestPath, address_list, Key, id, name, list, address, comment, disabled, Object, field, id_of,
  Reply, unreachable, replied, is_success, Device,
}

-- Status check and decoding of `list` and `create`.
unfoldable pub receive : {A : Type 0} → Reply A → Result A
unfolding is_success
receive unreachable = err bad_gateway
receive (replied n body) =
    if is_success n then elim body [ none ↦ err internal | some a ↦ ok a ] else err bad_gateway

-- `delete` does not read the body.
unfoldable pub receive_status : {A : Type 0} → Reply A → Result (Unit {0})
unfolding is_success
receive_status unreachable = err bad_gateway
receive_status (replied n body) = if is_success n then ok tt else err bad_gateway

-- The structs that the responses are decoded into, by the fields that have no default.
pub data Shape : Type 0 where
  id_entry table_entry address_entry rule_entry : Shape

unfoldable pub decodes : Shape → Object → Bool
decodes id_entry o = elim (field id o) [ none ↦ false | some v ↦ true ]
decodes table_entry o = elim (field name o) [ none ↦ false | some v ↦ true ]
decodes address_entry o = elim (field address o) [ none ↦ false | some v ↦ true ]
decodes rule_entry o = true

unfoldable pub decode_all : Shape → List Object → Result (List Object)
unfolding decodes
decode_all shape objs = if all (decodes shape) objs then ok objs else err internal

-- A test on the comment of an object, false where it has none.
abbrev pub such : (Text → Bool) → Option Text → Bool
such p none = false
such p (some c) = p c

abbrev pub comment_such : (Text → Bool) → Object → Bool
comment_such p o = such p (field comment o)

abbrev pub field_is : Key → Text → Object → Bool
field_is k v o = such (λ w. text_eq w v) (field k o)

-- `!id.starts_with('*') || id.len() < 2 || !id[1..].chars().all(is_ascii_hexdigit)`, negated.
is_hexdigit : ℕ → Bool
is_hexdigit c =
    (leb b'0' c && leb c b'9') || (leb b'a' c && leb c b'f') || (leb b'A' c && leb c b'F')

unfoldable pub is_object_id : Text → Bool
unfolding is_hexdigit
is_object_id [] = false
is_object_id (c ∷ []) = false
is_object_id (c ∷ d ∷ rest) = c == b'*' && all is_hexdigit (d ∷ rest)

-- RouterOS expects a text.
abbrev disabled_field : Option Bool → Object
disabled_field none = []
disabled_field (some true) = (disabled, codes "true") ∷ []
disabled_field (some false) = (disabled, codes "false") ∷ []

-- The created object is decoded as an `AddressListEntry`.
abbrev decode_entry : {S : Type 0} → Object → M S Object
decode_entry o = lift (unfold decodes in (if decodes address_entry o then ok o else err internal))

module _ (d : Device) where
  unfoldable pub get_list : Shape → RestPath → M d.State (List Object)
  unfolding receive decode_all
  get_list shape path =
      (λ s. (receive (d.get path s).0, (d.get path s).1)) >>= λ objs. lift (decode_all shape objs)

  unfoldable pub create : RestPath → Object → M d.State Object
  unfolding receive
  create path body s = (receive (d.put path body s).0, (d.put path body s).1)

  unfoldable pub delete : RestPath → Text → M d.State (Unit {0})
  unfolding is_object_id receive_status
  delete path i s =
      if is_object_id i
      then (receive_status (d.del path i s).0, (d.del path i s).1)
      else (err bad_request, s)

  unfoldable pub list_address_list : Text → M d.State (List Object)
  unfolding get_list
  list_address_list list_name = do
    entries ← get_list address_entry address_list
    return (keep (field_is list list_name) entries)

  -- The client's `comment_tag` is a copy of the configured tag.
  module _ (comment_tag : Text) where
    unfoldable pub add_address : Text → Text → Text → Option Text → Option Bool → M d.State Object
    unfolding list_address_list create
    add_address list_name addr kind note dis = do
      existing ← list_address_list list_name
      if any (field_is address addr) existing
          then fail conflict
          else (create address_list (
                (list, list_name)
                ∷ (address, addr)
                ∷ (comment, entry_comment comment_tag kind note)
                ∷ disabled_field dis)
              >>= decode_entry)

    unfoldable pub list_managed : Shape → RestPath → M d.State (List Object)
    unfolding get_list
    list_managed shape path = do
      entries ← get_list shape path
      return (keep (comment_such (λ c. comment_matches_tag c comment_tag)) entries)

    unfoldable pub delete_managed : RestPath → M d.State ℕ
    unfolding get_list delete
    delete_managed path = do
      entries ← get_list id_entry path
      let managed = keep (comment_such (λ c. comment_matches_tag c comment_tag)) entries
      for_each (λ e. delete path (id_of e)) managed
      return (length managed)

    unfoldable pub list_legacy_managed : RestPath → M d.State (List Text)
    unfolding get_list
    list_legacy_managed path = do
      entries ← get_list id_entry path
      return (map id_of (keep (comment_such (λ c. comment_is_legacy c comment_tag)) entries))

  unfoldable pub remove_address : Text → M d.State (Unit {0})
  unfolding delete
  remove_address i = delete address_list i
