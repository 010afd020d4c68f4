-- ===== src/Json.antt =====
-- JSON values as serde_json holds them, and the calls on objects that the server makes. A number is
-- kept as its text.
pub mod Laws
pub mod TestCodec
use snx_edge.Common.{Bool, true, false, Option, none, some, Text, text_eq, if◌then◌else◌}

mutual
  pub data Json : Type 0 where
    null : Json
    bool : Bool → Json
    number : Text → Json
    string : Text → Json
    array : Items → Json
    object : Fields → Json

  pub data Items : Type 0 where
    nil : Items
    cons : Json → Items → Items

  pub data Fields : Type 0 where
    end : Fields
    field : Text → Json → Fields → Fields

-- `Map::get`, `Map::insert` and `Map::remove`. The order of the keys is of no account.
unfoldable pub get : Text → Fields → Option Json
get k end = none
get k (field j v o) = let rest = get k o in if text_eq j k then some v else rest

unfoldable pub insert : Text → Json → Fields → Fields
insert k v end = field k v end
insert k v (field j w o) =
    let rest = insert k v o in if text_eq j k then field j v o else field j w rest

unfoldable pub remove : Text → Fields → Fields
remove k end = end
remove k (field j v o) = let rest = remove k o in if text_eq j k then rest else field j v rest

abbrev pub as_object : Json → Option Fields
as_object (object o) = some o
as_object null = none
as_object (bool b) = none
as_object (number n) = none
as_object (string s) = none
as_object (array xs) = none

abbrev pub as_str : Json → Option Text
as_str (string s) = some s
as_str (object o) = none
as_str null = none
as_str (bool b) = none
as_str (number n) = none
as_str (array xs) = none

abbrev pub str_of : Option Json → Option Text
str_of none = none
str_of (some v) = as_str v
