-- ===== src/Servers.antt =====
-- The list of servers of the control program (apps/snx-edge-ctl/src/servers.rs). An operation that
-- fails changes nothing; the file that holds the list is left out.
pub mod Selection
mod Tests
use mathlib.Core.List.{reverse}
use snx_edge.Common.{
  ℕ, zero, suc, ◌+◌, ◌-◌, Bool, true, false, ◌||◌, ◌&&◌, List, [], ◌∷◌, ◌++◌, map, Option, none,
  some, Text, codes, text_eq, length, get_elem?, any, find, ltb, leb, ◌==◌, if◌then◌else◌,
}

pub record ServerEntry : Type 0 where
  pub name : Text
  pub url : Text
  pub auto_connect : Bool
  pub last_profile_id : Option Text

pub record ClientSettings : Type 0 where
  pub servers : List ServerEntry
  pub active_server : Option ℕ
  pub icon_theme : Text

-- The settings where there is no file.
unfoldable pub initial : ClientSettings
initial = record { servers = []; active_server = none; icon_theme = [] }

abbrev pub ascii_lower : ℕ → ℕ
ascii_lower c = if leb 65 c && leb c 90 then c + 32 else c

unfoldable pub eq_ignore_ascii_case : Text → Text → Bool
unfolding text_eq
eq_ignore_ascii_case s t = text_eq (map ascii_lower s) (map ascii_lower t)

abbrev pub drop_slashes : Text → Text
drop_slashes [] = []
drop_slashes (c ∷ s) = let rest = drop_slashes s in if c == 47 then rest else c ∷ s

abbrev pub trim_end_slashes : Text → Text
trim_end_slashes url = reverse (drop_slashes (reverse url))

abbrev pub is_named : Text → ServerEntry → Bool
is_named name e = eq_ignore_ascii_case e.name name

abbrev pub shifted : Option ℕ → Option ℕ
shifted none = none
shifted (some i) = some (suc i)

-- `iter().position`
unfoldable pub position : (ServerEntry → Bool) → List ServerEntry → Option ℕ
position p [] = none
position p (e ∷ es) = let rest = position p es in if p e then some 0 else shifted rest

-- `Vec::remove`
unfoldable pub remove_at : ℕ → List ServerEntry → List ServerEntry
remove_at i [] = []
remove_at zero (e ∷ es) = es
remove_at (suc i) (e ∷ es) = e ∷ remove_at i es

abbrev pub selected : Option ℕ → List ServerEntry → Option ServerEntry
selected none es = none
selected (some i) es = get_elem? es i

unfoldable pub active : ClientSettings → Option ServerEntry
active s = selected s.active_server s.servers

unfoldable pub find_by_name_or_url : Text → ClientSettings → Option ℕ
unfolding position
find_by_name_or_url query s = position (λ e. is_named query e || text_eq e.url query) s.servers

abbrev pub is_single : List ServerEntry → Bool
is_single [] = true
is_single (e ∷ es) = false

-- The index of the new server; the first one becomes the default.
unfoldable pub add : Text → Text → ClientSettings → Option (ℕ × ClientSettings)
add name url s =
    if any (is_named name) s.servers
    then none
    else some (
      length s.servers,
      record s {
        servers =
            s.servers
            ++ record {
              name = name;
              url = trim_end_slashes url;
              auto_connect = false;
              last_profile_id = none;
            }
              ∷ [];
        active_server = if is_single s.servers then some 0 else s.active_server;
      },
    )

abbrev pub first_of : List ServerEntry → Option ℕ
first_of [] = none
first_of (e ∷ es) = some 0

abbrev pub adjusted : ℕ → List ServerEntry → Option ℕ → Option ℕ
adjusted idx left none = none
adjusted idx left (some active) =
    if active == idx
    then first_of left
    else if ltb idx active
    then some (active - 1)
    else some active

abbrev pub taken : ClientSettings → ℕ → Option ServerEntry → Option (ServerEntry × ClientSettings)
taken s idx none = none
taken s idx (some e) =
    let left = remove_at idx s.servers in
    some (e, record s { servers = left; active_server = adjusted idx left s.active_server })

abbrev pub removed_at : ClientSettings → Option ℕ → Option (ServerEntry × ClientSettings)
removed_at s none = none
removed_at s (some idx) = taken s idx (get_elem? s.servers idx)

unfoldable pub remove : Text → ClientSettings → Option (ServerEntry × ClientSettings)
unfolding position remove_at
remove name s = removed_at s (position (is_named name) s.servers)

abbrev pub with_default : ClientSettings → Option ℕ → Option ClientSettings
with_default s none = none
with_default s (some idx) = some (record s { active_server = some idx })

unfoldable pub set_default : Text → ClientSettings → Option ClientSettings
unfolding position
set_default name s = with_default s (position (is_named name) s.servers)
