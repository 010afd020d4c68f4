-- ===== src/Servers/Tests.antt =====
-- A list of two servers, of which the first is removed (apps/snx-edge-ctl/src/servers.rs).
use snx_edge.Common.{◌≡◌, refl, none, some, [], ◌∷◌, codes, text_eq, false}
use snx_edge.Servers.{
  ServerEntry, ClientSettings, initial, eq_ignore_ascii_case, position, remove_at, add, remove,
  set_default,
}
use snx_edge.Servers.Selection.{IsValid, start, later, adds, removes, defaults, Reach-IsValid}

abbrev office : ServerEntry
office = record {
  name = codes "Office";
  url = codes "https://a";
  auto_connect = false;
  last_profile_id = none;
}

abbrev home : ServerEntry
home = record {
  name = codes "Home";
  url = codes "https://b";
  auto_connect = false;
  last_profile_id = none;
}

abbrev one : ClientSettings
one = record { servers = office ∷ []; active_server = some 0; icon_theme = [] }

abbrev two : ClientSettings
two = record { servers = office ∷ home ∷ []; active_server = some 0; icon_theme = [] }

abbrev home_active : ClientSettings
home_active = record two { active_server = some 1 }

abbrev home_left : ClientSettings
home_left = record { servers = home ∷ []; active_server = some 0; icon_theme = [] }

added : add (codes "Office") (codes "https://a/") initial ≡ some (0, one)
unfolding add initial eq_ignore_ascii_case text_eq
added = refl

added_home : add (codes "Home") (codes "https://b") one ≡ some (1, two)
unfolding add eq_ignore_ascii_case text_eq
added_home = refl

set_home : set_default (codes "HOME") two ≡ some home_active
unfolding set_default position eq_ignore_ascii_case text_eq
set_home = refl

removed_office : remove (codes "office") home_active ≡ some (office, home_left)
unfolding remove position remove_at eq_ignore_ascii_case text_eq
removed_office = refl

Reach-IsValid_example : IsValid home_left
Reach-IsValid_example = Reach-IsValid home_left (
    later
      (later
        (later (later start (adds (codes "Office") (codes "https://a/") 0 added))
          (adds (codes "Home") (codes "https://b") 1 added_home))
        (defaults (codes "HOME") set_home))
      (removes (codes "office") office removed_office))
