-- ===== src/DesktopApi/Tests.antt =====
-- A server that takes one refresh token (apps/snx-edge-client/src/api.rs).
use snx_edge.Common.{ℕ, suc, ◌≡◌, refl, true, [], ◌∷◌, none, some, Text, codes, text_eq}
use snx_edge.DesktopApi.{TokenResponse, Remote, ApiClient, refresh, rotate}
use snx_edge.DesktopApi.Renewal.{renew_all, renew_all-once}

abbrev fresh : TokenResponse
fresh = record { access_token = codes "t2"; refresh_token = some (codes "r2") }

-- The world counts the exchanges.
abbrev server : Remote
server = record {
  World = ℕ;
  Request = Text;
  Response = ℕ;
  status = λ r. r;
  send = λ q token w. (some 200, w);
  is_replayable = λ q. true;
  is_header = λ t. true;
  post_login = λ url user password w. (none, w);
  post_refresh = λ url token w. (some (200, some fresh), suc w);
}

abbrev client : ApiClient server
client = record {
  world = 0;
  base_url = codes "https://edge";
  token = some (codes "t1");
  refresh_token = some (codes "r1");
  hooked = true;
  kept = [];
}

renew_all-once_example : renew_all server 3 (some (codes "t1")) client ≡ (
  some (codes "t2") ∷ some (codes "t2") ∷ some (codes "t2") ∷ [],
  rotate server (some (codes "r2")) (refresh server (codes "r1") client).1,
)
renew_all-once_example =
    renew_all-once server 2 (some (codes "t1")) client (codes "r1") fresh (unfold text_eq in refl)
      refl (unfold refresh in refl) (unfold text_eq in refl)
