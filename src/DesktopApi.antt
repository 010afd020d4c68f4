-- ===== src/DesktopApi.antt =====
-- How the desktop client keeps its access token (apps/snx-edge-client/src/api.rs). The HTTP library with
-- the server behind it is a parameter; an anyhow error is `none`. A renewal holds the lock, so that it is
-- one step.
pub mod Renewal
mod Tests
use snx_edge.Common.{
  ℕ, zero, suc, Bool, true, false, ◌&&◌, List, [], ◌∷◌, ◌++◌, Option, none, some, Text, codes,
  text_eq, leb, ◌==◌, if◌then◌else◌,
}
use snx_edge.Servers.{trim_end_slashes}

pub record TokenResponse : Type 0 where
  pub access_token : Text
  pub refresh_token : Option Text

-- The requests: `none` where no answer comes. The answers to the two that bring tokens are a status and the
-- body, where it reads as tokens.
pub record Remote : Type 1 where
  pub World : Type 0
  pub Request : Type 0
  pub Response : Type 0
  pub status : Response → ℕ
  -- A request with its bearer token.
  pub send : Request → Option Text → World → Option Response × World
  -- `RequestBuilder::try_clone` with `build`, and `HeaderValue::from_str`.
  pub is_replayable : Request → Bool
  pub is_header : Text → Bool
  pub post_login : Text → Text → Text → World → Option (ℕ × Option TokenResponse) × World
  pub post_refresh : Text → Text → World → Option (ℕ × Option TokenResponse) × World

abbrev pub unauthorized_status : ℕ
unauthorized_status = 401

-- `StatusCode::is_success`
abbrev pub is_success : ℕ → Bool
is_success status = leb 200 status && leb status 299

abbrev pub tokens_of : Option (ℕ × Option TokenResponse) → Option TokenResponse
tokens_of none = none
tokens_of (some (status, body)) = if is_success status then body else none

abbrev pub token_eq : Option Text → Option Text → Bool
token_eq none none = true
token_eq (some s) (some t) = text_eq s t
token_eq none (some t) = false
token_eq (some s) none = false

module _ (y : Remote) where
  -- `kept` are the tokens that the hook has been called with, the last one first.
  pub record ApiClient : Type 0 where
    pub world : y.World
    pub base_url : Text
    pub token : Option Text
    pub refresh_token : Option Text
    pub hooked : Bool
    pub kept : List Text

  unfoldable pub new : Text → y.World → ApiClient
  new base_url w = record {
    world = w;
    base_url = trim_end_slashes base_url;
    token = none;
    refresh_token = none;
    hooked = false;
    kept = [];
  }

  unfoldable pub set_base_url : Text → ApiClient → ApiClient
  set_base_url url s = record s { base_url = trim_end_slashes url }

  unfoldable pub set_token : Option Text → ApiClient → ApiClient
  set_token token s = record s { token = token }

  unfoldable pub set_refresh_token : Option Text → ApiClient → ApiClient
  set_refresh_token token s = record s { refresh_token = token }

  unfoldable pub set_refresh_hook : ApiClient → ApiClient
  set_refresh_hook s = record s { hooked = true }

  abbrev pub with_token : Option TokenResponse → Option Text → Option Text
  with_token none token = token
  with_token (some resp) token = some resp.access_token

  abbrev pub received :
      Option (ℕ × Option TokenResponse) × y.World → ApiClient → Option TokenResponse × ApiClient
  received (answer, w) s =
      (tokens_of answer, record s { world = w; token = with_token (tokens_of answer) s.token })

  unfoldable pub login : Text → Text → ApiClient → Option TokenResponse × ApiClient
  login username password s =
      received (y.post_login (s.base_url ++ codes "/api/v1/auth/login") username password s.world) s

  unfoldable pub refresh : Text → ApiClient → Option TokenResponse × ApiClient
  refresh refresh_token s =
      received (y.post_refresh (s.base_url ++ codes "/api/v1/auth/refresh") refresh_token s.world) s

  abbrev pub rotate : Option Text → ApiClient → ApiClient
  rotate none s = s
  rotate (some rotated) s = record s {
    refresh_token = some rotated;
    kept = if s.hooked then rotated ∷ s.kept else s.kept;
  }

  abbrev pub renewed : Option TokenResponse × ApiClient → Option Text × ApiClient
  renewed (none, s) = (none, s)
  renewed (some resp, s) = (some resp.access_token, rotate resp.refresh_token s)

  abbrev pub exchange : Option Text → ApiClient → Option Text × ApiClient
  exchange none s = (none, s)
  exchange (some refresh_token) s = renewed (refresh refresh_token s)

  -- `stale` is the token that was refused.
  unfoldable pub renew_access_token : Option Text → ApiClient → Option Text × ApiClient
  renew_access_token stale s =
      let exchanged = exchange s.refresh_token s in
      if token_eq s.token stale then exchanged else (s.token, s)

  abbrev pub on_wire : Option y.Response × y.World → ApiClient → Option y.Response × ApiClient
  on_wire (answer, w) s = (answer, record s { world = w })

  abbrev pub replayed :
      y.Request → y.Response → Option Text × ApiClient → Option y.Response × ApiClient
  replayed req resp (none, s) = (some resp, s)
  replayed req resp (some token, s) =
      if y.is_header token then on_wire (y.send req (some token) s.world) s else (some resp, s)

  abbrev pub refused :
      y.Request → Option Text → y.Response → ApiClient → Option y.Response × ApiClient
  refused req stale resp s =
      if y.is_replayable req
      then replayed req resp (renew_access_token stale s)
      else (some resp, (renew_access_token stale s).1)

  abbrev pub answered :
      y.Request
      → Option Text
      → (ApiClient → ApiClient)
      → Option y.Response × ApiClient
      → Option y.Response × ApiClient
  answered req stale meanwhile (none, s) = (none, meanwhile s)
  answered req stale meanwhile (some resp, s) =
      if y.status resp == unauthorized_status
      then refused req stale resp (meanwhile s)
      else (some resp, meanwhile s)

  -- `bearer` is the token that the request was built with; `meanwhile` is what other requests do until the
  -- answer comes.
  unfoldable pub send_refreshing :
      y.Request → Option Text → (ApiClient → ApiClient) → ApiClient → Option y.Response × ApiClient
  send_refreshing req bearer meanwhile s =
      answered req s.token meanwhile (on_wire (y.send req bearer s.world) s)
