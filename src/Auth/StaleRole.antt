-- ===== src/Auth/StaleRole.antt =====
-- The role of the tokens that login and refresh give out (`issue_tokens` of api/auth.rs), when the
-- user's row has changed since it was read.
use snx_edge.Common.{ℕ, ◌+◌, ◌*◌, ◌≤◌, ◌≡◌, Text}
use snx_edge.Errors.{ok}
use snx_edge.Auth.Server.{Server, Clock, Process, require_auth}
use snx_edge.Auth.Login.{Sender, Ids, TokenResponse, issue_tokens}
use snx_edge.Auth.Generations.{generation_in}
use snx_edge.Auth.Coherent.{Coherent}
use snx_edge.Auth.CacheSteps.{swallow-Keeps}
use snx_edge.Auth.Sessions.{issue_tokens-Keeps}
use snx_edge.Auth.Issue.{RoundTrips, PassesAs, issued-admits}
use snx_edge.Auth.Revocation.{bearer}

-- The role of the tokens is not read again: after an `issue_tokens` that succeeds and until the
-- access token expires, `require_auth` takes that token and passes on claims with the role that
-- the caller had read and the permissions of that role, whatever role the user's row has by then,
-- and with the generation that the row has by then; the cache agreed with the store before, and
-- the token library reads its own tokens back.
pub issue_tokens-admits_role :
    (p : Process) (t later : Clock) (ids : Ids) (sender : Sender) (i role : Text) (s : Server)
    (r : TokenResponse)
    → Coherent s
    → RoundTrips p.jwt
    → (issue_tokens p t ids sender i role s).0 ≡ ok r
    → later.utc ≤ t.utc + p.config.access_token_ttl_minutes * 60
    → (g : ℕ) × (generation_in i s.db.users ≡ ok g)
      × PassesAs
          (require_auth p later (bearer r.access_token) (issue_tokens p t ids sender i role s).1).0
          i
          role
          (t.utc + p.config.access_token_ttl_minutes * 60)
          g
issue_tokens-admits_role p t later ids sender i role s r h round issued early =
    let (g, current, _, admitted) =
      issued-admits p t later ids sender i role s r
        (swallow-Keeps (issue_tokens p t ids sender i role)
          (issue_tokens-Keeps p t ids sender i role) s h)
        round issued early in
    (g, current, admitted)
