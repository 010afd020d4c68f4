-- ===== src/Reconciler.antt =====
-- The reconciler of the data plane (apps/snx-edge-server/src/reconciler.rs): its decision, and the file
-- that it writes for the DNS forwarder.
pub mod Apply
pub mod FailClosed
pub mod Injection
mod Tests
use snx_edge.Common.{
  ℕ, Bool, true, false, not, ◌&&◌, ◌||◌, List, [], ◌∷◌, ◌++◌, Option, none, some, Text, codes,
  byte_len, strip_prefix, split, is_whitespace, any, all, ltb, leb, ◌==◌, if◌then◌else◌,
}
use snx_edge.Net.{is_empty}
use snx_edge.Users.Store.{or_else}
use snx_edge.Supervisor.{
  ConnectionStatus, ConnectionInfo, connected, connecting, disconnected, mfa, error,
}

pub data Action : Type 0 where
  engage : Text → Action
  disengage : Action

unfoldable pub decide : ConnectionStatus → Option Action
decide (connected info) =
    if not (is_empty info.interface_name) then some (engage info.interface_name) else none
decide disconnected = some disengage
decide (error message) = some disengage
decide connecting = none
decide (mfa kind prompt) = none

-- `char::is_control`
abbrev pub is_control : ℕ → Bool
is_control c = ltb c 0x20 || (leb 0x7f c && leb c 0x9f)

-- `/`, `#`, and what may end a word or a line.
unfoldable pub breaks_out : ℕ → Bool
breaks_out c = c == 47 || c == 35 || is_whitespace c || is_control c

abbrev pub is_ascii_alphanumeric : ℕ → Bool
is_ascii_alphanumeric c =
    (leb 48 c && leb c 57) || (leb 65 c && leb c 90) || (leb 97 c && leb c 122)

abbrev pub hyphen : ℕ
hyphen = 45

abbrev pub begins_with : ℕ → Text → Bool
begins_with c [] = false
begins_with c (a ∷ s) = a == c

abbrev pub ends_with : ℕ → Text → Bool
ends_with c [] = false
ends_with c (a ∷ []) = a == c
ends_with c (a ∷ b ∷ s) = ends_with c (b ∷ s)

-- A character outside ASCII has no byte that is alphanumeric.
unfoldable pub is_valid_label : Text → Bool
is_valid_label label =
    not (is_empty label)
    && leb (byte_len label) 63
    && all (λ c. is_ascii_alphanumeric c || c == hyphen) label
    && not (begins_with hyphen label)
    && not (ends_with hyphen label)

abbrev pub dot : ℕ
dot = 46

unfoldable pub is_valid_dns_name : Text → Bool
is_valid_dns_name domain =
    not (is_empty domain || ltb 253 (byte_len domain))
    && not (any breaks_out domain)
    && all is_valid_label (split dot domain)

abbrev pub newline : ℕ
newline = 10

-- One leading `~` is taken off.
abbrev pub bare : Text → Text
bare domain = or_else (strip_prefix (codes "~") domain) domain

unfoldable pub server_line : Text → Text → Text
server_line domain srv = codes "server=/" ++ domain ++ codes "/" ++ srv

-- `is_ip` says whether the address parser of the standard library takes a text.
module _ (is_ip : Text → Bool) where
  unfoldable pub render_servers : Text → List Text → Text
  render_servers domain [] = []
  render_servers domain (srv ∷ srvs) =
      let rest = render_servers domain srvs in
      if is_ip srv then server_line domain srv ++ newline ∷ rest else rest

  unfoldable pub render_corp_dnsmasq : List Text → List Text → Text
  render_corp_dnsmasq dns_servers [] = []
  render_corp_dnsmasq dns_servers (domain ∷ domains) =
      let rest = render_corp_dnsmasq dns_servers domains in
      if is_valid_dns_name (bare domain)
      then render_servers (bare domain) dns_servers ++ rest
      else rest
