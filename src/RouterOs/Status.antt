-- ===== src/RouterOs/Status.antt =====
-- Presence snapshot and diagnostics of the layout (routeros/provisioner.rs), read only.
use snx_edge.Common.{
  ℕ, suc, ◌≡◌, refl, ◌↔◌, Bool, true, false, not, ◌&&◌, ◌≤◌, List, [], ◌∷◌, ◌++◌, Text, codes,
  length, any, all, arith, leb, ◌==◌, if◌then◌else◌,
}
use snx_edge.Errors.{M, ◌>>=◌, return}
use snx_edge.RouterOs.Comment.{
  comment_matches_kind, kind_routing_table, kind_mangle_conn_mark, kind_mangle_routing_mark,
  kind_default_route, kind_kill_switch, kind_dns_dst_nat, kind_dot_block, kind_fasttrack_bypass,
  kind_rfc1918_bypass, kind_mss_clamp,
}
use snx_edge.RouterOs.Device.{
  filter, nat, mangle, route, routing_table, name, action, dst_port, routing_table_key, route_type,
  Object, field, Device,
}
use snx_edge.RouterOs.Client.{
  table_entry, rule_entry, comment_such, such, field_is, get_list, list_address_list, list_managed,
}
use snx_edge.RouterOs.Provisioner.{RouterOsConfig, has_kind}

pub record PresenceSnapshot : Type 0 where
  pub has_routing_table : Bool
  pub mangle_conn_mark : Bool
  pub mangle_routing_mark : Bool
  pub mss_clamp : Bool
  pub default_route : Bool
  pub kill_switch : Bool
  pub dns_dst_nat : Bool
  pub dot_block : Bool
  pub fasttrack_bypass : Bool
  pub rfc1918_bypass : Bool

abbrev pub expected : ℕ
expected = 10

abbrev pub flags : PresenceSnapshot → List Bool
flags p =
    p.has_routing_table ∷ p.mangle_conn_mark ∷ p.mangle_routing_mark ∷ p.mss_clamp ∷ p.default_route
    ∷ p.kill_switch ∷ p.dns_dst_nat ∷ p.dot_block ∷ p.fasttrack_bypass ∷ p.rfc1918_bypass ∷ []

-- `into_iter().filter(|b| *b).count()`
unfoldable pub count_true : List Bool → ℕ
count_true [] = 0
count_true (true ∷ bs) = suc (count_true bs)
count_true (false ∷ bs) = count_true bs

unfoldable pub present_count : PresenceSnapshot → ℕ
present_count p = count_true (flags p)

pub data LayoutState : Type 0 where
  configured absent partial : LayoutState

unfoldable pub state : PresenceSnapshot → LayoutState
state p =
    if present_count p == expected
    then configured
    else if present_count p == 0
    then absent
    else partial

pub data Warning : Type 0 where
  table_not_found vpn_route_not_found kill_switch_not_found : Warning
  mangle_rules_found : ℕ → Warning

pub record DiagnosticsChecks : Type 0 where
  pub routing_table_exists : Bool
  pub mangle_rules_present : Bool
  pub mangle_rules_count : ℕ
  pub has_mss_clamp : Bool
  pub vpn_route_active : Bool
  pub killswitch_present : Bool
  pub dns_redirect_active : Bool
  pub fasttrack_configured : Bool
  pub gateway_reachable : Bool
  pub vpn_clients_count : ℕ
  pub vpn_bypass_count : ℕ

pub record DiagnosticsResult : Type 0 where
  pub healthy : Bool
  pub checks : DiagnosticsChecks
  pub warnings : List Warning

abbrev warn_unless : Bool → Warning → List Warning
warn_unless true w = []
warn_unless false w = w ∷ []

abbrev is_nil : List Warning → Bool
is_nil [] = true
is_nil (w ∷ ws) = false

-- The result from the listings, once all have been read.
unfoldable pub diagnose :
    RouterOsConfig
    → (tables mangles routes nats filters clients bypass : List Object) → DiagnosticsResult
diagnose config tables mangles routes nats filters clients bypass =
    let routing_table_exists = any (field_is name config.routing_table_name) tables in
    let enough = leb 3 (length mangles) in
    let vpn_route_active =
      any
        (λ r.
          field_is routing_table_key config.routing_table_name r
          && not (such (λ t. true) (field route_type r)))
        routes in
    let killswitch_present = any (field_is route_type (codes "blackhole")) routes in
    let warnings =
      warn_unless routing_table_exists table_not_found
      ++ (warn_unless enough (mangle_rules_found (length mangles))
          ++ (warn_unless vpn_route_active vpn_route_not_found
              ++ warn_unless killswitch_present kill_switch_not_found)) in
    record {
      healthy = is_nil warnings;
      checks = record {
        routing_table_exists = routing_table_exists;
        mangle_rules_present = enough;
        mangle_rules_count = length mangles;
        has_mss_clamp = has_kind config.comment_tag kind_mss_clamp mangles;
        vpn_route_active = vpn_route_active;
        killswitch_present = killswitch_present;
        dns_redirect_active = any (field_is dst_port (codes "53")) nats;
        fasttrack_configured = any (field_is action (codes "fasttrack-connection")) filters;
        gateway_reachable = vpn_route_active;
        vpn_clients_count = length clients;
        vpn_bypass_count = length bypass;
      };
      warnings = warnings;
    }

module _ (d : Device) (client_tag : Text) (config : RouterOsConfig) where
  unfoldable pub diagnostics : M d.State DiagnosticsResult
  unfolding diagnose
  diagnostics = do
    tables ← get_list d table_entry routing_table
    mangles ← list_managed d client_tag rule_entry mangle
    routes ← list_managed d client_tag rule_entry route
    nats ← list_managed d client_tag rule_entry nat
    filters ← list_managed d client_tag rule_entry filter
    clients ← list_address_list d config.address_list_vpn
    bypass ← list_address_list d config.address_list_bypass
    return (diagnose config tables mangles routes nats filters clients bypass)

  -- The listings here are not filtered by the tag: the kind match asks for it.
  unfoldable pub presence_snapshot : M d.State PresenceSnapshot
  presence_snapshot = do
    tables ← get_list d table_entry routing_table
    mangles ← get_list d rule_entry mangle
    routes ← get_list d rule_entry route
    nats ← get_list d rule_entry nat
    filters ← get_list d rule_entry filter
    bypass ← list_address_list d config.address_list_bypass
    return (record {
      has_routing_table =
          any
            (λ t.
              field_is name config.routing_table_name t
              && comment_such (λ c. comment_matches_kind c config.comment_tag kind_routing_table) t)
            tables;
      mangle_conn_mark = has_kind config.comment_tag kind_mangle_conn_mark mangles;
      mangle_routing_mark = has_kind config.comment_tag kind_mangle_routing_mark mangles;
      mss_clamp = has_kind config.comment_tag kind_mss_clamp mangles;
      default_route = has_kind config.comment_tag kind_default_route routes;
      kill_switch = has_kind config.comment_tag kind_kill_switch routes;
      dns_dst_nat = has_kind config.comment_tag kind_dns_dst_nat nats;
      dot_block = has_kind config.comment_tag kind_dot_block filters;
      fasttrack_bypass = has_kind config.comment_tag kind_fasttrack_bypass filters;
      rfc1918_bypass = has_kind config.comment_tag kind_rfc1918_bypass bypass;
    })

count_true-le : (bs : List Bool) → count_true bs ≤ length bs
unfolding count_true
count_true-le [] = omega arith
count_true-le (true ∷ bs) = omega (arith, count_true-le bs)
count_true-le (false ∷ bs) = omega (arith, count_true-le bs)

all-true : (bs : List Bool) → (count_true bs ≡ length bs) ↔ (all (λ b. b) bs ≡ true)
unfolding count_true
all-true [] = (λ _. refl, λ _. refl)
all-true (true ∷ bs) = (λ h. (all-true bs).0 (omega arith), λ h. omega (arith, (all-true bs).1 h))
all-true (false ∷ bs) = (λ h. absurd (omega (arith, count_true-le bs)), λ h. cc)

any-none_true : (bs : List Bool) → (count_true bs ≡ 0) ↔ (any (λ b. b) bs ≡ false)
unfolding count_true
any-none_true [] = (λ _. refl, λ _. refl)
any-none_true (true ∷ bs) = (λ h. absurd (omega arith), λ h. cc)
any-none_true (false ∷ bs) = any-none_true bs

state-count :
    (p : PresenceSnapshot)
    → ((state p ≡ configured) ↔ (present_count p ≡ 10))
      × ((state p ≡ absent) ↔ (present_count p ≡ 0))
unfolding state
state-count p = ((λ h. ground arith, λ h. ground arith), (λ h. ground arith, λ h. ground arith))

-- The state of a snapshot is `configured` exactly when all ten kinds are present, and `absent`
-- exactly when none is.
pub state_iff :
    (p : PresenceSnapshot)
    → ((state p ≡ configured) ↔ (all (λ b. b) (flags p) ≡ true))
      × ((state p ≡ absent) ↔ (any (λ b. b) (flags p) ≡ false))
unfolding present_count
state_iff p =
    let (full, empty) = state-count p in
    (
      (λ h. (all-true (flags p)).0 (full.0 h), λ h. full.1 ((all-true (flags p)).1 h)),
      (λ h. (any-none_true (flags p)).0 (empty.0 h), λ h. empty.1 ((any-none_true (flags p)).1 h)),
    )
