-- ===== src/RouterOs/Provisioner.antt =====
-- The provisioner of the policy-based-routing layout (routeros/provisioner.rs).
use snx_edge.Common.{Bool, ◌&&◌, ◌||◌, List, [], ◌∷◌, Option, Text, codes, any, if◌then◌else◌}
use snx_edge.Errors.{AppError, M, ◌>>=◌, return, for_each}
use snx_edge.RouterOs.Comment.{
  comment_matches_kind, comment_for_kind, kind_routing_table, kind_mangle_conn_mark,
  kind_mangle_routing_mark, kind_default_route, kind_kill_switch, kind_dns_dst_nat, kind_dot_block,
  kind_fasttrack_bypass, kind_rfc1918_bypass, kind_mss_clamp,
}
use snx_edge.RouterOs.Device.{
  RestPath, filter, nat, mangle, route, address_list, routing_table, name, fib, list, address,
  comment, chain, action, passthrough, protocol, gateway, distance, src_address_list,
  dst_address_list, connection_state, connection_mark, new_connection_mark, new_routing_mark,
  dst_address, dst_port, to_addresses, routing_table_key, check_gateway, route_type, tcp_flags,
  new_mss, Object, Device,
}
use snx_edge.RouterOs.Client.{
  table_entry, rule_entry, comment_such, field_is, get_list, create, list_address_list,
  list_managed,
}

-- The fields of `RouterOsConfig` that the provisioner reads.
pub record RouterOsConfig : Type 0 where
  pub comment_tag : Text
  pub address_list_vpn : Text
  pub address_list_bypass : Text
  pub address_list_corp : Text
  pub routing_table_name : Text
  pub connection_mark_name : Text
  pub routing_mark : Text

-- `failed` names the first step that failed; `applied` the steps before it.
pub record SetupReport : Type 0 where
  pub applied : List Text
  pub failed : Option (Text × AppError)

-- The paths that `LEGACY_PATHS` lists, which `teardown` and `rollback` go through in this order too.
abbrev pub legacy_paths : List RestPath
legacy_paths = filter ∷ nat ∷ mangle ∷ route ∷ address_list ∷ routing_table ∷ []

-- Some object carries the comment of a kind.
unfoldable pub has_kind : Text → Text → List Object → Bool
has_kind tag kind = any (comment_such (λ c. comment_matches_kind c tag kind))

-- Some object of a kind is for a protocol.
unfoldable pub has_kind_for : Text → Text → Text → List Object → Bool
has_kind_for tag kind proto =
    any (λ o. field_is protocol proto o && comment_such (λ c. comment_matches_kind c tag kind) o)

module _ (d : Device) (client_tag : Text) (config : RouterOsConfig) where
  open config use {
    comment_tag, address_list_vpn, address_list_bypass, address_list_corp, routing_table_name,
    connection_mark_name, routing_mark,
  }

  -- `return Ok(())` where the object is there; otherwise
  -- `let _: serde_json::Value = self.client.create(path, &body).await?; Ok(())`.
  unfoldable pub create_unless : Bool → RestPath → Object → M d.State (Unit {0})
  unfolding create
  create_unless present path body =
      if present then return tt else (create d path body >>= λ _. return tt)

  unfoldable pub ensure_routing_table : Text → M d.State (Unit {0})
  ensure_routing_table tag = do
    tables ← get_list d table_entry routing_table
    create_unless
        (any
            (λ t.
              field_is name routing_table_name t
              && comment_such (λ c. comment_matches_kind c tag kind_routing_table) t)
            tables
          || any (field_is name routing_table_name) tables)
        routing_table
        ((name, routing_table_name)
          ∷ (fib, codes "")
          ∷ (comment, comment_for_kind tag kind_routing_table)
          ∷ [])

  unfoldable pub ensure_mangle_connection_mark : Text → M d.State (Unit {0})
  ensure_mangle_connection_mark tag = do
    existing ← list_managed d client_tag rule_entry mangle
    create_unless (has_kind tag kind_mangle_conn_mark existing) mangle (
        (chain, codes "prerouting")
        ∷ (src_address_list, address_list_vpn)
        ∷ (dst_address_list, address_list_corp)
        ∷ (connection_state, codes "new")
        ∷ (action, codes "mark-connection")
        ∷ (new_connection_mark, connection_mark_name)
        ∷ (passthrough, codes "yes")
        ∷ (comment, comment_for_kind tag kind_mangle_conn_mark)
        ∷ [])

  unfoldable pub ensure_mss_clamp : Text → M d.State (Unit {0})
  ensure_mss_clamp tag = do
    existing ← list_managed d client_tag rule_entry mangle
    create_unless (has_kind tag kind_mss_clamp existing) mangle (
        (chain, codes "forward")
        ∷ (connection_mark, connection_mark_name)
        ∷ (protocol, codes "tcp")
        ∷ (tcp_flags, codes "syn")
        ∷ (action, codes "change-mss")
        ∷ (new_mss, codes "clamp-to-pmtu")
        ∷ (passthrough, codes "yes")
        ∷ (comment, comment_for_kind tag kind_mss_clamp)
        ∷ [])

  unfoldable pub ensure_mangle_routing_mark : Text → M d.State (Unit {0})
  ensure_mangle_routing_mark tag = do
    existing ← list_managed d client_tag rule_entry mangle
    create_unless (has_kind tag kind_mangle_routing_mark existing) mangle (
        (chain, codes "prerouting")
        ∷ (connection_mark, connection_mark_name)
        ∷ (action, codes "mark-routing")
        ∷ (new_routing_mark, routing_mark)
        ∷ (passthrough, codes "no")
        ∷ (comment, comment_for_kind tag kind_mangle_routing_mark)
        ∷ [])

  unfoldable pub ensure_vpn_route : Text → Text → M d.State (Unit {0})
  ensure_vpn_route gateway_ip tag = do
    existing ← list_managed d client_tag rule_entry route
    create_unless (has_kind tag kind_default_route existing) route (
        (dst_address, codes "0.0.0.0/0")
        ∷ (gateway, gateway_ip)
        ∷ (routing_table_key, routing_table_name)
        ∷ (check_gateway, codes "ping")
        ∷ (distance, codes "1")
        ∷ (comment, comment_for_kind tag kind_default_route)
        ∷ [])

  unfoldable pub ensure_killswitch : Text → M d.State (Unit {0})
  ensure_killswitch tag = do
    existing ← list_managed d client_tag rule_entry route
    create_unless (has_kind tag kind_kill_switch existing) route (
        (dst_address, codes "0.0.0.0/0")
        ∷ (route_type, codes "blackhole")
        ∷ (routing_table_key, routing_table_name)
        ∷ (distance, codes "254")
        ∷ (comment, comment_for_kind tag kind_kill_switch)
        ∷ [])

  -- The rules for one protocol, in the loops of `ensure_dns_redirect` and `ensure_dot_block`.
  unfoldable pub redirect_dns : Text → Text → List Object → Text → M d.State (Unit {0})
  redirect_dns container_ip tag existing proto =
      create_unless (has_kind_for tag kind_dns_dst_nat proto existing) nat (
        (chain, codes "dstnat")
        ∷ (src_address_list, address_list_vpn)
        ∷ (dst_port, codes "53")
        ∷ (protocol, proto)
        ∷ (action, codes "dst-nat")
        ∷ (to_addresses, container_ip)
        ∷ (comment, comment_for_kind tag kind_dns_dst_nat)
        ∷ [])

  unfoldable pub ensure_dns_redirect : Text → Text → M d.State (Unit {0})
  unfolding redirect_dns
  ensure_dns_redirect container_ip tag = do
    existing ← list_managed d client_tag rule_entry nat
    for_each (redirect_dns container_ip tag existing) (codes "udp" ∷ codes "tcp" ∷ [])

  unfoldable pub block_dot : Text → List Object → Text → M d.State (Unit {0})
  block_dot tag existing proto =
      create_unless (has_kind_for tag kind_dot_block proto existing) filter (
        (chain, codes "forward")
        ∷ (src_address_list, address_list_vpn)
        ∷ (dst_port, codes "853")
        ∷ (protocol, proto)
        ∷ (action, codes "drop")
        ∷ (comment, comment_for_kind tag kind_dot_block)
        ∷ [])

  unfoldable pub ensure_dot_block : Text → M d.State (Unit {0})
  unfolding block_dot
  ensure_dot_block tag = do
    existing ← list_managed d client_tag rule_entry filter
    for_each (block_dot tag existing) (codes "tcp" ∷ codes "udp" ∷ [])

  unfoldable pub ensure_fasttrack_exclusion : Text → M d.State (Unit {0})
  ensure_fasttrack_exclusion tag = do
    existing ← list_managed d client_tag rule_entry filter
    create_unless (has_kind tag kind_fasttrack_bypass existing) filter (
        (chain, codes "forward")
        ∷ (action, codes "fasttrack-connection")
        ∷ (connection_state, codes "established,related")
        ∷ (connection_mark, codes "no-mark")
        ∷ (comment, comment_for_kind tag kind_fasttrack_bypass)
        ∷ [])

  unfoldable pub bypass_range : Text → List Object → Text → M d.State (Unit {0})
  bypass_range tag existing addr =
      create_unless (any (field_is address addr) existing) address_list (
        (list, address_list_bypass)
        ∷ (address, addr)
        ∷ (comment, comment_for_kind tag kind_rfc1918_bypass)
        ∷ [])

  unfoldable pub ensure_default_bypass : Text → M d.State (Unit {0})
  unfolding bypass_range
  ensure_default_bypass tag = do
    existing ← list_address_list d address_list_bypass
    for_each (bypass_range tag existing)
        (codes "192.168.0.0/16" ∷ codes "172.16.0.0/12" ∷ codes "10.0.0.0/8" ∷ [])
