-- ===== src/RouterOs/Tests.antt =====
-- A small router, and the theorems on the RouterOS side applied to it.
use snx_edge.Common.{
  ◌≡◌, refl, inl, true, false, map, codes, text_eq, starts_with, strip_prefix, trim, trim_start,
  is_whitespace, In,
}
use snx_edge.Errors.{for_each}
use snx_edge.RouterOs.Comment.{comment_matches_tag, entry_comment}
use snx_edge.RouterOs.Comment.Laws.{IsTag}
use snx_edge.RouterOs.Device.{route, address_list, field, id_of, is_success}
use snx_edge.RouterOs.Client.{
  comment_such, delete_managed, list_managed, get_list, delete, receive, receive_status, decode_all,
  decodes, is_object_id,
}
use snx_edge.RouterOs.Setup.{setup, steps, migrate_legacy_objects, teardown, add_up}
use snx_edge.RouterOs.Progress.{label, Progress, step_labels, setup-Progress}
use snx_edge.RouterOs.Operator.{setup-Keeps, setup-keeps_entry}
use snx_edge.RouterOs.Removal.{teardown-clears}
use snx_edge.RouterOs.TestRouter.{
  tag, router_config, client_entry, foreign_route, shown, router, router-Lawful,
}
use snx_edge.RouterOs.Status.{PresenceSnapshot}

tag-IsTag : IsTag tag
unfolding starts_with strip_prefix trim trim_start is_whitespace
tag-IsTag = record { one_field = refl; no_kind = refl }

setup-keeps_entry_example :
    In client_entry
      (shown (setup router tag router_config (codes "172.18.0.2") (true, true)).1 address_list)
unfolding field entry_comment
setup-keeps_entry_example =
    setup-keeps_entry router router-Lawful tag router_config client_entry address_list
      (codes "172.18.0.2") (true, true) (codes "client") (codes "printer") refl tag-IsTag
      (unfold is_whitespace in refl) (unfold text_eq in refl) refl refl (inl refl)

setup-Keeps_example :
    In foreign_route
      (shown (setup router tag router_config (codes "172.18.0.2") (true, true)).1 route)
unfolding field
setup-Keeps_example =
    setup-Keeps router router-Lawful tag router_config foreign_route route (codes "172.18.0.2")
      (true, true) refl refl (inl refl)

setup-Progress_example :
    (map label (steps router tag router_config (codes "172.18.0.2")) ≡ step_labels)
    × Progress
        (steps router tag router_config (codes "172.18.0.2"))
        (migrate_legacy_objects router tag (true, true)).1
        (setup router tag router_config (codes "172.18.0.2") (true, true)).0
setup-Progress_example = setup-Progress router tag router_config (codes "172.18.0.2") (true, true)

teardown-clears_example : comment_such (λ c. comment_matches_tag c tag) foreign_route ≡ false
teardown-clears_example =
    teardown-clears router router-Lawful tag route foreign_route (true, true) 2
      (unfold teardown add_up delete_managed list_managed get_list delete receive receive_status
          decode_all decodes is_success is_object_id comment_matches_tag field id_of for_each
          text_eq strip_prefix in
        refl)
      (unfold teardown add_up delete_managed list_managed get_list delete receive receive_status
          decode_all decodes is_success is_object_id comment_matches_tag field id_of for_each
          text_eq strip_prefix in
        (inl refl))

abbrev half_built : PresenceSnapshot
half_built = record {
  has_routing_table = true;
  mangle_conn_mark = true;
  mangle_routing_mark = false;
  mss_clamp = false;
  default_route = true;
  kill_switch = true;
  dns_dst_nat = false;
  dot_block = false;
  fasttrack_bypass = false;
  rfc1918_bypass = false;
}
