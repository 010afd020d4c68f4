-- ===== src/RouterOs/Setup.antt =====
-- Setting the layout up, rolling it back and taking it down (routeros/provisioner.rs).
use snx_edge.Common.{ℕ, ◌+◌, Bool, List, [], ◌∷◌, none, some, Text, any, keep, if◌then◌else◌}
use snx_edge.Errors.{Result, ok, err, M, ◌>>=◌, ◌>>◌, return, for_each}
use snx_edge.RouterOs.Comment.{
  comment_matches_kind, kind_routing_table, kind_mangle_conn_mark, kind_mangle_routing_mark,
  kind_default_route, kind_kill_switch, kind_dns_dst_nat, kind_dot_block, kind_fasttrack_bypass,
  kind_rfc1918_bypass, kind_mss_clamp,
}
use snx_edge.RouterOs.Device.{RestPath, route, Object, id_of, Device}
use snx_edge.RouterOs.Client.{
  id_entry, rule_entry, comment_such, get_list, delete, list_managed, delete_managed,
  list_legacy_managed,
}
use snx_edge.RouterOs.Provisioner.{
  RouterOsConfig, SetupReport, legacy_paths, ensure_routing_table, ensure_mangle_connection_mark,
  ensure_mangle_routing_mark, ensure_mss_clamp, ensure_vpn_route, ensure_killswitch,
  ensure_dns_redirect, ensure_dot_block, ensure_fasttrack_exclusion, ensure_default_bypass,
}

-- `total += step(path).await?` over the paths.
unfoldable pub add_up : {S : Type 0} → (RestPath → M S ℕ) → List RestPath → M S ℕ
add_up f [] = return 0
add_up f (p ∷ ps) = let rest = add_up f ps in f p >>= λ n. rest >>= λ total. return (n + total)

-- A step of `setup`: its label, and the call.
abbrev pub Step : Type 0 → Type 0
Step S = Text × M S (Unit {0})

abbrev pub record_step :
    {S : Type 0} → Text → Result (Unit {0}) → S → (S → SetupReport × S) → SetupReport × S
record_step name (ok u) s rest =
    (record { applied = name ∷ (rest s).0.applied; failed = (rest s).0.failed }, (rest s).1)
record_step name (err e) s rest = (record { applied = []; failed = some (name, e) }, s)

-- The `step!` lines in a row: each success is recorded, the first failure ends the row.
unfoldable pub run_steps : {S : Type 0} → List (Step S) → S → SetupReport × S
run_steps [] s = (record { applied = []; failed = none }, s)
run_steps ((name, step) ∷ steps) s =
    let rest = run_steps steps in record_step name (step s).0 (step s).1 rest

-- Does a comment carry one of the kinds?
abbrev pub is_applied : Text → List Text → Object → Bool
is_applied tag kinds = comment_such (λ c. any (λ k. comment_matches_kind c tag k) kinds)

module _ (d : Device) (client_tag : Text) where
  -- The best-effort sweep; its result is logged and ignored.
  unfoldable pub migrate_path : RestPath → M d.State (Unit {0})
  migrate_path path = do ids ← list_legacy_managed d client_tag path; for_each (delete d path) ids

  unfoldable pub migrate_legacy_objects : M d.State (Unit {0})
  unfolding migrate_path
  migrate_legacy_objects = for_each migrate_path legacy_paths

  unfoldable pub teardown : M d.State ℕ
  unfolding add_up
  teardown = add_up (delete_managed d client_tag) legacy_paths

module _ (d : Device) (client_tag : Text) (config : RouterOsConfig) where
  open config use {comment_tag}

  -- The loop over the entries of `delete_applied`.
  unfoldable pub delete_matching : RestPath → (Object → Bool) → List Object → M d.State ℕ
  delete_matching path matches [] = return 0
  delete_matching path matches (entry ∷ entries) =
      let rest = delete_matching path matches entries in
      if matches entry
      then (delete d path (id_of entry) >> (rest >>= λ count. return (count + 1)))
      else rest

  unfoldable pub delete_applied : List Text → RestPath → M d.State ℕ
  unfolding delete_matching
  delete_applied kinds path = do
    entries ← get_list d id_entry path
    delete_matching path (is_applied comment_tag kinds) entries

  unfoldable pub rollback : List Text → M d.State ℕ
  unfolding add_up delete_applied
  rollback applied_kinds = add_up (delete_applied applied_kinds) legacy_paths

  unfoldable pub steps : Text → List (Step d.State)
  steps container_ip =
      (kind_routing_table, ensure_routing_table d client_tag config comment_tag)
      ∷ (kind_mangle_conn_mark, ensure_mangle_connection_mark d client_tag config comment_tag)
      ∷ (kind_mangle_routing_mark, ensure_mangle_routing_mark d client_tag config comment_tag)
      ∷ (kind_mss_clamp, ensure_mss_clamp d client_tag config comment_tag)
      ∷ (kind_default_route, ensure_vpn_route d client_tag config container_ip comment_tag)
      ∷ (kind_kill_switch, ensure_killswitch d client_tag config comment_tag)
      ∷ (kind_dns_dst_nat, ensure_dns_redirect d client_tag config container_ip comment_tag)
      ∷ (kind_dot_block, ensure_dot_block d client_tag config comment_tag)
      ∷ (kind_fasttrack_bypass, ensure_fasttrack_exclusion d client_tag config comment_tag)
      ∷ (kind_rfc1918_bypass, ensure_default_bypass d client_tag config comment_tag)
      ∷ []

  -- On a failure the rollback runs; its own outcome does not change the report.
  unfoldable pub finish : SetupReport × d.State → SetupReport × d.State
  unfolding rollback
  finish (report, s) = elim report.failed [
    | none ↦ (report, s)
    | some f ↦ (report, (rollback report.applied s).1)
  ]

  unfoldable pub setup : Text → d.State → SetupReport × d.State
  setup container_ip s =
      finish (run_steps (steps container_ip) (migrate_legacy_objects d client_tag s).1)

  unfoldable pub set_default_route_present : Text → M d.State (Unit {0})
  set_default_route_present gateway = ensure_vpn_route d client_tag config gateway comment_tag

  unfoldable pub clear_default_route : M d.State (Unit {0})
  clear_default_route = do
    routes ← list_managed d client_tag rule_entry route
    for_each (λ r. delete d route (id_of r))
        (keep (comment_such (λ c. comment_matches_kind c comment_tag kind_default_route)) routes)
