-- ===== src/RouterOs/Survival.antt =====
-- What `setup`, with its migration and its rollback, leaves in place on the router.
use snx_edge.Common.{
  ℕ, ◌≡◌, refl, inl, inr, Bool, true, false, List, [], ◌∷◌, map, Text, In, In-keep, keep, All,
  Bool-cases, Option-cases, In-map,
}
use snx_edge.Errors.{Result, ok, err, M, return, for_each}
use snx_edge.RouterOs.Comment.{comment_is_legacy}
use snx_edge.RouterOs.Device.{
  RestPath, Key, route, mangle, filter, routing_table, address_list, Object, id_of, Device, Lawful,
}
use snx_edge.RouterOs.Client.{
  Shape, id_entry, rule_entry, table_entry, address_entry, field_is, comment_such, create, delete,
  list_address_list, list_managed, list_legacy_managed,
}
use snx_edge.RouterOs.Provisioner.{
  RouterOsConfig, SetupReport, legacy_paths, ensure_routing_table, ensure_mangle_connection_mark,
  ensure_mangle_routing_mark, ensure_mss_clamp, ensure_vpn_route, ensure_killswitch,
  ensure_dns_redirect, ensure_dot_block, ensure_fasttrack_exclusion, ensure_default_bypass,
  create_unless,
}
use snx_edge.RouterOs.Setup.{
  add_up, Step, run_steps, is_applied, migrate_path, migrate_legacy_objects, delete_matching,
  delete_applied, rollback, record_step, steps, finish,
}
use snx_edge.RouterOs.Keeps.{
  Keeps, bind-Keeps, for_each-Keeps, Apart, get_list-Keeps, listing-Keeps, create-Keeps,
  delete_entry-Keeps,
}

module _ (d : Device) (law : Lawful d) (o : Object) (q : RestPath) where
  abbrev pub Stays : {A : Type 0} → M d.State A → Type 0
  Stays m = Keeps d law o q m

  list_managed-Keeps :
      (tag : Text) (shape : Shape) (p : RestPath) → Stays (list_managed d tag shape p)
  unfolding list_managed
  list_managed-Keeps tag shape p = get_list-Keeps d law o q shape p _ (λ objs _ s h. h)

  list_address_list-Keeps : (name : Text) → Stays (list_address_list d name)
  unfolding list_address_list
  list_address_list-Keeps name =
      get_list-Keeps d law o q address_entry address_list
        (λ objs. return (keep (field_is Key.list name) objs)) (λ objs _ s h. h)

  module _ (client_tag : Text) (config : RouterOsConfig) where
    create_unless-Keeps :
        (b : Bool) (p : RestPath) (body : Object)
        → Stays (create_unless d client_tag config b p body)
    unfolding create_unless
    create_unless-Keeps true p body s h = h
    create_unless-Keeps false p body s h =
        bind-Keeps d law o q (create d p body) _ (create-Keeps d law o q p body) (λ _ s h. h) s h

    routing_table-Keeps : (tag : Text) → Stays (ensure_routing_table d client_tag config tag)
    unfolding ensure_routing_table
    routing_table-Keeps tag =
        get_list-Keeps d law o q table_entry routing_table _ (λ objs _. create_unless-Keeps _ _ _)

    dns_redirect-Keeps : (ip tag : Text) → Stays (ensure_dns_redirect d client_tag config ip tag)
    unfolding ensure_dns_redirect
    dns_redirect-Keeps ip tag =
        bind-Keeps d law o q _ _ (list_managed-Keeps client_tag rule_entry _)
          (λ objs. for_each-Keeps d law o q _ _ (λ proto _. create_unless-Keeps _ _ _))

    dot_block-Keeps : (tag : Text) → Stays (ensure_dot_block d client_tag config tag)
    unfolding ensure_dot_block
    dot_block-Keeps tag =
        bind-Keeps d law o q _ _ (list_managed-Keeps client_tag rule_entry _)
          (λ objs. for_each-Keeps d law o q _ _ (λ proto _. create_unless-Keeps _ _ _))

    default_bypass-Keeps : (tag : Text) → Stays (ensure_default_bypass d client_tag config tag)
    unfolding ensure_default_bypass
    default_bypass-Keeps tag =
        bind-Keeps d law o q _ _ (list_address_list-Keeps _)
          (λ objs. for_each-Keeps d law o q _ _ (λ addr _. create_unless-Keeps _ _ _))

    conn_mark-Keeps : (tag : Text) → Stays (ensure_mangle_connection_mark d client_tag config tag)
    unfolding ensure_mangle_connection_mark
    conn_mark-Keeps tag =
        bind-Keeps d law o q _ _ (list_managed-Keeps client_tag rule_entry mangle)
          (λ objs. create_unless-Keeps _ _ _)

    routing_mark-Keeps : (tag : Text) → Stays (ensure_mangle_routing_mark d client_tag config tag)
    unfolding ensure_mangle_routing_mark
    routing_mark-Keeps tag =
        bind-Keeps d law o q _ _ (list_managed-Keeps client_tag rule_entry mangle)
          (λ objs. create_unless-Keeps _ _ _)

    mss_clamp-Keeps : (tag : Text) → Stays (ensure_mss_clamp d client_tag config tag)
    unfolding ensure_mss_clamp
    mss_clamp-Keeps tag =
        bind-Keeps d law o q _ _ (list_managed-Keeps client_tag rule_entry mangle)
          (λ objs. create_unless-Keeps _ _ _)

    vpn_route-Keeps : (ip tag : Text) → Stays (ensure_vpn_route d client_tag config ip tag)
    unfolding ensure_vpn_route
    vpn_route-Keeps ip tag =
        bind-Keeps d law o q _ _ (list_managed-Keeps client_tag rule_entry route)
          (λ objs. create_unless-Keeps _ _ _)

    killswitch-Keeps : (tag : Text) → Stays (ensure_killswitch d client_tag config tag)
    unfolding ensure_killswitch
    killswitch-Keeps tag =
        bind-Keeps d law o q _ _ (list_managed-Keeps client_tag rule_entry route)
          (λ objs. create_unless-Keeps _ _ _)

    fasttrack-Keeps : (tag : Text) → Stays (ensure_fasttrack_exclusion d client_tag config tag)
    unfolding ensure_fasttrack_exclusion
    fasttrack-Keeps tag =
        bind-Keeps d law o q _ _ (list_managed-Keeps client_tag rule_entry filter)
          (λ objs. create_unless-Keeps _ _ _)

    -- No step deletes anything.
    pub steps-Keep : (ip : Text) → All (λ step. Stays step.1) (steps d client_tag config ip)
    unfolding steps
    steps-Keep ip =
        let tag = config.comment_tag in
        (
          routing_table-Keeps tag,
          (
            conn_mark-Keeps tag,
            (
              routing_mark-Keeps tag,
              (
                mss_clamp-Keeps tag,
                (
                  vpn_route-Keeps ip tag,
                  (
                    killswitch-Keeps tag,
                    (
                      dns_redirect-Keeps ip tag,
                      (dot_block-Keeps tag, (fasttrack-Keeps tag, (default_bypass-Keeps tag, tt))),
                    ),
                  ),
                ),
              ),
            ),
          ),
        )

    pub run_steps-Keeps :
        (xs : List (Step d.State)) (s : d.State)
        → All (λ step. Stays step.1) xs
        → In o (law.view s q)
        → In o (law.view (run_steps xs s).1 q)
    unfolding run_steps
    run_steps-Keeps [] s a h = h
    run_steps-Keeps ((name, step) ∷ xs) s (k, a) h =
        recorded (step s).0 (run_steps-Keeps xs (step s).1 a (k s h)) (k s h)
      where
        recorded :
            (r : Result (Unit {0}))
            → In o (law.view (run_steps xs (step s).1).1 q)
            → In o (law.view (step s).1 q)
            → In o (law.view (record_step name r (step s).1 (run_steps xs)).1 q)
        recorded (ok u) later here = later
        recorded (err e) later here = here

    add_up-Keeps :
        (f : RestPath → M d.State ℕ) (ps : List RestPath)
        → ((p : RestPath) → Stays (f p))
        → Stays (add_up f ps)
    unfolding add_up
    add_up-Keeps f [] k s h = h
    add_up-Keeps f (p ∷ ps) k s h =
        bind-Keeps d law o q (f p) _ (k p)
          (λ n. bind-Keeps d law o q (add_up f ps) _ (add_up-Keeps f ps k) (λ total t i. i)) s h

    delete_matching-Keeps :
        (p : RestPath) (matches : Object → Bool) (entries : List Object)
        → Apart d law o q p entries
        → matches o ≡ false
        → Stays (delete_matching d client_tag config p matches entries)
    unfolding delete_matching
    delete_matching-Keeps p matches [] apart m s h = h
    delete_matching-Keeps p matches (e ∷ es) apart m s h =
        let rest : Stays (delete_matching d client_tag config p matches es) =
          delete_matching-Keeps p matches es (λ same x i. apart same x (inr i)) m in
        elim (Bool-cases (matches e)) [
          | inl t ↦ rw t (
              bind-Keeps d law o q (delete d p (id_of e)) _
                (delete_entry-Keeps d law o q p (e ∷ es) matches e apart (inl refl) t m)
                (λ _. bind-Keeps d law o q _ _ rest (λ n u i. i)) s h)
          | inr t ↦ rw t (rest s h)
        ]

    delete_applied-Keeps :
        (kinds : List Text) (p : RestPath)
        → is_applied config.comment_tag kinds o ≡ false
        → Stays (delete_applied d client_tag config kinds p)
    unfolding delete_applied
    delete_applied-Keeps kinds p m =
        let matches : Object → Bool = is_applied config.comment_tag kinds in
        get_list-Keeps d law o q id_entry p (delete_matching d client_tag config p matches)
          (λ objs apart. delete_matching-Keeps p matches objs apart m)

    rollback-Keeps :
        (kinds : List Text)
        → is_applied config.comment_tag kinds o ≡ false
        → Stays (rollback d client_tag config kinds)
    unfolding rollback
    rollback-Keeps kinds m =
        add_up-Keeps (delete_applied d client_tag config kinds) legacy_paths
          (λ p. delete_applied-Keeps kinds p m)

    -- A legacy object is deleted by its identity, so all others stay.
    migrate_path-Keeps :
        (p : RestPath)
        → comment_such (λ c. comment_is_legacy c client_tag) o ≡ false
        → Stays (migrate_path d client_tag p)
    unfolding migrate_path list_legacy_managed
    migrate_path-Keeps p m =
        let legacy : Object → Bool = comment_such (λ c. comment_is_legacy c client_tag) in
        listing-Keeps d law o q id_entry p (λ objs. map id_of (keep legacy objs))
          (for_each (delete d p))
          (λ objs apart.
            for_each-Keeps d law o q (delete d p) (map id_of (keep legacy objs)) (λ i k.
              let (e, kept, same) = In-map id_of (keep legacy objs) i k in
              let (here, t) = In-keep legacy e objs kept in
              rw (← same) (delete_entry-Keeps d law o q p objs legacy e apart here t m)))

    pub migrate-Keeps :
        comment_such (λ c. comment_is_legacy c client_tag) o ≡ false
        → Stays (migrate_legacy_objects d client_tag)
    unfolding migrate_legacy_objects
    migrate-Keeps m =
        for_each-Keeps d law o q (migrate_path d client_tag) legacy_paths
          (λ p _. migrate_path-Keeps p m)

    pub finish-Keeps :
        (r : SetupReport) (s : d.State)
        → is_applied config.comment_tag r.applied o ≡ false
        → In o (law.view s q)
        → In o (law.view (finish d client_tag config (r, s)).1 q)
    unfolding finish
    finish-Keeps r s m h = elim (Option-cases r.failed) [
      | inl e ↦ rw e h
      | inr (f, e) ↦ rw e (rollback-Keeps r.applied m s h)
    ]
