-- ===== src/RouterOs/FailClosed.antt =====
-- `clear_default_route`, which the reconciler calls when the tunnel goes down.
use mathlib.Core.Path.{subst}
use snx_edge.Common.{
  ◌≡◌, Bool, true, false, List, Option, none, some, Text, In, In-keep, keep-In, keep, arith,
}
use snx_edge.Errors.{ok, for_each, then_run}
use snx_edge.RouterOs.Comment.{comment_matches_kind, comment_matches_tag, kind_default_route}
use snx_edge.RouterOs.Device.{RestPath, route, Object, field, comment, id_of, Device, Lawful}
use snx_edge.RouterOs.Client.{rule_entry, comment_such, such, get_list, delete, list_managed}
use snx_edge.RouterOs.Provisioner.{RouterOsConfig}
use snx_edge.RouterOs.Setup.{clear_default_route}
use snx_edge.RouterOs.Keeps.{
  Keeps, listing-Keeps, for_each-Keeps, delete_entry-Keeps, then_run-ok, get_list_value,
  get_list_state, return-bind,
}
use snx_edge.RouterOs.Removal.{delete_all, delete_all-clears}

matches_kind→tag :
    (c tag kind : Text) → comment_matches_kind c tag kind ≡ true → comment_matches_tag c tag ≡ true
unfolding comment_matches_kind
matches_kind→tag c tag kind h = ground arith

abbrev pub is_default_route : Text → Object → Bool
is_default_route tag = comment_such (λ c. comment_matches_kind c tag kind_default_route)

is_default_route→managed :
    (tag : Text) (o : Object)
    → is_default_route tag o ≡ true
    → comment_such (λ c. comment_matches_tag c tag) o ≡ true
is_default_route→managed tag o h = go (field comment o) h
  where
    go :
        (c : Option Text)
        → such (λ c. comment_matches_kind c tag kind_default_route) c ≡ true
        → such (λ c. comment_matches_tag c tag) c ≡ true
    go none h = h
    go (some c) h = matches_kind→tag c tag kind_default_route h

module _ (d : Device) (law : Lawful d) (config : RouterOsConfig) where
  -- An object of a lawful router whose comment does not match the kind of the default route is
  -- still there after `clear_default_route`, the kill switch among them, also when a request fails
  -- half-way.
  pub clear_default_route-Keeps :
      (o : Object) (q : RestPath)
      → is_default_route config.comment_tag o ≡ false
      → Keeps d law o q (clear_default_route d config.comment_tag config)
  unfolding clear_default_route list_managed
  clear_default_route-Keeps o q m =
      let managed : Object → Bool = comment_such (λ c. comment_matches_tag c config.comment_tag) in
      let test : Object → Bool = is_default_route config.comment_tag in
      listing-Keeps d law o q rule_entry route (λ objs. keep managed objs)
        (λ routes. for_each (λ r. delete d route (id_of r)) (keep test routes))
        (λ objs apart.
          for_each-Keeps d law o q (λ r. delete d route (id_of r)) (keep test (keep managed objs))
            (λ e k.
              let (in_managed, t) = In-keep test e (keep managed objs) k in
              let (here, _) = In-keep managed e objs in_managed in
              delete_entry-Keeps d law o q route objs test e apart here t m))

  -- After a `clear_default_route` that succeeds, no route of a lawful router has a comment that
  -- matches the kind of the default route.
  pub clear_default_route-clears :
      (o : Object) (s : d.State)
      → (clear_default_route d config.comment_tag config s).0 ≡ ok tt
      → In o (law.view (clear_default_route d config.comment_tag config s).1 route)
      → is_default_route config.comment_tag o ≡ false
  unfolding clear_default_route list_managed
  clear_default_route-clears o s done h =
      let managed : Object → Bool = comment_such (λ c. comment_matches_tag c config.comment_tag) in
      let test : Object → Bool = is_default_route config.comment_tag in
      let m = get_list d rule_entry route in
      let s1 = (m s).1 in
      let entries = λ (objs : List Object). keep test (keep managed objs) in
      let clear = λ (objs : List Object). delete_all d law route (entries objs) in
      let same =
        return-bind (m s).0 (λ objs. keep managed objs)
          (λ routes. for_each (λ r. delete d route (id_of r)) (keep test routes)) s1 in
      let finished : (then_run (m s).0 clear s1).0 ≡ ok tt = subst (λ z. z.0 ≡ ok tt) same done in
      let (objs, listed, deleted) = then_run-ok (m s).0 clear s1 tt finished in
      let left : In o (law.view (clear objs s1).1 route) =
        subst (λ r. In o (law.view (then_run r clear s1).1 route)) listed
          (subst (λ z. In o (law.view z.1 route)) same h) in
      delete_all-clears d law route test (entries objs) o s1
        (λ here t.
          keep-In test o (keep managed objs)
            (keep-In managed o objs
              (rw (get_list_value d law rule_entry route s objs listed)
                (rw (get_list_state d law rule_entry route route s) at here))
              (is_default_route→managed config.comment_tag o t))
            t)
        deleted left
