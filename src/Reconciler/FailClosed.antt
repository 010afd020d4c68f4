-- ===== src/Reconciler/FailClosed.antt =====
-- The route of a tunnel that has gone down (`apply` of reconciler.rs).
use mathlib.Core.Path.{subst}
use snx_edge.Common.{◌≡◌, refl, ap, ◌∙◌, Bool, true, false, some, Text, In}
use snx_edge.Errors.{Result, ok, err, M, then_run}
use snx_edge.RouterOs.Device.{Device, Object, Lawful, route}
use snx_edge.RouterOs.Provisioner.{RouterOsConfig}
use snx_edge.RouterOs.Setup.{clear_default_route}
use snx_edge.RouterOs.FailClosed.{is_default_route, clear_default_route-clears}
use snx_edge.Net.{Host, cleanup_managed_iptables_rules}
use snx_edge.Supervisor.{ConnectionStatus}
use snx_edge.Reconciler.{disengage, decide}
use snx_edge.Reconciler.Apply.{apply, on_host, react, on_event, disengage_corp_dns}

module _ (h : Host) (is_ip is_ipv4 : Text → Bool) (d : Device) (config : RouterOsConfig) where
  -- With a client at hand, `apply` of a disengagement has the result of `clear_default_route` and
  -- does to the router what that does, whatever the container's programs and files answer.
  pub disengage-clear_default_route :
      (status : ConnectionStatus) (client_tag : Text) (s : h.State) (r : d.State)
      → let done = apply h is_ip is_ipv4 d client_tag config true status disengage (s, r) in
        (done.0 ≡ (clear_default_route d client_tag config r).0)
        × (done.1.1 ≡ (clear_default_route d client_tag config r).1)
  unfolding apply disengage_corp_dns
  disengage-clear_default_route status client_tag s r =
      go (clear_default_route d client_tag config r) (cleanup_managed_iptables_rules h s).1
    where
      dns : M (h.State × d.State) (Unit {0})
      dns = on_host h is_ip is_ipv4 d client_tag config true (disengage_corp_dns h is_ip is_ipv4)

      go :
          (q : Result (Unit {0}) × d.State) (t : h.State)
          → let done = then_run q.0 (λ _. dns) (t, q.1) in (done.0 ≡ q.0) × (done.1.1 ≡ q.1)
      go (ok tt, r') t = (refl, refl)
      go (err e, r') t = (refl, refl)

  -- When the reconciler reads a status for which it decides to disengage and the requests that
  -- remove the default route succeed, a lawful router is left without a route whose comment
  -- matches the kind of the default route, whatever the container's programs and files answer.
  pub on_event-clears :
      (law : Lawful d) (status later : ConnectionStatus) (s : h.State) (r : d.State) (o : Object)
      → decide status ≡ some disengage
      → (clear_default_route d config.comment_tag config r).0 ≡ ok tt
      → In o (
          law.view
            (on_event h is_ip is_ipv4 d config.comment_tag config true status later (s, r)).1.1
            route)
      → is_default_route config.comment_tag o ≡ false
  unfolding on_event
  on_event-clears law status later s r o down cleared here =
      let tag = config.comment_tag in
      let event = on_event h is_ip is_ipv4 d tag config true status later (s, r) in
      let applied = apply h is_ip is_ipv4 d tag config true later disengage (s, r) in
      let reacted : event.1 ≡ applied.1 =
        ap (λ a. (react h is_ip is_ipv4 d tag config true later a (s, r)).1) down in
      let (_, same) = disengage-clear_default_route later tag s r in
      clear_default_route-clears d law config o r cleared
        (subst (λ t. In o (law.view t route)) (ap (λ t. t.1) reacted ∙ same) here)
