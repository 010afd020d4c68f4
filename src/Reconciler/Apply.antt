-- ===== src/Reconciler/Apply.antt =====
-- How the reconciler brings the data plane into line (`apply` and `run` of
-- apps/snx-edge-server/src/reconciler.rs), and the container's address (api/routing.rs).
use snx_edge.Common.{
  ℕ, zero, suc, Bool, List, [], ◌∷◌, Option, none, some, Text, codes, split, trim, if◌then◌else◌,
}
use snx_edge.Errors.{internal, Result, ok, err, M, ◌>>=◌, ◌>>◌, return, fail, lift, ok_or}
use snx_edge.RouterOs.Device.{Device}
use snx_edge.RouterOs.Provisioner.{RouterOsConfig}
use snx_edge.RouterOs.Setup.{set_default_route_present, clear_default_route}
use snx_edge.Net.{
  Host, Output, is_empty, succeeded, run_program, ignored, split_whitespace, apply_vpn_masquerade,
  cleanup_managed_iptables_rules,
}
use snx_edge.Supervisor.{ConnectionStatus, connected, connecting, disconnected, mfa, error}
use snx_edge.Reconciler.{Action, engage, disengage, decide, render_corp_dnsmasq}

abbrev pub corp_servers_file : Text
corp_servers_file = codes "/var/lib/snx-edge/corp-servers.conf"

abbrev pub dnsmasq_pidfile : Text
dnsmasq_pidfile = codes "/run/dnsmasq.pid"

abbrev pub nth : {A : Type 0} → ℕ → List A → Option A
nth n [] = none
nth zero (x ∷ xs) = some x
nth (suc n) (x ∷ xs) = nth n xs

abbrev first_or_none : List Text → Option Text
first_or_none [] = none
first_or_none (s ∷ ss) = some s

-- `is_ip` says whether the parser of IP addresses takes a text, `is_ipv4` that of IPv4.
module _ (h : Host) (is_ip : Text → Bool) (is_ipv4 : Text → Bool) where
  unfoldable pub reload_dnsmasq : M h.State (Unit {0})
  reload_dnsmasq = do
    read ← (λ s. (ok (h.read_file dnsmasq_pidfile s).0, (h.read_file dnsmasq_pidfile s).1))
    contents ← lift (ok_or internal read)
    if is_empty (trim contents) then fail internal else (do
      out ← run_program h (codes "kill") (codes "-HUP" ∷ trim contents ∷ [])
      if succeeded out then return tt else fail internal)

  unfoldable pub write_corp_servers_and_reload : Text → M h.State (Unit {0})
  write_corp_servers_and_reload contents = do
    written ← (λ s. (
      ok (h.write_file corp_servers_file contents s).0,
      (h.write_file corp_servers_file contents s).1,
    ))
    if written then reload_dnsmasq else fail internal

  -- The status is read again, for it may have changed since the event.
  unfoldable pub engage_corp_dns : ConnectionStatus → M h.State (Unit {0})
  engage_corp_dns (connected info) = ignored h (
      write_corp_servers_and_reload
        (render_corp_dnsmasq is_ip info.dns_servers info.search_domains))
  engage_corp_dns connecting = return tt
  engage_corp_dns disconnected = return tt
  engage_corp_dns (mfa kind prompt) = return tt
  engage_corp_dns (error message) = return tt

  unfoldable pub disengage_corp_dns : M h.State (Unit {0})
  disengage_corp_dns = ignored h (write_corp_servers_and_reload [])

  abbrev address_of : Option Output → Result Text
  address_of none = err internal
  address_of (some out) =
      if out.success then ok_or internal (nth 3 (split_whitespace out.stdout)) else err internal

  unfoldable pub detect_container_ip : M h.State Text
  detect_container_ip = do
    out ←
        run_program h (codes "ip")
          (codes "-4" ∷ codes "-o" ∷ codes "addr" ∷ codes "show" ∷ codes "eth0" ∷ [])
    cidr ← lift (address_of out)
    ip ← lift (ok_or internal (first_or_none (split 47 cidr)))
    if is_ipv4 ip then return ip else fail internal

  -- `client_ready` says whether `routeros_client` gives a client, which has the tag `client_tag`.
  module _ (d : Device) (client_tag : Text) (config : RouterOsConfig) (client_ready : Bool) where
    abbrev pub on_host : {A : Type 0} → M h.State A → M (h.State × d.State) A
    on_host m (s, r) = ((m s).0, ((m s).1, r))

    abbrev pub on_router : {A : Type 0} → M d.State A → M (h.State × d.State) A
    on_router m (s, r) = ((m r).0, (s, (m r).1))

    unfoldable pub apply : ConnectionStatus → Action → M (h.State × d.State) (Unit {0})
    apply status (engage iface) = do
      on_host (apply_vpn_masquerade h iface)
      (if client_ready
          then (do
            ip ← on_host detect_container_ip
            on_router (set_default_route_present d client_tag config ip))
          else return tt)
      on_host (engage_corp_dns status)
    apply status disengage = do
      on_host (ignored h (cleanup_managed_iptables_rules h))
      (if client_ready then on_router (clear_default_route d client_tag config) else return tt)
      on_host disengage_corp_dns

    -- `run` on one event: the status that it reads, and the one that `engage_corp_dns` reads. A
    -- failure is logged.
    abbrev pub react : ConnectionStatus → Option Action → M (h.State × d.State) (Unit {0})
    react later none s = (ok tt, s)
    react later (some action) s = (ok tt, (apply later action s).1)

    unfoldable pub on_event : ConnectionStatus → ConnectionStatus → M (h.State × d.State) (Unit {0})
    on_event status later = react later (decide status)
