-- ===== src/Reconciler/Tests.antt =====
-- The theorem on the DNS forwarder's file, applied to a gateway that tries to inject a server.
use snx_edge.Common.{
  ◌≡◌, refl, inl, Bool, true, false, none, text_eq, strip_prefix, split, split_from, trim,
  trim_start, is_whitespace, ◌&&◌, ◌||◌, List, [], ◌∷◌, ◌++◌, Text, codes, all, leb, ◌==◌, arith,
}
use snx_edge.Errors.{for_each}
use snx_edge.Supervisor.{disconnected}
use snx_edge.Net.{Host, run_iptables, cleanup_managed_iptables_rules}
use snx_edge.RouterOs.Comment.{comment_matches_tag, comment_matches_kind}
use snx_edge.RouterOs.Device.{field, id_of, is_success}
use snx_edge.RouterOs.Client.{
  list_managed, get_list, delete, receive, receive_status, decode_all, decodes, is_object_id,
}
use snx_edge.RouterOs.Setup.{clear_default_route}
use snx_edge.RouterOs.FailClosed.{is_default_route}
use snx_edge.RouterOs.TestRouter.{tag, router_config, foreign_route, router, router-Lawful}
use snx_edge.Reconciler.Apply.{apply, on_event, disengage_corp_dns, write_corp_servers_and_reload}
use snx_edge.Reconciler.FailClosed.{on_event-clears}
use snx_edge.Reconciler.{decide, newline, render_corp_dnsmasq}
use snx_edge.Reconciler.Injection.{Lines, one_line, render_corp_dnsmasq-Lines}

-- Digits and dots: enough of the addresses.
abbrev is_address : Text → Bool
is_address = all (λ c. (leb 48 c && leb c 57) || c == 46)

is_address-one_line : (s : Text) → is_address s ≡ true → one_line s ≡ true
is_address-one_line [] h = refl
is_address-one_line (c ∷ s) h = ground (arith, is_address-one_line s)

abbrev named_servers : List Text
named_servers = codes "10.1.1.53" ∷ codes "dns.example" ∷ []

abbrev named_domains : List Text
named_domains =
    codes "~corp.example" ∷ (codes "corp.example" ++ newline ∷ codes "server=8.8.8.8") ∷ []

render_corp_dnsmasq-Lines_example :
    Lines is_address named_servers named_domains
      (render_corp_dnsmasq is_address named_servers named_domains)
render_corp_dnsmasq-Lines_example =
    render_corp_dnsmasq-Lines is_address is_address-one_line named_servers named_domains

-- A container in which nothing works.
abbrev broken_host : Host
broken_host = record {
  State = Unit {0};
  run = λ program args s. (none, s);
  write_file = λ path contents s. (false, s);
  read_file = λ path s. (none, s);
}

on_event-clears_example : is_default_route tag foreign_route ≡ false
on_event-clears_example =
    on_event-clears broken_host is_address is_address router router_config router-Lawful
      disconnected disconnected tt (true, true) foreign_route (unfold decide in refl)
      (unfold clear_default_route list_managed get_list delete receive receive_status decode_all
          decodes is_success is_object_id comment_matches_tag comment_matches_kind field id_of
          for_each text_eq strip_prefix split split_from trim trim_start is_whitespace in
        refl)
      (unfold on_event decide apply cleanup_managed_iptables_rules run_iptables disengage_corp_dns
          write_corp_servers_and_reload clear_default_route list_managed get_list delete receive
          receive_status decode_all decodes is_success is_object_id comment_matches_tag
          comment_matches_kind field id_of for_each text_eq strip_prefix split split_from trim
          trim_start is_whitespace in
        (inl refl))
