-- ===== src/Net/Masquerade.antt =====
-- The masquerade rule of the tunnel's interface (`apply_vpn_masquerade` of net.rs).
use snx_edge.Common.{◌≡◌, refl, Bool, true, false, List, [], ◌∷◌, Text, codes, if◌then◌else◌}
use snx_edge.Errors.{ok, internal, M, return, fail, ◌>>=◌}
use snx_edge.Net.{
  Host, succeeded, base_masquerade, masquerade_add_args, masquerade_check_args, run_iptables,
  apply_vpn_masquerade,
}

-- A rule of a table's chain for the packets that leave by an interface.
pub record Rule : Type 0 where
  pub table : Text
  pub chain : Text
  pub out_interface : Text
  pub jump : Text
  pub comment : Text

-- The command line of an operation on a rule, in the syntax of iptables.
abbrev pub rule_args : Text → Rule → List Text
rule_args op r =
    codes "-t"
    ∷ r.table
    ∷ op
    ∷ r.chain
    ∷ codes "-o"
    ∷ r.out_interface
    ∷ codes "-j"
    ∷ r.jump
    ∷ codes "-m"
    ∷ codes "comment"
    ∷ codes "--comment"
    ∷ r.comment
    ∷ []

-- What iptables documents of `-C` and `-A`, for any rule; `Has` says that a rule is in the tables.
pub record Tables (h : Host) : Type 1 where
  pub Has : Rule → h.State → Type 0
  -- `-C` succeeds only on a rule that is there, and leaves it.
  pub check_finds :
      (r : Rule) (s : h.State)
      → succeeded (h.run (codes "iptables") (rule_args (codes "-C") r) s).0 ≡ true
      → Has r (h.run (codes "iptables") (rule_args (codes "-C") r) s).1
  -- `-A` adds the rule where it succeeds.
  pub add_adds :
      (r : Rule) (s : h.State)
      → succeeded (h.run (codes "iptables") (rule_args (codes "-A") r) s).0 ≡ true
      → Has r (h.run (codes "iptables") (rule_args (codes "-A") r) s).1

-- The packets that leave by the interface get its address; the comment is the server's tag.
abbrev pub masquerade_rule : Text → Rule
masquerade_rule iface = record {
  table = codes "nat";
  chain = codes "POSTROUTING";
  out_interface = iface;
  jump = codes "MASQUERADE";
  comment = codes "managed-by=snx-edge";
}

module _ (h : Host) (tables : Tables h) where
  -- After an `apply_vpn_masquerade` that succeeds, the tables have the rule of the chain
  -- POSTROUTING of the table nat that masquerades what leaves by the interface, with the server's
  -- tag as its comment, if, for every rule that is written in the syntax of iptables, a check
  -- succeeds only on a rule that is there and an addition that succeeds adds the rule.
  pub apply_vpn_masquerade-Has :
      (iface : Text) (s : h.State)
      → (apply_vpn_masquerade h iface s).0 ≡ ok tt
      → tables.Has (masquerade_rule iface) (apply_vpn_masquerade h iface s).1
  unfolding apply_vpn_masquerade run_iptables masquerade_check_args masquerade_add_args
      base_masquerade
  apply_vpn_masquerade-Has [] s done = cc
  apply_vpn_masquerade-Has (c ∷ iface) s done =
      let q = h.run (codes "iptables") (masquerade_check_args (c ∷ iface)) s in
      checked (succeeded q.0) q.1 (tables.check_finds (masquerade_rule (c ∷ iface)) s) done
    where
      name : Text
      name = c ∷ iface

      ending : Bool → M h.State (Unit {0})
      ending b = if b then return tt else fail internal

      add : M h.State (Unit {0})
      add = run_iptables h (masquerade_add_args name) >>= λ out. ending (succeeded out)

      added :
          (b : Bool) (t : h.State)
          → (b ≡ true → tables.Has (masquerade_rule name) t)
          → (ending b t).0 ≡ ok tt
          → tables.Has (masquerade_rule name) (ending b t).1
      added true t adds e = adds refl
      added false t adds e = cc

      checked :
          (b : Bool) (t : h.State)
          → (b ≡ true → tables.Has (masquerade_rule name) t)
          → ((if b then return tt else add) t).0 ≡ ok tt
          → tables.Has (masquerade_rule name) ((if b then return tt else add) t).1
      checked true t finds e = finds refl
      checked false t finds e =
          let q = h.run (codes "iptables") (masquerade_add_args name) t in
          added (succeeded q.0) q.1 (tables.add_adds (masquerade_rule name) t) e
