-- ===== src/Net/Tests.antt =====
-- A container whose tables are a list of the interfaces that they masquerade (net.rs).
use snx_edge.Common.{
  ◌≡◌, refl, Bool, true, false, ◌&&◌, List, [], ◌∷◌, Option, none, some, Text, codes, text_eq,
  text_eq_refl, any, is_whitespace, if◌then◌else◌,
}
use snx_edge.Net.{
  Host, Output, base_masquerade, masquerade_add_args, masquerade_check_args, run_iptables,
  apply_vpn_masquerade, split_whitespace, words_from,
}
use snx_edge.Net.Masquerade.{Rule, masquerade_rule, Tables, apply_vpn_masquerade-Has}

-- The words of a rule that are there, without the operation.
abbrev words_eq : List Text → List Text → Bool
words_eq [] [] = true
words_eq (v ∷ vs) (w ∷ ws) = text_eq v w && words_eq vs ws
words_eq [] (w ∷ ws) = false
words_eq (v ∷ vs) [] = false

words_eq_refl : (ws : List Text) → words_eq ws ws ≡ true
words_eq_refl [] = refl
words_eq_refl (w ∷ ws) = rw (text_eq_refl w) (words_eq_refl ws)

abbrev has : List Text → List (List Text) → Bool
has rule s = any (words_eq rule) s

abbrev ended : Bool → Option Output
ended b = some (record { success = b; stdout = [] })

abbrev operate : Text → List Text → List (List Text) → Option Output × List (List Text)
operate op rule s =
    if text_eq op (codes "-A")
    then (ended true, rule ∷ s)
    else if text_eq op (codes "-C")
    then (ended (has rule s), s)
    else (ended false, s)

abbrev run_tables : Text → List Text → List (List Text) → Option Output × List (List Text)
run_tables program (t ∷ table ∷ op ∷ rest) s = operate op (table ∷ rest) s
run_tables program _ s = (none, s)

abbrev container : Host
container = record {
  State = List (List Text);
  run = run_tables;
  write_file = λ path contents s. (false, s);
  read_file = λ path s. (none, s);
}

abbrev words : Rule → List Text
words r =
    r.table
    ∷ r.chain
    ∷ codes "-o"
    ∷ r.out_interface
    ∷ codes "-j"
    ∷ r.jump
    ∷ codes "-m"
    ∷ codes "comment"
    ∷ codes "--comment"
    ∷ r.comment
    ∷ []

unfoldable container_tables : Tables container
unfolding text_eq
container_tables = record {
  Has = λ r s. has (words r) s ≡ true;
  check_finds = λ r s h. h;
  add_adds = λ r s h. rw (words_eq_refl (words r)) refl;
}

apply_vpn_masquerade-Has_example :
    has
      (words (masquerade_rule (codes "tun0")))
      (words (masquerade_rule (codes "tun0")) ∷ words (masquerade_rule (codes "tun1")) ∷ [])
    ≡ true
unfolding apply_vpn_masquerade run_iptables masquerade_check_args masquerade_add_args
    base_masquerade text_eq container_tables
apply_vpn_masquerade-Has_example =
    apply_vpn_masquerade-Has container container_tables (codes "tun0")
      (words (masquerade_rule (codes "tun1")) ∷ []) refl

test-split_whitespace :
    split_whitespace (codes " POSTROUTING  -o tun0 ")
    ≡ codes "POSTROUTING" ∷ codes "-o" ∷ codes "tun0" ∷ []
unfolding split_whitespace words_from is_whitespace
test-split_whitespace = refl
