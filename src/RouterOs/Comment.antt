-- ===== src/RouterOs/Comment.antt =====
-- Structured comments of RouterOS objects: routeros/client.rs, and `comment_for_kind` and the kind
-- labels of routeros/provisioner.rs.
pub mod Laws
pub mod Entries
use snx_edge.Common.{
  Text, codes, text_eq, strip_prefix, starts_with, split, trim, any, Bool, true, false, not, ◌&&◌,
  ◌||◌, ℕ, ◌==◌, [], ◌∷◌, ◌++◌, Option, none, some, if◌then◌else◌,
}

abbrev pub semicolon : ℕ
semicolon = b';'

-- The bare prefix, or the prefix followed by `;`.
abbrev pub is_field_end : Option Text → Bool
is_field_end none = false
is_field_end (some []) = true
is_field_end (some (c ∷ rest)) = c == semicolon

unfoldable pub comment_matches_tag : Text → Text → Bool
comment_matches_tag comment tag_prefix =
    is_field_end (strip_prefix tag_prefix comment)
    || any (λ kv. text_eq (trim kv) tag_prefix) (split semicolon comment)

unfoldable pub comment_is_legacy : Text → Text → Bool
comment_is_legacy comment tag_prefix =
    comment_matches_tag comment tag_prefix
    && not (any (λ kv. starts_with (codes "kind=") (trim kv)) (split semicolon comment))

unfoldable pub comment_matches_kind : Text → Text → Text → Bool
comment_matches_kind comment tag_prefix kind =
    if comment_matches_tag comment tag_prefix
    then any (λ kv. text_eq (trim kv) (codes "kind=" ++ kind)) (split semicolon comment)
    else false

unfoldable pub comment_for_kind : Text → Text → Text
comment_for_kind tag_prefix kind = tag_prefix ++ (codes ";kind=" ++ kind)

-- The comment that `add_address` writes: the optional note is a further field.
unfoldable pub entry_comment : Text → Text → Option Text → Text
unfolding comment_for_kind
entry_comment tag kind none = comment_for_kind tag kind
entry_comment tag kind (some note) = comment_for_kind tag kind ++ (codes ";note=" ++ note)

abbrev pub kind_routing_table : Text
kind_routing_table = codes "routing-table"

abbrev pub kind_mangle_conn_mark : Text
kind_mangle_conn_mark = codes "mangle-conn-mark"

abbrev pub kind_mangle_routing_mark : Text
kind_mangle_routing_mark = codes "mangle-routing-mark"

abbrev pub kind_default_route : Text
kind_default_route = codes "default-route"

abbrev pub kind_kill_switch : Text
kind_kill_switch = codes "kill-switch"

abbrev pub kind_dns_dst_nat : Text
kind_dns_dst_nat = codes "dns-dst-nat"

abbrev pub kind_dot_block : Text
kind_dot_block = codes "dot-block"

abbrev pub kind_fasttrack_bypass : Text
kind_fasttrack_bypass = codes "fasttrack-bypass"

abbrev pub kind_rfc1918_bypass : Text
kind_rfc1918_bypass = codes "rfc1918-bypass"

abbrev pub kind_mss_clamp : Text
kind_mss_clamp = codes "mss-clamp"
