-- ===== src/Net.antt =====
-- The network plumbing of the container (apps/snx-edge-server/src/net.rs). The programs that it runs
-- and the files are a parameter. The server only logs an anyhow error: all of them are `internal`.
pub mod Masquerade
mod Tests
use mathlib.Core.List.{reverse}
use snx_edge.Common.{
  ℕ, Bool, true, false, ◌||◌, List, [], ◌∷◌, ◌++◌, Option, none, some, Text, codes, strip_prefix,
  starts_with, split, is_whitespace, ◌==◌, if◌then◌else◌,
}
use snx_edge.Errors.{internal, ok, M, ◌>>=◌, ◌>>◌, return, fail, for_each}

-- What a program that has ended leaves behind, its output read as text.
pub record Output : Type 0 where
  pub success : Bool
  pub stdout : Text

pub record Host : Type 1 where
  pub State : Type 0
  -- `none` where the program does not start.
  pub run : Text → List Text → State → Option Output × State
  pub write_file : Text → Text → State → Bool × State
  pub read_file : Text → State → Option Text × State

abbrev pub succeeded : Option Output → Bool
succeeded none = false
succeeded (some out) = out.success

abbrev pub is_empty : Text → Bool
is_empty [] = true
is_empty (c ∷ s) = false

abbrev pub managed_tag : Text
managed_tag = codes "managed-by=snx-edge"

-- `str::lines`
abbrev strip_return : Text → Text
strip_return [] = []
strip_return (c ∷ []) = if c == 13 then [] else c ∷ []
strip_return (c ∷ d ∷ s) = c ∷ strip_return (d ∷ s)

abbrev lines_of : List Text → List Text
lines_of [] = []
lines_of (last ∷ []) = if is_empty last then [] else last ∷ []
lines_of (line ∷ next ∷ rest) = strip_return line ∷ lines_of (next ∷ rest)

unfoldable pub lines : Text → List Text
lines s = lines_of (split 10 s)

-- `str::contains`
unfoldable pub contains : Text → Text → Bool
contains p [] = starts_with p []
contains p (c ∷ s) = starts_with p (c ∷ s) || contains p s

-- `str::split_whitespace`. The helper carries the word so far, in reverse.
abbrev push_word : Text → List Text → List Text
push_word word words = if is_empty word then words else reverse word ∷ words

unfoldable pub words_from : Text → Text → List Text
words_from word [] = push_word word []
words_from word (c ∷ s) =
    let cut = push_word word (words_from [] s) in
    let longer = words_from (c ∷ word) s in if is_whitespace c then cut else longer

unfoldable pub split_whitespace : Text → List Text
split_whitespace s = words_from [] s

-- The rule without the operation on it.
unfoldable pub base_masquerade : Text → Text → List Text
base_masquerade op iface =
    codes "-t"
    ∷ codes "nat"
    ∷ op
    ∷ codes "POSTROUTING"
    ∷ codes "-o"
    ∷ iface
    ∷ codes "-j"
    ∷ codes "MASQUERADE"
    ∷ codes "-m"
    ∷ codes "comment"
    ∷ codes "--comment"
    ∷ managed_tag
    ∷ []

unfoldable pub masquerade_add_args : Text → List Text
masquerade_add_args iface = base_masquerade (codes "-A") iface

unfoldable pub masquerade_check_args : Text → List Text
masquerade_check_args iface = base_masquerade (codes "-C") iface

abbrev pub list_args : List Text
list_args = codes "-t" ∷ codes "nat" ∷ codes "-S" ∷ codes "POSTROUTING" ∷ []

abbrev pub delete_args : Text → List Text
delete_args rest = codes "-t" ∷ codes "nat" ∷ codes "-D" ∷ split_whitespace rest

module _ (h : Host) where
  abbrev pub run_program : Text → List Text → M h.State (Option Output)
  run_program program args s = (ok (h.run program args s).0, (h.run program args s).1)

  unfoldable pub run_iptables : List Text → M h.State (Option Output)
  run_iptables args = run_program (codes "iptables") args

  -- A step of which only the log hears whether it has failed.
  abbrev pub ignored : M h.State (Unit {0}) → M h.State (Unit {0})
  ignored m s = (ok tt, (m s).1)

  unfoldable pub apply_vpn_masquerade : Text → M h.State (Unit {0})
  apply_vpn_masquerade iface = if is_empty iface then fail internal else (do
    checked ← run_iptables (masquerade_check_args iface)
    if succeeded checked then return tt else (do
      added ← run_iptables (masquerade_add_args iface)
      if succeeded added then return tt else fail internal))

  abbrev delete_rule : Option Text → M h.State (Unit {0})
  delete_rule none = return tt
  delete_rule (some rest) = do _ ← run_iptables (delete_args rest); return tt

  unfoldable pub delete_line : Text → M h.State (Unit {0})
  delete_line line =
      if contains managed_tag line then delete_rule (strip_prefix (codes "-A ") line) else return tt

  abbrev delete_listed : Option Output → M h.State (Unit {0})
  delete_listed none = fail internal
  delete_listed (some out) =
      if out.success then for_each delete_line (lines out.stdout) else fail internal

  unfoldable pub cleanup_managed_iptables_rules : M h.State (Unit {0})
  cleanup_managed_iptables_rules = do listed ← run_iptables list_args; delete_listed listed
