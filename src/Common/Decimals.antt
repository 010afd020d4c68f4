-- ===== src/Common/Decimals.antt =====
-- `str::parse` for unsigned integers.
use Prim.Native.Nat.{ℕ, ◌+◌, ◌*◌, ◌-◌, ◌≤◌}
use mathlib.Core.Path.{◌≡◌}
use mathlib.Core.Bool.{true, ◌&&◌}
use mathlib.Core.Option.{Option, none, some}
use mathlib.Core.List.{[], ◌∷◌}
use mathlib.Core.Logic.{inl, inr}
use native.Mathlib.Omega.{arith}
use snx_edge.Common.Tests.{leb, ◌==◌, if◌then◌else◌, Bool-cases}
use snx_edge.Common.Texts.{Text}

-- What the digits so far come to, and the digits that follow. A number above `max` overflows.
unfoldable pub parse_digits : ℕ → ℕ → Text → Option ℕ
parse_digits max n [] = some n
parse_digits max n (c ∷ s) =
    let m = n * 10 + (c - 48) in
    let rest = parse_digits max m s in if leb 48 c && leb c 57 && leb m max then rest else none

abbrev pub parse_unsigned : ℕ → Text → Option ℕ
parse_unsigned max [] = none
parse_unsigned max (c ∷ s) = parse_digits max 0 (c ∷ s)

abbrev pub parse_signed : ℕ → Text → Option ℕ
parse_signed max [] = none
parse_signed max (c ∷ s) = if c == 43 then parse_unsigned max s else parse_unsigned max (c ∷ s)

-- A leading `+` is taken.
unfoldable pub parse_uint : ℕ → Text → Option ℕ
unfolding parse_digits
parse_uint max s = parse_signed max s

pub parse_digits-bound :
    (max n m : ℕ) (s : Text) → n ≤ max → parse_digits max n s ≡ some m → m ≤ max
unfolding parse_digits
parse_digits-bound max n m [] le h = let is : n ≡ m = cc in omega (arith, is, le)
parse_digits-bound max n m (c ∷ s) le h =
    elim (Bool-cases (leb 48 c && leb c 57 && leb (n * 10 + (c - 48)) max)) [
      | inl e ↦ parse_digits-bound max (n * 10 + (c - 48)) m s (fits e) (rw e at h)
      | inr e ↦ (let never : none ≡ some m = rw e at h in cc never)
    ]
  where
    fits : (leb 48 c && leb c 57 && leb (n * 10 + (c - 48)) max) ≡ true → n * 10 + (c - 48) ≤ max
    fits e = ground (arith, e)
