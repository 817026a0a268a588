-- ===== src/Base/Decimal.antt =====
-- fmt's %d and strconv.FormatInt, in base 10.
use Prim.Native.Nat.{ℕ, zero, suc, ◌+◌, ◌/◌, ◌%◌}
use mathlib.Core.List.{[], ◌∷◌}
use pg_noty.Base.Tests.{ltb, if◌then◌else◌}
use pg_noty.Base.Bytes.{Text}
use pg_noty.Base.Int.{ℤ, pos, negsuc}

-- The fuel is more than the digits of an int64.
abbrev pub digits : ℕ → ℕ → Text → Text
digits zero n rest = rest
digits (suc fuel) n rest =
    let rest' = (48 + n % 10) ∷ rest in
    let longer = digits fuel (n / 10) rest' in if ltb n 10 then rest' else longer

abbrev pub decimal : ℤ → Text
decimal (pos n) = digits 20 n []
decimal (negsuc n) = 45 ∷ digits 20 (suc n) []
