-- ===== src/Base/Decimal.antt =====
-- `std::to_string` of an unsigned number.
use vhdp.Base.Tests.{ltb, if◌then◌else◌}
use vhdp.Base.Text.{Bytes}
use Prim.Native.Nat.{ℕ, zero, suc, ◌+◌, ◌/◌, ◌%◌}
use mathlib.Core.List.{[], ◌∷◌}

-- The digits of `n` in front of `rest`; `n + 1` rounds are enough, as each divides by ten.
unfoldable pub digits_onto : ℕ → ℕ → Bytes → Bytes
digits_onto zero n rest = rest
digits_onto (suc rounds) n rest =
    let out = (b'0' + n % 10) ∷ rest in
    let more = digits_onto rounds (n / 10) out in if ltb n 10 then out else more

unfoldable pub to_string : ℕ → Bytes
unfolding digits_onto
to_string n = digits_onto (suc n) n []
