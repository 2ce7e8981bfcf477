-- ===== src/Base/Decimal.antt =====
-- What `%d` prints of a number that is not negative.
pub mod Read
use Prim.Native.Nat.{ℕ, zero, suc, ◌+◌, ◌/◌, ◌%◌}
use mathlib.Core.List.{List, [], ◌∷◌}
use diald_top.Base.Tests.{ltb, if◌then◌else◌}

-- Digits are put in front of `acc`, the last one first; a number has fewer digits than its value
-- plus one.
unfoldable pub decimal_from : (fuel n : ℕ) → List ℕ → List ℕ
decimal_from zero n acc = acc
decimal_from (suc fuel) n acc =
    let rest = decimal_from fuel (n / 10) ((n % 10 + 48) ∷ acc) in
    if ltb n 10 then (n + 48) ∷ acc else rest

unfoldable pub decimal : ℕ → List ℕ
unfolding decimal_from
decimal n = decimal_from (suc n) n []
