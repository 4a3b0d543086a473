-- ===== src/Prelude/Decimal.antt =====
-- `{}` of an unsigned number: its decimal digits.
pub mod Reading
use Prim.Native.Nat.{ℕ, zero, suc, ◌/◌, ◌%◌}
use Prim.Native.String.{String, ◌++◌ as ◌<>◌}
use mathlib.Core.Path.{◌≡◌, refl}
use polymarket_indexer.Prelude.Tests.{ltb, if◌then◌else◌}

abbrev pub digit : ℕ → String
digit zero = "0"
digit (suc zero) = "1"
digit (suc (suc zero)) = "2"
digit (suc (suc (suc zero))) = "3"
digit (suc (suc (suc (suc zero)))) = "4"
digit (suc (suc (suc (suc (suc zero))))) = "5"
digit (suc (suc (suc (suc (suc (suc zero)))))) = "6"
digit (suc (suc (suc (suc (suc (suc (suc zero))))))) = "7"
digit (suc (suc (suc (suc (suc (suc (suc (suc zero)))))))) = "8"
digit _ = "9"

-- One round for each digit, so `n + 1` rounds are enough.
unfoldable pub decimal_onto : ℕ → ℕ → String → String
decimal_onto zero n rest = rest
decimal_onto (suc f) n rest =
    let more = decimal_onto f (n / 10) (digit (n % 10) <> rest) in
    if ltb n 10 then digit n <> rest else more

unfoldable pub decimal : ℕ → String
unfolding decimal_onto
decimal n = decimal_onto (suc n) n ""

decimal_runs : decimal 1024 ≡ "1024"
unfolding decimal
decimal_runs = refl
