-- ===== src/Prelude/Numerals.antt =====
-- Decimal numerals, as `%d` and `strconv` print them.
use Prim.Native.Nat.{ℕ, zero, suc, ◌+◌, ◌/◌, ◌%◌}
use mathlib.Core.List.{[], ◌∷◌}
use csghub_server.Prelude.Tests.{ltb, if◌then◌else◌}
use csghub_server.Prelude.Integers.{ℤ, pos, negsuc}
use csghub_server.Prelude.Texts.{Text}

-- The digits of `n` in front of `out`; `n + 1` rounds of fuel are enough.
abbrev digits : ℕ → ℕ → Text → Text
digits zero n out = out
digits (suc f) n out =
    let rest = digits f (n / 10) ((b'0' + n % 10) ∷ out) in
    if ltb n 10 then (b'0' + n) ∷ out else rest

abbrev pub decimal : ℕ → Text
decimal n = digits (n + 1) n []

abbrev pub decimal_ℤ : ℤ → Text
decimal_ℤ (pos n) = decimal n
decimal_ℤ (negsuc n) = b'-' ∷ decimal (suc n)
