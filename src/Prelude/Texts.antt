-- ===== src/Prelude/Texts.antt =====
-- Texts: the tests of JavaScript that the program makes on strings.
use Prim.Native.Nat.{ℕ, zero, suc, ◌/◌, ◌%◌}
use Prim.Native.String.{String, ◌++◌}
use mathlib.Core.Bool.{Bool}
use ff_web_hid.Prelude.Tests.{if◌then◌else◌, ltb}
use ff_web_hid.Prelude.Equality.{◌==◌, string_eq}

-- `!s` of a string that may be missing: the empty text stands for `undefined` and `null` too.
abbrev pub is_blank : String → Bool
is_blank s = s == ""

-- `s || other`
abbrev pub or_else : String → String → String
or_else s other = if is_blank s then other else s

digit : ℕ → String
digit zero = "0"
digit (suc zero) = "1"
digit (suc (suc zero)) = "2"
digit (suc (suc (suc zero))) = "3"
digit (suc (suc (suc (suc zero)))) = "4"
digit (suc (suc (suc (suc (suc zero))))) = "5"
digit (suc (suc (suc (suc (suc (suc zero)))))) = "6"
digit (suc (suc (suc (suc (suc (suc (suc zero))))))) = "7"
digit (suc (suc (suc (suc (suc (suc (suc (suc zero)))))))) = "8"
digit _ = "9"

decimal_loop : ℕ → ℕ → String
unfolding digit
decimal_loop zero n = digit (n % 10)
decimal_loop (suc fuel) n =
    let high = decimal_loop fuel (n / 10) in if ltb n 10 then digit n else high ++ digit (n % 10)

-- `String(n)` of a natural number; `n` rounds are more than it has digits.
unfoldable pub decimal : ℕ → String
unfolding decimal_loop
decimal n = decimal_loop n n
