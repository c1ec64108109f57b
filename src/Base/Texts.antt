-- ===== src/Base/Texts.antt =====
-- Texts: numbers in decimal, as a template string writes them, and the length in UTF-16 units.
use Prim.Native.Nat.{ℕ, zero, suc, ◌+◌, ◌-◌, ◌/◌, ◌%◌}
use Prim.Native.Char.{code}
use Prim.Native.String.{String, ◌++◌}
use eacl_demo.Base.Tests.{ltb, if◌then◌else◌}

abbrev pub digit : ℕ → String
digit zero = "0"
digit (suc zero) = "1"
digit (suc (suc zero)) = "2"
digit (suc (suc (suc zero))) = "3"
digit (suc (suc (suc (suc zero)))) = "4"
digit (suc (suc (suc (suc (suc zero))))) = "5"
digit (suc (suc (suc (suc (suc (suc zero)))))) = "6"
digit (suc (suc (suc (suc (suc (suc (suc zero))))))) = "7"
digit (suc (suc (suc (suc (suc (suc (suc (suc zero)))))))) = "8"
digit _ = "9"

decimal_loop : ℕ → ℕ → String
decimal_loop zero n = ""
decimal_loop (suc fuel) n =
    let rest = decimal_loop fuel (n / 10) ++ digit (n % 10) in if ltb n 10 then digit n else rest

-- Each round drops a digit, so `n + 1` rounds are enough.
unfoldable pub decimal : ℕ → String
unfolding decimal_loop
decimal n = decimal_loop (suc n) n

-- `text.length`: a character outside the basic plane counts twice.
abbrev pub units : String → ℕ
units String.[] = 0
units (String.◌∷◌ c s) = (if ltb (code c) 0x10000 then 1 else 2) + units s

-- `text.slice(0, n)`. A character that stands half behind the cut is left out whole.
unfoldable pub slice : ℕ → String → String
slice n String.[] = ""
slice n (String.◌∷◌ c s) =
    let width = if ltb (code c) 0x10000 then 1 else 2 in
    let rest = slice (n - width) s in if ltb n width then "" else String.◌∷◌ c rest
