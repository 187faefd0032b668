-- ===== src/Prelude/Texts.antt =====
-- Texts: their bytes in UTF-8, and their part before the first NUL, which C functions read.
use Prim.Native.Nat.{ℕ, zero, ◌+◌}
use Prim.Native.Char.{code}
use Prim.Native.String.{String}
use trading_bot_v.Prelude.Tests.{ltb, ◌==◌, if◌then◌else◌}

-- the bytes of the character with this code
abbrev width : ℕ → ℕ
width c = if ltb c 128 then 1 else if ltb c 2048 then 2 else if ltb c 65536 then 3 else 4

abbrev pub bytes : String → ℕ
bytes String.[] = zero
bytes (String.◌∷◌ c s) = width (code c) + bytes s

abbrev pub c_string : String → String
c_string String.[] = String.[]
c_string (String.◌∷◌ c s) = if code c == 0 then String.[] else String.◌∷◌ c (c_string s)
