-- ===== src/Prelude/Chars.antt =====
-- Texts by their code points, where the code looks at single characters.
use Prim.Native.Nat.{ℕ, ◌+◌}
use Prim.Native.Char.{code}
use Prim.Native.String.{String, [] as empty, ◌∷◌ as char}
use mathlib.Core.Bool.{Bool, true, false, ◌&&◌}
use mathlib.Core.List.{List, [], ◌∷◌, map}
use keviq_core.Prelude.Tests.{leb, ◌==◌, if◌then◌else◌}

abbrev pub Codes : Type 0
Codes = List ℕ

abbrev pub codes : String → Codes
codes empty = []
codes (char c s) = code c ∷ codes s

abbrev pub codes_eq : Codes → Codes → Bool
codes_eq [] [] = true
codes_eq (c ∷ cs) (d ∷ ds) = (c == d) && codes_eq cs ds
codes_eq _ _ = false

-- `A` to `Z`
abbrev pub lower_code : ℕ → ℕ
lower_code c = if leb 65 c && leb c 90 then c + 32 else c

-- `s.lower()`, at the letters of ASCII
abbrev pub lower : Codes → Codes
lower = map lower_code
