-- ===== src/Artifacts/Hex.antt =====
-- Python's `int(text, 16)`, of which apps/artifact-service/src/domain/artifact.py only asks whether it
-- raises. A text is its code points; the decimal digits outside ASCII, which Python also reads, are not
-- digits here.
pub mod Digests
use keviq_core.Prelude.{
  ℕ, Bool, true, false, not, ◌&&◌, ◌||◌, List, [], ◌∷◌, leb, ◌==◌, if◌then◌else◌, Codes,
}

abbrev pub is_hex : ℕ → Bool
is_hex c = (leb 48 c && leb c 57) || (leb 65 c && leb c 70) || (leb 97 c && leb c 102)

-- The white space that is skipped before and after the number.
unfoldable pub is_padding : ℕ → Bool
is_padding c =
    (leb 9 c && leb c 13)
    || (c == 32)
    || (c == 133)
    || (c == 160)
    || (c == 5760)
    || (leb 8192 c && leb c 8202)
    || (c == 8232)
    || (c == 8233)
    || (c == 8239)
    || (c == 8287)
    || (c == 12288)

all_padding : Codes → Bool
unfolding is_padding
all_padding [] = true
all_padding (c ∷ cs) = is_padding c && all_padding cs

-- The digits, with single underscores between them, up to white space. `due` where a digit must
-- follow.
digits : (due : Bool) → Codes → Bool
digits due [] = not due
digits due (c ∷ cs) = elim (is_hex c) [
  | true ↦ digits false cs
  | false ↦ elim (not due && (c == 95)) [
    | true ↦ digits true cs
    | false ↦ not due && all_padding (c ∷ cs)
  ]
]

-- After `0x`, where one underscore may stand.
after_prefix : Codes → Bool
after_prefix [] = false
after_prefix (c ∷ cs) = if c == 95 then digits true cs else digits true (c ∷ cs)

-- `0x` or `0X` may come first.
unsigned : Codes → Bool
unsigned [] = false
unsigned (c ∷ []) = digits true (c ∷ [])
unsigned (c ∷ x ∷ cs) = elim ((c == 48) && ((x == 120) || (x == 88))) [
  | true ↦ after_prefix cs
  | false ↦ digits true (c ∷ x ∷ cs)
]

signed : Codes → Bool
signed [] = false
signed (c ∷ cs) = elim ((c == 43) || (c == 45)) [ true ↦ unsigned cs | false ↦ unsigned (c ∷ cs) ]

-- `int(text, 16)` does not raise.
unfoldable pub is_int_16 : Codes → Bool
unfolding is_padding all_padding digits after_prefix unsigned signed
is_int_16 [] = false
is_int_16 (c ∷ cs) = elim (is_padding c) [ true ↦ is_int_16 cs | false ↦ signed (c ∷ cs) ]
