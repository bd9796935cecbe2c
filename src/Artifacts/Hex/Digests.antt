-- ===== src/Artifacts/Hex/Digests.antt =====
-- What `int(text, 16)` makes of a digest.
use keviq_core.Prelude.{
  ℕ, ◌≡◌, refl, Bool, true, false, ◌&&◌, ◌||◌, [], ◌∷◌, ◌==◌, All, arith, Codes, lower_code, lower,
}
use keviq_core.Artifacts.Hex.{is_hex, is_padding, digits, unsigned, signed, is_int_16}

-- Hexadecimal digits and nothing else.
abbrev pub IsHexText : Codes → Type 0
IsHexText = All (λ c. is_hex c ≡ true)

digits-hex : (due : Bool) (c : ℕ) (cs : Codes) → IsHexText (c ∷ cs) → digits due (c ∷ cs) ≡ true
unfolding digits
digits-hex due c [] (h, hs) = rw (h, digits) refl
digits-hex due c (d ∷ cs) (h, hs) = rw (h, digits) (digits-hex false d cs hs)

is_padding-hex : (c : ℕ) → is_hex c ≡ true → is_padding c ≡ false
unfolding is_padding
is_padding-hex c h = ground (arith, h)

is_sign-hex : (c : ℕ) → is_hex c ≡ true → ((c == 43) || (c == 45)) ≡ false
is_sign-hex c h = ground (arith, h)

is_prefix-hex : (c d : ℕ) → is_hex d ≡ true → ((c == 48) && ((d == 120) || (d == 88))) ≡ false
is_prefix-hex c d h = ground (arith, h)

-- A text of hexadecimal digits is taken.
pub is_int_16-hex : (c : ℕ) (cs : Codes) → IsHexText (c ∷ cs) → is_int_16 (c ∷ cs) ≡ true
unfolding is_int_16 signed unsigned
is_int_16-hex c [] h =
    rw (is_padding-hex c h.0, is_int_16, is_sign-hex c h.0, signed) (digits-hex true c [] h)
is_int_16-hex c (d ∷ cs) h =
    rw
      (
        is_padding-hex c h.0,
        is_int_16,
        is_sign-hex c h.0,
        signed,
        is_prefix-hex c d h.1.0,
        unsigned,
      )
      (digits-hex true c (d ∷ cs) h)

is_hex-lower : (c : ℕ) → is_hex c ≡ true → is_hex (lower_code c) ≡ true
is_hex-lower c h = ground (arith, h)

lower_code-lower : (c : ℕ) → lower_code (lower_code c) ≡ lower_code c
lower_code-lower c = ground arith

-- Lower case stays lower case.
pub lower-lower : (cs : Codes) → lower (lower cs) ≡ lower cs
lower-lower [] = refl
lower-lower (c ∷ cs) = rw (lower_code-lower c, lower-lower cs) refl
