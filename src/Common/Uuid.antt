-- ===== src/Common/Uuid.antt =====
-- `str(uuid)`: 32 hexadecimal digits in groups of 8, 4, 4, 4 and 12.
use taxonomy_builder.Common.{
  ℕ, zero, suc, ◌+◌, ◌/◌, ◌%◌, ◌^◌, [], ◌∷◌, ◌++◌, Text, ltb, if◌then◌else◌,
}

abbrev hex_digit : ℕ → ℕ
hex_digit d = if ltb d 10 then 48 + d else 87 + d

-- `count` digits, the last of them at the given place
abbrev hex : ℕ → ℕ → ℕ → Text
hex zero place n = []
hex (suc count) place n = hex_digit (n / 16 ^ (count + place) % 16) ∷ hex count place n

unfoldable pub uuid_text : ℕ → Text
uuid_text n = hex 8 24 n ++ 45 ∷ hex 4 20 n ++ 45 ∷ hex 4 16 n ++ 45 ∷ hex 4 12 n ++ 45 ∷ hex 12 0 n
