-- ===== src/Hex.antt =====
-- `binascii.hexlify(…).decode()`: two digits for each byte.
use counterparty_core.Prelude.{ℕ, ◌+◌, ◌-◌, ◌/◌, ◌%◌, [], ◌∷◌, ltb, if◌then◌else◌}
use counterparty_core.Text.{Text}

hex_digit : ℕ → ℕ
hex_digit n = if ltb n 10 then b'0' + n else b'a' + (n - 10)

unfoldable pub hexlify : Text → Text
unfolding hex_digit
hexlify [] = []
hexlify (b ∷ s) = hex_digit (b / 16) ∷ hex_digit (b % 16) ∷ hexlify s
