-- ===== src/Config.antt =====
-- lib/config.py: the constants.
use counterparty_core.Prelude.{ℕ}
use counterparty_core.Text.{Text, codes}

unfoldable pub btc : Text
btc = codes "BTC"

unfoldable pub xcp : Text
xcp = codes "XCP"

abbrev pub unit : ℕ
unit = 100000000

-- 2**63 - 1
abbrev pub max_int : ℕ
max_int = 9223372036854775807

abbrev pub mempool_block_index : ℕ
mempool_block_index = 9999999

abbrev pub max_expiration : ℕ
max_expiration = 8064
