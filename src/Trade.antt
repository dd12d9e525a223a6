-- ===== src/Trade.antt =====
-- copy-trader-v1.6.63/src/processor/mod.rs: the kinds of a detected trade.
use rust_solana_cc_v.Prelude.{Bool, true, false}

pub data TradeType : Type 0 where
  pumpfun pump_swap raydium_amm raydium_cpmm : TradeType

pub data TradeOrigin : Type 0 where
  direct wrapper_cpi : TradeOrigin

unfoldable pub uses_mirror_accounts : TradeOrigin → Bool
uses_mirror_accounts direct = true
uses_mirror_accounts wrapper_cpi = false

unfoldable pub is_wrapper_cpi : TradeOrigin → Bool
is_wrapper_cpi direct = false
is_wrapper_cpi wrapper_cpi = true
