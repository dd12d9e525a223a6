-- ===== src/Tests/Samples.antt =====
-- The data of the tests: whole numbers in place of `f64`, and a group.
use rust_solana_cc_v.Prelude.{
  ℕ, ◌+◌, ◌-◌, ◌*◌, ◌/◌, min, max, true, none, some, [], ◌∷◌, arith, ltb, leb, codes,
}
use rust_solana_cc_v.Float.{F64, IsOrdered}
use rust_solana_cc_v.Groups.Group.{CopyGroup}
use rust_solana_cc_v.Position.State.{Position, PositionKey, active, SellAccountSnapshot}
use rust_solana_cc_v.Manager.Persistence.{AddressText}
use rust_solana_cc_v.Manager.Store.{AutoSellManager}

abbrev pub whole : F64 ℕ
whole = record {
  of_u64 = λ n. n;
  add = λ a b. a + b;
  sub = λ a b. a - b;
  mul = λ a b. a * b;
  div = λ a b. a / b;
  neg = λ a. 0 - a;
  fmax = max;
  fmin = min;
  flt = ltb;
  fle = leb;
  to_u64 = λ n. n;
  to_u128 = λ n. n;
}

pub whole-IsOrdered : IsOrdered whole
whole-IsOrdered = record {
  fle_trans = λ a b c p q. ground arith;
  fle_of_flt = λ a b p. ground arith;
  flt_total = λ a b p q. ground arith;
}

-- One character stands for an address.
abbrev pub one_code : AddressText
one_code = record { to_text = λ k. k ∷ []; from_text = λ s. elim s [ [] ↦ none | k ∷ _ ↦ some k ] }

abbrev pub group : CopyGroup ℕ
group = record {
  id = codes "g1";
  name = codes "group-1";
  enabled = true;
  wallets = 11 ∷ 12 ∷ [];
  consensus_min_wallets = 2;
  consensus_timeout_secs = 60;
  buy_sol_amount = 1;
  min_target_buy_sol = 0;
  take_profit_percent = 30;
  stop_loss_percent = 20;
  trailing_stop_percent = 10;
  slippage_bps = 1000;
  sell_slippage_bps = 1000;
  max_hold_seconds = 0;
  tip_buy_lamports = 0;
  tip_sell_lamports = 0;
  zero_slot_tip_lamports = 0;
  entry_mode = 0;
  sell_mode = 0;
}

abbrev pub snapshot : SellAccountSnapshot
snapshot = record {
  bonding_curve = 21;
  associated_bonding_curve = 22;
  user_ata = 23;
  token_program = 24;
  mirror_accounts = [];
  source_wallet = 11;
}

-- A position that holds 100 units, bought at 10, now at 8.
abbrev pub held : Position ℕ
held = record {
  group = group;
  token_mint = 7;
  state = active;
  entry_sol_amount = 1000;
  token_amount = 100;
  entry_price_sol = 10;
  token_name = [];
  entry_mcap_sol = 0;
  highest_price = 10;
  current_price = 8;
  created_at = 0;
  confirmed_at = some 1;
  source_wallet = 11;
  buy_signature = codes "buy";
  sell_signature = none;
  sell_snapshot = some snapshot;
  pre_buy_ata_balance = 0;
  sell_attempts = 0;
  zero_balance_sell_skips = 0;
}

abbrev pub held_key : PositionKey
held_key = record { group_id = codes "g1"; token_mint = 7 }

abbrev pub manager : AutoSellManager ℕ
manager = record { positions = (held_key, held) ∷ []; file = none }
