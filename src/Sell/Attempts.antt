-- ===== src/Sell/Attempts.antt =====
-- copy-trader-v1.6.63/src/tx/sell_executor.rs: the attempts of a sale, through Pump.fun and Jupiter.
-- What the chain, the RPC node and the caches answer is a parameter, one answer for each attempt.
use rust_solana_cc_v.Prelude.{
  ℕ, suc, zero, ◌+◌, ◌*◌, ◌/◌, ◌%◌, ◌^◌, ◌&&◌, not, Bool, true, false, Option, [], ◌++◌, ◌==◌,
  if◌then◌else◌, Str, codes, Pubkey,
}
use rust_solana_cc_v.Position.State.{SellReason, manual, follow_sell, SellAccountSnapshot}

abbrev pub max_sell_retries : ℕ
max_sell_retries = 3

abbrev pub max_zero_balance_skips : ℕ
max_zero_balance_skips = 5

unfoldable pub confirm_timeout_ms : SellReason → ℕ → ℕ
confirm_timeout_ms follow_sell attempt = if attempt == 1 then 1500 else 2500
confirm_timeout_ms _ attempt = 3000

-- How the wait for a sale ended: `source` of `SellConfirmTrace`.
pub data Confirmation : Type 0 where
  confirmed signature_error unconfirmed : Confirmation

-- A sale through one route: it was not sent, or it was sent with a signature and waited for.
pub data Sale : Type 0 where
  not_sent : Str → Sale
  was_sent : Str → Confirmation → Sale

-- The answers of the outside for one call of `handle_sell_signal`.
pub record Outside : Type 0 where
  pub prefetched : Pubkey → Option SellAccountSnapshot
  pub ata_balance : Pubkey → Option ℕ
  pub rpc_balance : Pubkey → ℕ
  pub migrated : Pubkey → Bool
  pub pumpfun : ℕ → Sale
  pub jupiter : ℕ → Sale

-- What the loop over the attempts leaves in its variables.
pub record Attempts : Type 0 where
  pub success : Bool
  pub last_sig : Str
  pub saw_signature_error : Bool
  pub failure_reason : Str

-- How one attempt ends: `break` with a sale, `break` with an error of the chain, or the next attempt.
pub data Step : Type 0 where
  sold : Str → Step
  aborted : Str → Step
  again : Str → Step

unfoldable pub jupiter_attempt : Str → Sale → Step
jupiter_attempt reason (was_sent sig confirmed) = sold sig
jupiter_attempt reason (was_sent sig signature_error) =
    aborted (codes "jupiter sell failed on-chain")
jupiter_attempt reason (was_sent sig unconfirmed) = again reason
jupiter_attempt reason (not_sent error) = again (codes "jupiter sell failed: " ++ error)

-- The sale through Jupiter that follows an error of the chain on the Pump.fun route: what it does not
-- sell is aborted.
unfoldable pub after_chain_error : Bool → Sale → Step
after_chain_error true jupiter = aborted (codes "sell failed on-chain")
after_chain_error false (was_sent sig confirmed) = sold sig
after_chain_error false (was_sent sig signature_error) =
    aborted (codes "jupiter sell failed on-chain")
after_chain_error false (was_sent sig unconfirmed) = aborted (codes "sell failed on-chain")
after_chain_error false (not_sent error) = aborted (codes "sell failed on-chain")

-- The sale through Jupiter that follows one that Pump.fun did not send.
unfoldable pub after_not_sent : Bool → Str → Sale → Step
after_not_sent true reason jupiter = again reason
after_not_sent false reason (was_sent sig confirmed) = sold sig
after_not_sent false reason (was_sent sig signature_error) =
    aborted (codes "jupiter sell failed on-chain")
after_not_sent false reason (was_sent sig unconfirmed) = again reason
after_not_sent false reason (not_sent error) = again reason

unfoldable pub pumpfun_attempt : Bool → Str → Sale → Sale → Step
unfolding after_chain_error after_not_sent
pumpfun_attempt aggressive_follow reason (was_sent sig confirmed) jupiter = sold sig
pumpfun_attempt aggressive_follow reason (was_sent sig signature_error) jupiter =
    after_chain_error aggressive_follow jupiter
pumpfun_attempt aggressive_follow reason (was_sent sig unconfirmed) jupiter = again reason
pumpfun_attempt aggressive_follow reason (not_sent error) jupiter =
    after_not_sent aggressive_follow reason jupiter

unfoldable pub sell_attempt : Outside → Bool → Bool → Str → ℕ → Step
unfolding jupiter_attempt pumpfun_attempt
sell_attempt o route_via_jupiter aggressive_follow reason attempt =
    if route_via_jupiter
    then jupiter_attempt reason (o.jupiter attempt)
    else pumpfun_attempt aggressive_follow reason (o.pumpfun attempt) (o.jupiter attempt)

-- `for attempt in 1..=MAX_SELL_RETRIES`, over the attempts left.
unfoldable pub sell_attempts_from : Outside → Bool → Bool → Str → ℕ → ℕ → Attempts
sell_attempts_from o route aggressive reason attempt zero = record {
  success = false;
  last_sig = [];
  saw_signature_error = false;
  failure_reason = reason;
}
sell_attempts_from o route aggressive reason attempt (suc left) =
    elim (sell_attempt o route aggressive reason attempt) [
      | sold sig ↦ record {
        success = true;
        last_sig = sig;
        saw_signature_error = false;
        failure_reason = reason;
      }
      | aborted error ↦ record {
        success = false;
        last_sig = [];
        saw_signature_error = true;
        failure_reason = error;
      }
      | again reason' ↦ sell_attempts_from o route aggressive reason' (attempt + 1) left
    ]

abbrev pub is_manual : SellReason → Bool
is_manual manual = true
is_manual _ = false

abbrev pub is_follow_sell : SellReason → Bool
is_follow_sell follow_sell = true
is_follow_sell _ = false

-- `(total_balance as u128 * percent as u128 / 100) as u64`
unfoldable pub percent_of : ℕ → ℕ → ℕ
percent_of total percent = total * percent / 100 % 2 ^ 64

-- What a sale does besides the change of the position: it drops the caches of a token that no open
-- position holds, and it tells the chat.
pub data Effect : Type 0 where
  cleans : Pubkey → Effect
  sell_success : Bool → Str → Effect
  sell_failed : Str → Effect

abbrev pub failure_text : Bool → Attempts → Str
failure_text capped outcome =
    if capped && not outcome.saw_signature_error
    then codes "auto-sell suspended after 5 failed cycles"
    else outcome.failure_reason
