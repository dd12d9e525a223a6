-- ===== src/Sell/Confirm.antt =====
-- copy-trader-v1.6.63/src/tx/sell_executor.rs: the wait for a sale. A poll is one pass of the loop, with what
-- the cache and the node answer in it; the polls end when the time is over.
use rust_solana_cc_v.Prelude.{
  ℕ, Bool, true, false, ◌&&◌, Option, none, some, List, [], ◌∷◌, leb, ◌==◌, if◌then◌else◌,
}
use rust_solana_cc_v.Sell.Attempts.{Confirmation, confirmed, signature_error, unconfirmed}

-- `get_signature_statuses`: no answer or no status, a status, or one with an error.
pub data SignatureStatus : Type 0 where
  status_unknown status_seen status_failed : SignatureStatus

-- `get_token_account_balance` in its own task: a balance (0 where its text does not parse), an error of
-- the node, or a task that failed.
pub data BalanceAnswer : Type 0 where
  balance : ℕ → BalanceAnswer
  node_error : BalanceAnswer
  task_error : BalanceAnswer

pub record Poll : Type 0 where
  pub cached : Option ℕ
  pub status : SignatureStatus
  pub rpc : BalanceAnswer

-- `source` of `SellConfirmTrace`.
pub data TraceSource : Type 0 where
  invalid_signature cache_ata_target failed_signature rpc_ata_target seen_signature timeout :
      TraceSource

pub record SellConfirmTrace : Type 0 where
  pub confirmed : Bool
  pub source : TraceSource

-- `unwrap_or(0)` on an error of the node, `unwrap_or(u64::MAX)` on a task that failed.
unfoldable pub rpc_balance : BalanceAnswer → ℕ
rpc_balance (balance n) = n
rpc_balance node_error = 0
rpc_balance task_error = 18446744073709551615

abbrev pub in_cache : ℕ → Option ℕ → Bool
in_cache expected none = false
in_cache expected (some n) = leb n expected

-- How a pass ends: it returns, or it goes on with `signature_seen`.
pub data PollEnd : Type 0 where
  returns : SellConfirmTrace → PollEnd
  goes_on : Bool → PollEnd

abbrev pub trace : Bool → TraceSource → SellConfirmTrace
trace c s = record { confirmed = c; source = s }

-- The status is asked for until it was seen once.
abbrev pub failed_now : Bool → SignatureStatus → Bool
failed_now false status_failed = true
failed_now _ _ = false

abbrev pub seen_after : Bool → SignatureStatus → Bool
seen_after true s = true
seen_after false status_seen = true
seen_after false _ = false

unfoldable pub poll_once : ℕ → Bool → Poll → PollEnd
unfolding rpc_balance
poll_once expected seen p =
    let seen' = seen_after seen p.status in
    let n = rpc_balance p.rpc in
    if in_cache expected p.cached
    then returns (trace true cache_ata_target)
    else (if failed_now seen p.status
        then returns (trace false failed_signature)
        else (if leb n expected
            then returns (trace true rpc_ata_target)
            else (if seen' && (expected == n)
                then returns (trace true seen_signature)
                else goes_on seen')))

unfoldable pub wait_polls : ℕ → Bool → List Poll → SellConfirmTrace
unfolding poll_once
wait_polls expected seen [] = trace false timeout
wait_polls expected seen (p ∷ ps) = elim (poll_once expected seen p) [
  | returns t ↦ t
  | goes_on seen' ↦ wait_polls expected seen' ps
]

-- `parses` says whether the text of the signature can be read.
unfoldable pub wait_sell_confirm : Bool → ℕ → List Poll → SellConfirmTrace
unfolding wait_polls
wait_sell_confirm parses expected polls =
    if parses then wait_polls expected false polls else trace false invalid_signature

-- What the handler reads of a trace.
unfoldable pub confirmation_of : SellConfirmTrace → Confirmation
confirmation_of t =
    if t.confirmed
    then confirmed
    else elim t.source [ failed_signature ↦ signature_error | _ ↦ unconfirmed ]
