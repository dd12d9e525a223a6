-- ===== src/Sell/Waits.antt =====
-- copy-trader-v1.6.63/src/tx/sell_executor.rs: what a confirmed wait has seen.
use rust_solana_cc_v.Prelude.{
  ℕ, ◌≡◌, ◌≢◌, ◌≤◌, refl, ◌⊎◌, inl, inr, Bool, true, false, ◌&&◌, List, [], ◌∷◌, arith, leb, ◌==◌,
  if_cases, leb→le, Elem,
}
use rust_solana_cc_v.Sell.Confirm.{
  SignatureStatus, status_unknown, status_seen, status_failed, BalanceAnswer, balance, node_error,
  task_error, Poll, failed_signature, seen_signature, SellConfirmTrace, rpc_balance, in_cache,
  PollEnd, returns, goes_on, poll_once, wait_polls, wait_sell_confirm, failed_now, seen_after,
}

-- The cache or the node said that no more than the expected balance is left, or the node gave an error.
abbrev pub Supports : ℕ → Poll → Type 0
Supports expected p =
    (in_cache expected p.cached ≡ true)
    ⊎ (((n : ℕ) × (p.rpc ≡ balance n) × (n ≤ expected)) ⊎ (p.rpc ≡ node_error))

-- What an answer of a wait rests on, in one of its polls.
abbrev pub Rests : ℕ → List Poll → SellConfirmTrace → Type 0
Rests expected polls t =
    (t.source ≢ seen_signature)
    × (t.confirmed ≡ true → (p : Poll) × Elem p polls × Supports expected p)
    × (t.source ≡ failed_signature
        → (t.confirmed ≡ false) × ((p : Poll) × Elem p polls × (p.status ≡ status_failed)))

abbrev EndRests : ℕ → Poll → PollEnd → Type 0
EndRests expected p (returns t) =
    (t.source ≢ seen_signature)
    × (t.confirmed ≡ true → Supports expected p)
    × (t.source ≡ failed_signature → (t.confirmed ≡ false) × (p.status ≡ status_failed))
EndRests expected p (goes_on seen) = Unit

rpc_supports :
    (expected : ℕ) (a : BalanceAnswer)
    → expected ≤ 18446744073709551614
    → rpc_balance a ≤ expected
    → ((n : ℕ) × (a ≡ balance n) × (n ≤ expected)) ⊎ (a ≡ node_error)
unfolding rpc_balance
rpc_supports expected (balance n) b h = inl (n, refl, h)
rpc_supports expected node_error b h = inr refl
rpc_supports expected task_error b h = absurd (omega arith)

failed_now_status :
    (seen : Bool) (s : SignatureStatus) → failed_now seen s ≡ true → s ≡ status_failed
failed_now_status false status_failed h = refl
failed_now_status false status_unknown h = cc
failed_now_status false status_seen h = cc
failed_now_status true s h = cc

poll_once-EndRests :
    (expected : ℕ) (seen : Bool) (p : Poll)
    → expected ≤ 18446744073709551614
    → EndRests expected p (poll_once expected seen p)
unfolding poll_once
poll_once-EndRests expected seen p b =
    if_cases (EndRests expected p) (in_cache expected p.cached)
      (λ c. ((λ e. cc), (λ _. inl c), λ e. cc))
      (λ _.
        if_cases (EndRests expected p) (failed_now seen p.status)
          (λ f. ((λ e. cc), (λ e. cc), λ _. (refl, failed_now_status seen p.status f)))
          (λ _.
            if_cases (EndRests expected p) (leb (rpc_balance p.rpc) expected)
              (λ l. ((λ e. cc), (λ _. inr (rpc_supports expected p.rpc b (leb→le _ _ l))), λ e. cc))
              (λ l.
                if_cases (EndRests expected p)
                  (seen_after seen p.status && (expected == rpc_balance p.rpc))
                  (λ e. absurd (ground arith)) (λ _. tt))))

wait_polls-Rests :
    (expected : ℕ) (seen : Bool) (polls : List Poll)
    → expected ≤ 18446744073709551614
    → Rests expected polls (wait_polls expected seen polls)
unfolding wait_polls
wait_polls-Rests expected seen [] b = ((λ e. cc), (λ e. cc), λ e. cc)
wait_polls-Rests expected seen (p ∷ ps) b =
    go (λ s. wait_polls-Rests expected s ps b) (poll_once expected seen p) refl
  where
    go :
        ((s : Bool) → Rests expected ps (wait_polls expected s ps))
        → (r : PollEnd) → poll_once expected seen p ≡ r
        → Rests expected (p ∷ ps) (elim r as (λ _. SellConfirmTrace) [
          | returns t ↦ t
          | goes_on seen' ↦ wait_polls expected seen' ps
        ])
    go later (returns t) e =
        let rests : EndRests expected p (returns t) =
          rw e at (poll_once-EndRests expected seen p b) in
        (
          rests.0,
          (λ c. (p, inl refl, rests.1 c)),
          λ f. ((rests.2 f).0, (p, inl refl, (rests.2 f).1)),
        )
    go later (goes_on seen') e =
        let rests = later seen' in
        (
          rests.0,
          (λ c. let (q, m, s) = rests.1 c in (q, inr m, s)),
          λ f. let (unconfirmed, (q, m, s)) = rests.2 f in (unconfirmed, (q, inr m, s)),
        )

-- For an expected balance below the last `u64`: a confirmed wait rests on a poll in which the cache or the node said that no
-- more than the expected balance is left, or the node gave an error; one that ends with an error of the
-- chain is not confirmed and rests on a failed status; and no wait ends on a seen signature.
pub wait_sell_confirm_sound :
    (parses : Bool) (expected : ℕ) (polls : List Poll)
    → expected ≤ 18446744073709551614
    → Rests expected polls (wait_sell_confirm parses expected polls)
unfolding wait_sell_confirm
wait_sell_confirm_sound true expected polls b = wait_polls-Rests expected false polls b
wait_sell_confirm_sound false expected polls b = ((λ e. cc), (λ e. cc), λ e. cc)

abbrev Confirms : PollEnd → Type 0
Confirms (returns t) = t.confirmed ≡ true
Confirms (goes_on seen) = ⊥

poll_once-Confirms :
    (expected : ℕ) (p : Poll)
    → p.rpc ≡ node_error
    → p.status ≢ status_failed
    → Confirms (poll_once expected false p)
unfolding poll_once rpc_balance
poll_once-Confirms expected p e s =
    if_cases Confirms (in_cache expected p.cached) (λ _. refl)
      (λ _.
        if_cases Confirms (failed_now false p.status)
          (λ f. absurd (s (failed_now_status false p.status f))) (λ _. rw e (ground arith)))

-- An error of the node in the first poll confirms the sale, unless its status has failed in that poll,
-- whatever is expected to be left.
pub node_error_confirms :
    (expected : ℕ) (p : Poll) (ps : List Poll)
    → p.rpc ≡ node_error
    → p.status ≢ status_failed
    → (wait_sell_confirm true expected (p ∷ ps)).confirmed ≡ true
unfolding wait_sell_confirm
node_error_confirms expected p ps e s =
    go (poll_once expected false p) (poll_once-Confirms expected p e s)
  where
    go :
        (r : PollEnd)
        → Confirms r
        → (elim r as (λ _. SellConfirmTrace) [
          | returns t ↦ t
          | goes_on seen' ↦ wait_polls expected seen' ps
        ]).confirmed
          ≡ true
    go (returns t) c = c
    go (goes_on seen) c = absurd c
