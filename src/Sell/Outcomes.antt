-- ===== src/Sell/Outcomes.antt =====
-- copy-trader-v1.6.63/src/tx/sell_executor.rs: what the loop over the attempts reports.
use rust_solana_cc_v.Prelude.{
  ℕ, suc, zero, ◌+◌, ◌≡◌, ◌≤◌, ◌<◌, refl, ◌⊎◌, inl, inr, Bool, true, false, arith, Str,
}
use rust_solana_cc_v.Sell.Attempts.{
  Outside, Sale, was_sent, confirmed, Step, sold, aborted, again, jupiter_attempt, pumpfun_attempt,
  sell_attempt, sell_attempts_from,
}

-- The sale of the attempt was confirmed under the signature, on one of the routes.
abbrev pub Confirmed : Outside → ℕ → Str → Type 0
Confirmed o i sig = (o.pumpfun i ≡ was_sent sig confirmed) ⊎ (o.jupiter i ≡ was_sent sig confirmed)

abbrev SaysSold : Step → Str → Type 0
SaysSold (sold sig) s = sig ≡ s
SaysSold (aborted error) s = ⊥
SaysSold (again reason) s = ⊥

jupiter_attempt_sold :
    (reason : Str) (j : Sale) (s : Str)
    → SaysSold (jupiter_attempt reason j) s
    → j ≡ was_sent s confirmed
unfolding jupiter_attempt
jupiter_attempt_sold reason j s h = ground arith

pumpfun_attempt_sold :
    (a : Bool) (reason : Str) (p j : Sale) (s : Str)
    → SaysSold (pumpfun_attempt a reason p j) s
    → (p ≡ was_sent s confirmed) ⊎ (j ≡ was_sent s confirmed)
unfolding pumpfun_attempt
pumpfun_attempt_sold a reason p j s h = ground arith

sell_attempt_sold :
    (o : Outside) (route a : Bool) (reason : Str) (i : ℕ) (s : Str)
    → SaysSold (sell_attempt o route a reason i) s
    → Confirmed o i s
unfolding sell_attempt
sell_attempt_sold o true a reason i s h = inr (jupiter_attempt_sold reason (o.jupiter i) s h)
sell_attempt_sold o false a reason i s h =
    pumpfun_attempt_sold a reason (o.pumpfun i) (o.jupiter i) s h

Step-cases :
    (s : Step)
    → ((sig : Str) × (s ≡ sold sig)) ⊎ (((e : Str) × (s ≡ aborted e)) ⊎ ((r : Str) × (s ≡ again r)))
Step-cases (sold sig) = inl (sig, refl)
Step-cases (aborted e) = inr (inl (e, refl))
Step-cases (again r) = inr (inr (r, refl))

-- A sale that the loop reports was confirmed under the reported signature in one of the attempts
-- that it was allowed.
pub sell_attempts_from_sound :
    (o : Outside) (route a : Bool) (reason : Str) (i left : ℕ)
    → (sell_attempts_from o route a reason i left).success ≡ true
    → (j : ℕ) × (i ≤ j)
      × (j < i + left)
      × Confirmed o j (sell_attempts_from o route a reason i left).last_sig
unfolding sell_attempts_from
sell_attempts_from_sound o route a reason i zero h = cc
sell_attempts_from_sound o route a reason i (suc left) h =
    elim (Step-cases (sell_attempt o route a reason i)) [
      | inl (sig, e) ↦ (
        i,
        omega arith,
        omega arith,
        rw (e, sell_attempts_from) (sell_attempt_sold o route a reason i sig (rw e refl)),
      )
      | inr (inl (error, e)) ↦ absurd (ground arith)
      | inr (inr (reason', e)) ↦
          let (j, low, high, c) =
            sell_attempts_from_sound o route a reason' (i + 1) left
              (rw (e, sell_attempts_from) at h) in
          (j, omega arith, omega arith, rw (e, sell_attempts_from) c)
    ]
