-- ===== src/Manager/Monitor.antt =====
-- copy-trader-v1.6.63/src/autosell/manager.rs: the two monitors. A round is a pass over the keys that
-- it read first. What other tasks do between the two reads of a bonding curve update is a parameter; a
-- round of the fallback monitor is not interleaved with them.
use rust_solana_cc_v.Prelude.{
  ℕ, ◌-◌, ◌/◌, Bool, true, ◌&&◌, ◌||◌, Option, none, some, List, [], ◌∷◌, ◌++◌, map, ltb, leb, ◌==◌,
  if◌then◌else◌, length, retain, Pubkey, Assoc, get, insert,
}
use rust_solana_cc_v.Float.{F64}
use rust_solana_cc_v.Position.State.{
  Position, PositionKey, max_lifetime, is_submitted, is_confirming, is_closed, is_failed,
  held_seconds, mark_failed,
}
use rust_solana_cc_v.Position.Prices.{mark_active, update_price}
use rust_solana_cc_v.Manager.Store.{PositionKey-discrete, is_open}
use rust_solana_cc_v.Manager.Exit.{SellSignal, signal_for, lifetime_over, check_exit_conditions}

abbrev pub Positions : Type 0 → Type 0
Positions R = Assoc PositionKey (Position R)

-- How a pass ends: with the positions and the signals sent, with the task, as the channel of the signals
-- is closed, in a panic of `unwrap`, or never, on a lock.
pub data Outcome (A : Type 0) : Type 0 where
  done : A → Outcome A
  stops : Outcome A
  panics : Outcome A
  blocks : Outcome A

abbrev pub and_then : {A B : Type 0} → Outcome A → (A → Outcome B) → Outcome B
and_then (done a) next = next a
and_then stops next = stops
and_then panics next = panics
and_then blocks next = blocks

module _ {R : Type 0} where
  unfoldable pub keys_for_mint : Pubkey → Positions R → List PositionKey
  keys_for_mint mint m = map (λ e. e.0) (retain (λ e. e.0.token_mint == mint) m)

  unfoldable pub open_count : Pubkey → Positions R → ℕ
  open_count mint m = length (retain (λ e. (e.0.token_mint == mint) && is_open e.1) m)

  -- A signal is logged with the entry price of its position, which is read again with `unwrap`, and sent
  -- if the channel is open.
  unfoldable pub send_signal :
      Bool
      → Positions R
      → List (SellSignal R)
      → Option (SellSignal R)
      → Outcome (Positions R × List (SellSignal R))
  send_signal channel_open m sent none = done (m, sent)
  send_signal channel_open m sent (some s) = elim (get PositionKey-discrete s.position_key m) [
    | none ↦ panics
    | some p ↦ if channel_open then done (m, sent ++ s ∷ []) else stops
  ]

  -- A signal of a fallback round, which is logged from the signal alone.
  abbrev pub send_logged :
      Bool
      → Positions R
      → List (SellSignal R)
      → Option (SellSignal R)
      → Outcome (Positions R × List (SellSignal R))
  send_logged channel_open m sent none = done (m, sent)
  send_logged channel_open m sent (some s) =
      if channel_open then done (m, sent ++ s ∷ []) else stops

  -- `positions.retain(...)` at the end of a fallback round.
  unfoldable pub keeps_entry : ℕ → Position R → Bool
  keeps_entry now p =
      if is_closed p.state || is_failed p.state
      then ltb ((now - p.created_at) / 1000000000) 60
      else true

  unfoldable pub needs_confirm_check : ℕ → ℕ → Position R → Bool
  needs_confirm_check now confirm_timeout_secs p =
      (is_submitted p.state || is_confirming p.state)
      && leb confirm_timeout_secs (held_seconds now p)

module _ {R : Type 0} ⦃f : F64 R⦄ where
  open f use {of_u64, flt, fle}

  -- The body of the loop over the keys of a bonding curve update. The entry's lock is held up to the
  -- signal; `others` is what other tasks do to the map before it is read again.
  unfoldable pub on_price :
      Bool
      → (PositionKey → Positions R → Positions R)
      → ℕ
      → R
      → PositionKey
      → Positions R
      → List (SellSignal R)
      → Outcome (Positions R × List (SellSignal R))
  unfolding send_signal
  on_price channel_open others now price k m sent = elim (get PositionKey-discrete k m) [
    | none ↦ done (m, sent)
    | some p ↦
        if fle price (of_u64 0)
        then done (m, sent)
        else (let q = (update_price price p).0 in
            send_signal channel_open (others k (insert PositionKey-discrete k q m)) sent
              (check_exit_conditions now q))
  ]

  unfoldable pub on_price_keys :
      Bool
      → (PositionKey → Positions R → Positions R)
      → ℕ
      → R
      → List PositionKey
      → Positions R
      → List (SellSignal R)
      → Outcome (Positions R × List (SellSignal R))
  on_price_keys channel_open others now price [] m sent = done (m, sent)
  on_price_keys channel_open others now price (k ∷ ks) m sent =
      and_then (on_price channel_open others now price k m sent)
        λ r. on_price_keys channel_open others now price ks r.0 r.1

  -- The handler of a bonding curve update.
  unfoldable pub on_bonding_curve :
      Bool
      → (PositionKey → Positions R → Positions R)
      → ℕ
      → Pubkey
      → R
      → Positions R
      → Outcome (Positions R × List (SellSignal R))
  unfolding on_price_keys keys_for_mint
  on_bonding_curve channel_open others now mint price m =
      on_price_keys channel_open others now price (keys_for_mint mint m) m []

  -- The amount that the fallback confirmation assigns to a buy.
  unfoldable pub assigned_amount : ℕ → ℕ → Position R → ℕ
  assigned_amount delta count p =
      if ltb 0 delta && leb count 1
      then delta
      else (if ltb 0 p.token_amount then p.token_amount else delta)

  -- The confirmation of a late buy from the balance of its account. The position's entry is locked
  -- for writing; `iter_blocks` says whether an iteration over the map then waits for ever.
  unfoldable pub confirm_fallback :
      Bool → ℕ → ℕ → Option R → Positions R → Position R → Outcome (Position R)
  unfolding open_count assigned_amount
  confirm_fallback iter_blocks now balance bc_price m p =
      let delta = balance - p.pre_buy_ata_balance in
      if ltb p.pre_buy_ata_balance balance
      then (if ltb 0 delta && iter_blocks
          then blocks
          else done
              (mark_active now (assigned_amount delta (open_count p.token_mint m) p) bc_price p).0)
      else done (mark_failed p).0

  -- The signal of a round for a position that needs no confirmation, and the position after it.
  unfoldable pub fallback_signal : ℕ → Option R → Position R → Position R × Option (SellSignal R)
  fallback_signal now bc_price p =
      if lifetime_over now p then (p, some (signal_for max_lifetime p)) else elim bc_price [
        | none ↦ (p, none)
        | some price ↦
            let q = if flt (of_u64 0) price then (update_price price p).0 else p in
            (q, check_exit_conditions now q)
      ]

  -- The body of the loop over the keys of a round. `balance_of` is the answer of the RPC node,
  -- `price_of` that of the bonding curve cache.
  unfoldable pub fallback_key :
      Bool
      → Bool
      → ℕ
      → ℕ
      → (PositionKey → ℕ)
      → (Pubkey → Option R)
      → PositionKey
      → Positions R
      → List (SellSignal R)
      → Outcome (Positions R × List (SellSignal R))
  unfolding needs_confirm_check
  fallback_key channel_open iter_blocks now timeout balance_of price_of k m sent =
      elim (get PositionKey-discrete k m) [
        | none ↦ done (m, sent)
        | some p ↦
            if needs_confirm_check now timeout p
            then and_then
                (confirm_fallback iter_blocks now (balance_of k) (price_of p.token_mint) m p)
                (λ q. done (insert PositionKey-discrete k q m, sent))
            else (let (q, signal) = fallback_signal now (price_of p.token_mint) p in
                send_logged channel_open (insert PositionKey-discrete k q m) sent signal)
      ]

  unfoldable pub fallback_keys :
      Bool
      → Bool
      → ℕ
      → ℕ
      → (PositionKey → ℕ)
      → (Pubkey → Option R)
      → List PositionKey
      → Positions R
      → List (SellSignal R)
      → Outcome (Positions R × List (SellSignal R))
  fallback_keys channel_open iter_blocks now timeout balance_of price_of [] m sent = done (m, sent)
  fallback_keys channel_open iter_blocks now timeout balance_of price_of (k ∷ ks) m sent =
      and_then (fallback_key channel_open iter_blocks now timeout balance_of price_of k m sent)
        λ r. fallback_keys channel_open iter_blocks now timeout balance_of price_of ks r.0 r.1

  -- A round of the fallback monitor.
  unfoldable pub fallback_round :
      Bool
      → Bool
      → ℕ
      → ℕ
      → (PositionKey → ℕ)
      → (Pubkey → Option R)
      → Positions R
      → Outcome (Positions R × List (SellSignal R))
  unfolding fallback_keys keeps_entry
  fallback_round channel_open iter_blocks now timeout balance_of price_of m =
      and_then
        (fallback_keys channel_open iter_blocks now timeout balance_of price_of (map (λ e. e.0) m) m
          [])
        λ r. done (retain (λ e. keeps_entry now e.1) r.0, r.1)
