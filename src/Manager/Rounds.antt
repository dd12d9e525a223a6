-- ===== src/Manager/Rounds.antt =====
-- copy-trader-v1.6.63/src/autosell/manager.rs: the rounds of the monitors: keys, panics and locks.
use rust_solana_cc_v.Prelude.{◌≡◌, Bool, false, some, List, [], ◌∷◌, arith, All, get, insert}
use rust_solana_cc_v.Float.{F64}
use rust_solana_cc_v.Position.State.{Position, PositionKey, key}
use rust_solana_cc_v.Manager.Store.{PositionKey-discrete}
use rust_solana_cc_v.Manager.Exit.{SellSignal}
use rust_solana_cc_v.Manager.Monitor.{Positions, Outcome, done, stops, panics, blocks}

module _ {R : Type 0} where
  -- Every entry stands under the key of its position.
  abbrev pub Keyed : Positions R → Type 0
  Keyed m = All (λ e. key e.1 ≡ e.0) m

  -- The other tasks leave a position under every key that has one.
  abbrev pub RemovesNone : (PositionKey → Positions R → Positions R) → Type 0
  RemovesNone others =
      (j k : PositionKey) (m : Positions R) (p : Position R)
      → get PositionKey-discrete k m ≡ some p
      → (q : Position R) × (get PositionKey-discrete k (others j m) ≡ some q)

  pub Keyed-get :
      (k : PositionKey) (p : Position R) (m : Positions R)
      → Keyed m
      → get PositionKey-discrete k m ≡ some p
      → key p ≡ k
  unfolding get
  Keyed-get k p [] h e = cc
  Keyed-get k p ((j, q) ∷ m) h e = ground (arith, Keyed-get k p m h.1)

  pub Keyed-insert :
      (k : PositionKey) (p : Position R) (m : Positions R)
      → key p ≡ k
      → Keyed m
      → Keyed (insert PositionKey-discrete k p m)
  unfolding insert
  Keyed-insert k p [] e h = (e, tt)
  Keyed-insert k p ((j, q) ∷ m) e h = ground (arith, Keyed-insert k p m e h.1)

module _ {R : Type 0} ⦃f : F64 R⦄ where
  open f use {of_u64, fle}

  module _ (channel_open : Bool) where
    -- The pass ended, over entries that stand under their keys, or the channel was closed.
    abbrev pub EndsKeyed : Outcome (Positions R × List (SellSignal R)) → Type 0
    EndsKeyed (done r) = Keyed r.0
    EndsKeyed stops = channel_open ≡ false
    EndsKeyed panics = ⊥
    EndsKeyed blocks = ⊥
