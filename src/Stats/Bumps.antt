-- ===== src/Stats/Bumps.antt =====
-- copy-trader-v1.6.63/src/group_stats.rs: what a change of a summary counts, and the sums of a log.
use rust_solana_cc_v.Prelude.{
  ℕ, ◌+◌, ◌%◌, true, ◌≡◌, ◌<◌, refl, Option, none, some, List, [], ◌∷◌, arith, Str,
}
use rust_solana_cc_v.Float.{F64}
use rust_solana_cc_v.Pumpfun.Curve.{u64_mod}
use rust_solana_cc_v.Stats.Summary.{
  TradeOutcome, win, loss, flat, ClosedTradeRecord, GroupPerformanceSummary, increment, touch,
  count_buy_confirmed, count_buy_failed, count_sell_failed, count_outcome, average_trade, blank,
}
use rust_solana_cc_v.Stats.Store.{or_blank}
use rust_solana_cc_v.Stats.Counters.{Counters, counters}
use rust_solana_cc_v.Stats.Histories.{
  StatCall, is_win, is_loss, is_flat, bit, is_buy_confirmed, is_buy_failed, is_sell_failed,
  is_closed, number_of, logged,
}

-- The counters are `u64`.
pub record FitU64 (c : Counters) : Type 0 where
  pub fits_confirmed : c.buys_confirmed < u64_mod
  pub fits_failed : c.buys_failed < u64_mod
  pub fits_sells : c.sells_failed < u64_mod
  pub fits_closed : c.closed < u64_mod
  pub fits_won : c.won < u64_mod
  pub fits_lost : c.lost < u64_mod
  pub fits_even : c.even < u64_mod

same_mod : (a : ℕ) → a < u64_mod → (a + 0) % u64_mod ≡ a
same_mod a h = omega arith

mod_same : (a : ℕ) → a < u64_mod → a ≡ (a + 0) % u64_mod
mod_same a h = omega arith

more_mod : (a b n : ℕ) → ((a + (b + 0)) % u64_mod + n) % u64_mod ≡ (a + (b + n)) % u64_mod
more_mod a b n = omega arith

-- The counters after more was counted.
unfoldable pub bump : Counters → ℕ → ℕ → ℕ → ℕ → ℕ → ℕ → ℕ → Counters
bump c a b d e w l f = record {
  buys_confirmed = (c.buys_confirmed + a) % u64_mod;
  buys_failed = (c.buys_failed + b) % u64_mod;
  sells_failed = (c.sells_failed + d) % u64_mod;
  closed = (c.closed + e) % u64_mod;
  won = (c.won + w) % u64_mod;
  lost = (c.lost + l) % u64_mod;
  even = (c.even + f) % u64_mod;
}

pub bump_none : (c : Counters) → FitU64 c → bump c 0 0 0 0 0 0 0 ≡ c
unfolding bump
bump_none c h = λ i. record {
  buys_confirmed = same_mod c.buys_confirmed h.fits_confirmed i;
  buys_failed = same_mod c.buys_failed h.fits_failed i;
  sells_failed = same_mod c.sells_failed h.fits_sells i;
  closed = same_mod c.closed h.fits_closed i;
  won = same_mod c.won h.fits_won i;
  lost = same_mod c.lost h.fits_lost i;
  even = same_mod c.even h.fits_even i;
}

pub logged-nil : (R : Type 0) (id : Str) (c : Counters) → FitU64 c → logged {R = R} id c [] ≡ c
unfolding logged number_of bump
logged-nil R id c h = bump_none c h

module _ {R : Type 0} (id : Str) where
  pub logged-cons :
      (c : Counters) (e : StatCall R) (es : List (StatCall R))
      → logged id (logged id c (e ∷ [])) es ≡ logged id c (e ∷ es)
  unfolding logged number_of
  logged-cons c e es = λ i. record {
    buys_confirmed =
        more_mod c.buys_confirmed (bit (is_buy_confirmed id e))
          (number_of id (is_buy_confirmed id) es) i;
    buys_failed =
        more_mod c.buys_failed (bit (is_buy_failed id e)) (number_of id (is_buy_failed id) es) i;
    sells_failed =
        more_mod c.sells_failed (bit (is_sell_failed id e)) (number_of id (is_sell_failed id) es) i;
    closed =
        more_mod c.closed (bit (is_closed id (λ o. true) e))
          (number_of id (is_closed id (λ o. true)) es) i;
    won = more_mod c.won (bit (is_closed id is_win e)) (number_of id (is_closed id is_win) es) i;
    lost =
        more_mod c.lost (bit (is_closed id is_loss e)) (number_of id (is_closed id is_loss) es) i;
    even =
        more_mod c.even (bit (is_closed id is_flat e)) (number_of id (is_closed id is_flat) es) i;
  }

  pub logged-FitU64 : (c : Counters) (es : List (StatCall R)) → FitU64 (logged id c es)
  unfolding logged
  logged-FitU64 c es = record {
    fits_confirmed = omega arith;
    fits_failed = omega arith;
    fits_sells = omega arith;
    fits_closed = omega arith;
    fits_won = omega arith;
    fits_lost = omega arith;
    fits_even = omega arith;
  }

module _ {R : Type 0} ⦃f : F64 R⦄ where
  -- A group without a summary counts from nothing.
  pub or_blank-counters :
      (id name : Str) (o : Option (GroupPerformanceSummary R))
      → counters (some (or_blank id name o)) ≡ counters o
  unfolding blank
  or_blank-counters id name none = refl
  or_blank-counters id name (some s) = refl

  -- What a change of a summary counts.
  abbrev pub Counts :
      (GroupPerformanceSummary R → GroupPerformanceSummary R) → (Counters → Counters) → Type 0
  Counts change g =
      (s : GroupPerformanceSummary R)
      → FitU64 (counters (some s))
      → counters (some (change s)) ≡ g (counters (some s))

  pub confirmed-Counts : (now : ℕ) → Counts (count_buy_confirmed now) (λ c. bump c 1 0 0 0 0 0 0)
  unfolding count_buy_confirmed touch bump
  confirmed-Counts now s h = λ i. record {
    buys_confirmed = increment s.buy_confirmed_count;
    buys_failed = mod_same s.buy_failed_count h.fits_failed i;
    sells_failed = mod_same s.sell_failed_count h.fits_sells i;
    closed = mod_same s.closed_trades h.fits_closed i;
    won = mod_same s.wins h.fits_won i;
    lost = mod_same s.losses h.fits_lost i;
    even = mod_same s.flats h.fits_even i;
  }

  pub failed-Counts : (now : ℕ) → Counts (count_buy_failed now) (λ c. bump c 0 1 0 0 0 0 0)
  unfolding count_buy_failed touch bump
  failed-Counts now s h = λ i. record {
    buys_confirmed = mod_same s.buy_confirmed_count h.fits_confirmed i;
    buys_failed = increment s.buy_failed_count;
    sells_failed = mod_same s.sell_failed_count h.fits_sells i;
    closed = mod_same s.closed_trades h.fits_closed i;
    won = mod_same s.wins h.fits_won i;
    lost = mod_same s.losses h.fits_lost i;
    even = mod_same s.flats h.fits_even i;
  }

  pub sell_failed-Counts : (now : ℕ) → Counts (count_sell_failed now) (λ c. bump c 0 0 1 0 0 0 0)
  unfolding count_sell_failed touch bump
  sell_failed-Counts now s h = λ i. record {
    buys_confirmed = mod_same s.buy_confirmed_count h.fits_confirmed i;
    buys_failed = mod_same s.buy_failed_count h.fits_failed i;
    sells_failed = increment s.sell_failed_count;
    closed = mod_same s.closed_trades h.fits_closed i;
    won = mod_same s.wins h.fits_won i;
    lost = mod_same s.losses h.fits_lost i;
    even = mod_same s.flats h.fits_even i;
  }

  pub outcome-Counts :
      (o : TradeOutcome) (trade : ClosedTradeRecord R) (now : ℕ)
      → Counts
          (λ s. touch now (count_outcome o (average_trade trade s)))
          (λ c. bump c 0 0 0 1 (bit (is_win o)) (bit (is_loss o)) (bit (is_flat o)))
  unfolding touch count_outcome average_trade bump
  outcome-Counts win trade now s h = λ i. record {
    buys_confirmed = mod_same s.buy_confirmed_count h.fits_confirmed i;
    buys_failed = mod_same s.buy_failed_count h.fits_failed i;
    sells_failed = mod_same s.sell_failed_count h.fits_sells i;
    closed = increment s.closed_trades;
    won = increment s.wins;
    lost = mod_same s.losses h.fits_lost i;
    even = mod_same s.flats h.fits_even i;
  }
  outcome-Counts loss trade now s h = λ i. record {
    buys_confirmed = mod_same s.buy_confirmed_count h.fits_confirmed i;
    buys_failed = mod_same s.buy_failed_count h.fits_failed i;
    sells_failed = mod_same s.sell_failed_count h.fits_sells i;
    closed = increment s.closed_trades;
    won = mod_same s.wins h.fits_won i;
    lost = increment s.losses;
    even = mod_same s.flats h.fits_even i;
  }
  outcome-Counts flat trade now s h = λ i. record {
    buys_confirmed = mod_same s.buy_confirmed_count h.fits_confirmed i;
    buys_failed = mod_same s.buy_failed_count h.fits_failed i;
    sells_failed = mod_same s.sell_failed_count h.fits_sells i;
    closed = increment s.closed_trades;
    won = mod_same s.wins h.fits_won i;
    lost = mod_same s.losses h.fits_lost i;
    even = increment s.flats;
  }
