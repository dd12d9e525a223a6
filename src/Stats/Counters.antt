-- ===== src/Stats/Counters.antt =====
-- copy-trader-v1.6.63/src/group_stats.rs: what is counted of a group, and maps of summaries under their ids.
use mathlib.Core.Path.{subst}
use rust_solana_cc_v.Prelude.{
  ℕ, ◌≡◌, sym, Option, none, some, [], ◌∷◌, Str, Str-discrete, Assoc, get, insert, All, if_pos,
  if_neg,
}
use rust_solana_cc_v.Stats.Summary.{GroupPerformanceSummary}

-- What is counted of a group.
pub record Counters : Type 0 where
  pub buys_confirmed : ℕ
  pub buys_failed : ℕ
  pub sells_failed : ℕ
  pub closed : ℕ
  pub won : ℕ
  pub lost : ℕ
  pub even : ℕ

abbrev pub no_counts : Counters
no_counts = record {
  buys_confirmed = 0;
  buys_failed = 0;
  sells_failed = 0;
  closed = 0;
  won = 0;
  lost = 0;
  even = 0;
}

abbrev pub Summaries : Type 0 → Type 0
Summaries R = Assoc Str (GroupPerformanceSummary R)

-- The summaries stand under their ids.
abbrev pub IsKeyed : {R : Type 0} → Summaries R → Type 0
IsKeyed m = All (λ e. e.1.group_id ≡ e.0) m

module _ {R : Type 0} where
  -- A group without a summary has counted nothing.
  abbrev pub counters : Option (GroupPerformanceSummary R) → Counters
  counters none = no_counts
  counters (some s) = record {
    buys_confirmed = s.buy_confirmed_count;
    buys_failed = s.buy_failed_count;
    sells_failed = s.sell_failed_count;
    closed = s.closed_trades;
    won = s.wins;
    lost = s.losses;
    even = s.flats;
  }

  pub All-insert_entry :
      (P : Str × GroupPerformanceSummary R → Type 0) (k : Str) (v : GroupPerformanceSummary R)
      (m : Summaries R)
      → P (k, v)
      → All P m
      → All P (insert Str-discrete k v m)
  unfolding insert
  All-insert_entry P k v [] p h = (p, tt)
  All-insert_entry P k v ((j, w) ∷ m) p h = elim (Str-discrete j k) [
    | yes same ↦ rw (if_pos _ same) (subst (λ i. P (i, v)) (sym same) p, h.1)
    | no other ↦ rw (if_neg _ other) (h.0, All-insert_entry P k v m p h.1)
  ]

  pub All-get_entry :
      (P : Str × GroupPerformanceSummary R → Type 0) (k : Str) (m : Summaries R)
      (v : GroupPerformanceSummary R)
      → All P m
      → get Str-discrete k m ≡ some v
      → P (k, v)
  unfolding get
  All-get_entry P k [] v h e = cc
  All-get_entry P k ((j, w) ∷ m) v h e = elim (Str-discrete j k) [
    | yes same ↦
        let hit : some w ≡ some v = rw (if_pos _ same) at e in
        let equal : w ≡ v = cc hit in subst (λ i. P (i, v)) same (subst (λ x. P (j, x)) equal h.0)
    | no other ↦ All-get_entry P k m v h.1 (rw (if_neg _ other) at e)
  ]
