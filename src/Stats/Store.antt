-- ===== src/Stats/Store.antt =====
-- copy-trader-v1.6.63/src/group_stats.rs: the store of the summaries, with its files. A file is what
-- its JSON text stands for; of the report, a text, the rows are kept.
use rust_solana_cc_v.Prelude.{
  ℕ, Option, none, some, List, [], ◌∷◌, ◌++◌, ltb, ◌==◌, if◌then◌else◌, Str, Str-discrete, Assoc,
  get, insert,
}
use rust_solana_cc_v.Float.{F64}
use rust_solana_cc_v.Groups.Group.{CopyGroup}
use rust_solana_cc_v.Groups.Ids.{str_leb}
use rust_solana_cc_v.Groups.Manager.{GroupManager, all_groups}
use rust_solana_cc_v.Stats.Summary.{
  ClosedTradeRecord, GroupPerformanceSummary, apply_group_name, blank, win_rate_percent,
  count_buy_confirmed, count_buy_failed, count_sell_failed, count_closed_trade,
}

pub record GroupPerformanceStore (R : Type 0) : Type 0 where
  pub summaries : Assoc Str (GroupPerformanceSummary R)
  pub stats_file : Option (List (GroupPerformanceSummary R))
  pub history_file : List (ClosedTradeRecord R)
  pub report_file : List (GroupPerformanceSummary R)

-- `std::cmp::Ordering`
pub data Order : Type 0 where
  less equal greater : Order

unfoldable pub then_with : Order → Order → Order
then_with less o = less
then_with equal o = o
then_with greater o = greater

abbrev pub count_order : ℕ → ℕ → Order
count_order a b = if ltb a b then less else (if a == b then equal else greater)

module _ {R : Type 0} where
  -- The summaries by their ids; of several with one id the last counts.
  unfoldable pub collect :
      List (GroupPerformanceSummary R)
      → Assoc Str (GroupPerformanceSummary R)
      → Assoc Str (GroupPerformanceSummary R)
  collect [] m = m
  collect (s ∷ ss) m = collect ss (insert Str-discrete s.group_id s m)

  abbrev pub items_of : Option (List (GroupPerformanceSummary R)) → List (GroupPerformanceSummary R)
  items_of none = []
  items_of (some items) = items

  -- The file of the summaries, if there is one that can be read; the other files are not read.
  unfoldable pub load_or_default :
      Option (List (GroupPerformanceSummary R))
      → List (ClosedTradeRecord R)
      → List (GroupPerformanceSummary R)
      → GroupPerformanceStore R
  unfolding collect
  load_or_default stats history report = record {
    summaries = collect (items_of stats) [];
    stats_file = stats;
    history_file = history;
    report_file = report;
  }

  -- The order of a map that is sorted by its keys.
  unfoldable pub insert_by_key :
      Str × GroupPerformanceSummary R
      → Assoc Str (GroupPerformanceSummary R)
      → Assoc Str (GroupPerformanceSummary R)
  insert_by_key e [] = e ∷ []
  insert_by_key e (d ∷ ds) = if str_leb e.0 d.0 then e ∷ d ∷ ds else d ∷ insert_by_key e ds

  -- `into_values` of a `BTreeMap`.
  unfoldable pub sort_by_key :
      Assoc Str (GroupPerformanceSummary R) → Assoc Str (GroupPerformanceSummary R)
  unfolding insert_by_key
  sort_by_key [] = []
  sort_by_key (e ∷ es) = insert_by_key e (sort_by_key es)

  unfoldable pub values : Assoc Str (GroupPerformanceSummary R) → List (GroupPerformanceSummary R)
  values [] = []
  values ((k, s) ∷ es) = s ∷ values es

  -- The summaries of groups that are gone.
  unfoldable pub merge_others :
      Assoc Str (GroupPerformanceSummary R)
      → Assoc Str (GroupPerformanceSummary R)
      → Assoc Str (GroupPerformanceSummary R)
  merge_others [] merged = merged
  merge_others ((id, s) ∷ es) merged = merge_others es (elim (get Str-discrete id merged) [
    | none ↦ insert Str-discrete id s merged
    | some there ↦ merged
  ])

module _ {R : Type 0} ⦃f : F64 R⦄ where
  open f use {flt}

  -- `partial_cmp(..).unwrap_or(Equal)`
  unfoldable pub partial_order : R → R → Order
  partial_order a b = if flt a b then less else (if flt b a then greater else equal)

  unfoldable pub compare_summaries : GroupPerformanceSummary R → GroupPerformanceSummary R → Order
  unfolding then_with partial_order
  compare_summaries a b = then_with (partial_order b.net_pnl_percent_sum a.net_pnl_percent_sum) (
      then_with (partial_order (win_rate_percent b) (win_rate_percent a))
        (count_order b.closed_trades a.closed_trades))

  -- `sort_by`, which is stable, as an insertion sort.
  unfoldable pub insert_by_rank :
      GroupPerformanceSummary R
      → List (GroupPerformanceSummary R)
      → List (GroupPerformanceSummary R)
  insert_by_rank s [] = s ∷ []
  insert_by_rank s (t ∷ ts) =
      let later = t ∷ insert_by_rank s ts in
      elim (compare_summaries s t) [ greater ↦ later | less ↦ s ∷ t ∷ ts | equal ↦ s ∷ t ∷ ts ]

  unfoldable pub sort_by_rank : List (GroupPerformanceSummary R) → List (GroupPerformanceSummary R)
  unfolding insert_by_rank
  sort_by_rank [] = []
  sort_by_rank (s ∷ ss) = insert_by_rank s (sort_by_rank ss)

  -- The summary of a current group, with its current name.
  unfoldable pub current_summary :
      CopyGroup R → Assoc Str (GroupPerformanceSummary R) → GroupPerformanceSummary R
  current_summary g summaries = elim (get Str-discrete g.id summaries) [
    | none ↦ blank g.id g.name
    | some s ↦ record s { group_name = g.name }
  ]

  unfoldable pub merge_current :
      List (CopyGroup R)
      → Assoc Str (GroupPerformanceSummary R)
      → Assoc Str (GroupPerformanceSummary R)
      → Assoc Str (GroupPerformanceSummary R)
  unfolding current_summary
  merge_current [] summaries merged = merged
  merge_current (g ∷ gs) summaries merged =
      merge_current gs summaries (insert Str-discrete g.id (current_summary g summaries) merged)

  unfoldable pub snapshot :
      GroupManager R → Assoc Str (GroupPerformanceSummary R) → List (GroupPerformanceSummary R)
  unfolding merge_current merge_others sort_by_key values sort_by_rank
  snapshot groups summaries =
      let merged = merge_others summaries (merge_current (all_groups groups) summaries []) in
      sort_by_rank (values (sort_by_key merged))

  -- `save_json` and `save_markdown_report`
  unfoldable pub persist : GroupManager R → GroupPerformanceStore R → GroupPerformanceStore R
  unfolding snapshot
  persist groups store = record store {
    stats_file = some (snapshot groups store.summaries);
    report_file = snapshot groups store.summaries;
  }

  unfoldable pub sync_group :
      ℕ
      → CopyGroup R
      → Assoc Str (GroupPerformanceSummary R)
      → Assoc Str (GroupPerformanceSummary R)
  sync_group now g summaries = elim (get Str-discrete g.id summaries) [
    | none ↦ insert Str-discrete g.id (blank g.id g.name) summaries
    | some s ↦ insert Str-discrete g.id (apply_group_name g.name now s) summaries
  ]

  unfoldable pub sync_each :
      ℕ
      → List (CopyGroup R)
      → Assoc Str (GroupPerformanceSummary R)
      → Assoc Str (GroupPerformanceSummary R)
  unfolding sync_group
  sync_each now [] summaries = summaries
  sync_each now (g ∷ gs) summaries = sync_each now gs (sync_group now g summaries)

  unfoldable pub sync_groups :
      GroupManager R → ℕ → GroupPerformanceStore R → GroupPerformanceStore R
  unfolding sync_each persist
  sync_groups groups now store =
      persist groups
        (record store { summaries = sync_each now (all_groups groups) store.summaries })

  abbrev pub or_blank : Str → Str → Option (GroupPerformanceSummary R) → GroupPerformanceSummary R
  or_blank id name none = blank id name
  or_blank id name (some s) = s

  unfoldable pub update_summary :
      GroupManager R
      → Str
      → Str
      → ℕ
      → (GroupPerformanceSummary R → GroupPerformanceSummary R)
      → GroupPerformanceStore R
      → GroupPerformanceStore R
  unfolding persist
  update_summary groups group_id group_name now mutator store =
      let summary = or_blank group_id group_name (get Str-discrete group_id store.summaries) in
      let updated = mutator (apply_group_name group_name now summary) in
      persist groups
        (record store { summaries = insert Str-discrete group_id updated store.summaries })

  unfoldable pub record_buy_confirmed :
      GroupManager R → Str → Str → ℕ → GroupPerformanceStore R → GroupPerformanceStore R
  unfolding update_summary
  record_buy_confirmed groups id name now store =
      update_summary groups id name now (count_buy_confirmed now) store

  unfoldable pub record_buy_failed :
      GroupManager R → Str → Str → ℕ → GroupPerformanceStore R → GroupPerformanceStore R
  unfolding update_summary
  record_buy_failed groups id name now store =
      update_summary groups id name now (count_buy_failed now) store

  unfoldable pub record_sell_failed :
      GroupManager R → Str → Str → ℕ → GroupPerformanceStore R → GroupPerformanceStore R
  unfolding update_summary
  record_sell_failed groups id name now store =
      update_summary groups id name now (count_sell_failed now) store

  unfoldable pub record_closed_trade :
      GroupManager R → ClosedTradeRecord R → ℕ → GroupPerformanceStore R → GroupPerformanceStore R
  unfolding update_summary
  record_closed_trade groups trade now store =
      update_summary groups trade.group_id trade.group_name now (count_closed_trade trade now)
        (record store { history_file = store.history_file ++ trade ∷ [] })
