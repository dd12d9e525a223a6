-- ===== src/Stats/Refines.antt =====
-- copy-trader-v1.6.63/src/group_stats.rs: the summaries against the log of the calls.
use mathlib.Core.Path.{subst}
use rust_solana_cc_v.Prelude.{
  ℕ, ◌≡◌, ◌≢◌, inl, inr, refl, sym, ap, ◌∙◌, some, List, [], ◌∷◌, Str, Str-discrete, get, insert,
  get-insert_self, get-insert_ne, Option-cases,
}
use rust_solana_cc_v.Float.{F64}
use rust_solana_cc_v.Groups.Manager.{GroupManager}
use rust_solana_cc_v.Stats.Summary.{GroupPerformanceSummary, touch, apply_group_name, blank}
use rust_solana_cc_v.Stats.Store.{
  GroupPerformanceStore, collect, items_of, persist, or_blank, update_summary,
}
use rust_solana_cc_v.Stats.Counters.{
  Counters, counters, Summaries, IsKeyed, All-insert_entry, All-get_entry,
}
use rust_solana_cc_v.Stats.Snapshots.{snapshot-counters}
use rust_solana_cc_v.Stats.Bumps.{FitU64, or_blank-counters, Counts}

module _ {R : Type 0} ⦃f : F64 R⦄ where
  abbrev pub count_in : Str → GroupPerformanceStore R → Counters
  count_in id s = counters (get Str-discrete id s.summaries)

  -- The summaries stand under their ids, and those of the file count the same.
  pub record IsSound (s : GroupPerformanceStore R) : Type 0 where
    pub keyed : IsKeyed s.summaries
    pub saved :
        (id : Str)
        → counters (get Str-discrete id (collect (items_of s.stats_file) [])) ≡ count_in id s

  pub persist-IsSound :
      (gs : GroupManager R) (s : GroupPerformanceStore R)
      → IsKeyed s.summaries
      → IsSound (persist gs s)
  unfolding persist
  persist-IsSound gs s h = record { keyed = h; saved = λ id. snapshot-counters id gs s.summaries h }

  pub collect-IsKeyed :
      (ss : List (GroupPerformanceSummary R)) (m : Summaries R) → IsKeyed m → IsKeyed (collect ss m)
  unfolding collect
  collect-IsKeyed [] m h = h
  collect-IsKeyed (s ∷ ss) m h =
      collect-IsKeyed ss (insert Str-discrete s.group_id s m)
        (All-insert_entry (λ e. e.1.group_id ≡ e.0) s.group_id s m refl h)

  or_blank-id :
      (id name : Str) (m : Summaries R)
      → IsKeyed m
      → (or_blank id name (get Str-discrete id m)).group_id ≡ id
  unfolding blank
  or_blank-id id name m h = elim (Option-cases (get Str-discrete id m)) [
    | inl e ↦ rw e refl
    | inr (s, e) ↦ rw e (All-get_entry (λ d. d.1.group_id ≡ d.0) id m s h e)
  ]

  -- An update of a group's summary counts for the group, and for no other.
  module _ (gs : GroupManager R) (k name : Str) (now : ℕ)
      (change : GroupPerformanceSummary R → GroupPerformanceSummary R) (g : Counters → Counters)
      (keeps_id : (s : GroupPerformanceSummary R) → (change s).group_id ≡ s.group_id)
      (counts : Counts change g) where
    unfoldable pub updated : GroupPerformanceStore R → GroupPerformanceSummary R
    updated s =
        change (apply_group_name name now (or_blank k name (get Str-discrete k s.summaries)))

    updated-count :
        (s : GroupPerformanceStore R)
        → FitU64 (count_in k s)
        → counters (some (updated s)) ≡ g (count_in k s)
    unfolding updated apply_group_name touch
    updated-count s h =
        let o = get Str-discrete k s.summaries in
        let same = or_blank-counters k name o in
        counts (apply_group_name name now (or_blank k name o)) (subst FitU64 (sym same) h)
        ∙ ap g same

    pub update-IsSound :
        (s : GroupPerformanceStore R) → IsSound s → IsSound (update_summary gs k name now change s)
    unfolding update_summary apply_group_name touch
    update-IsSound s h =
        let blank_id = or_blank-id k name s.summaries h.keyed in
        let named = apply_group_name name now (or_blank k name (get Str-discrete k s.summaries)) in
        let summaries = insert Str-discrete k (change named) s.summaries in
        persist-IsSound gs (record s { summaries = summaries })
          (All-insert_entry (λ e. e.1.group_id ≡ e.0) k (change named) s.summaries
            (keeps_id named ∙ blank_id) h.keyed)

    pub update-own :
        (s : GroupPerformanceStore R)
        → FitU64 (count_in k s)
        → count_in k (update_summary gs k name now change s) ≡ g (count_in k s)
    unfolding update_summary persist updated
    update-own s h =
        ap counters (get-insert_self Str-discrete k (updated s) s.summaries) ∙ updated-count s h

    pub update-other :
        (id : Str) (s : GroupPerformanceStore R)
        → k ≢ id
        → count_in id (update_summary gs k name now change s) ≡ count_in id s
    unfolding update_summary persist updated
    update-other id s other =
        ap counters (get-insert_ne Str-discrete k id (updated s) s.summaries other)
