-- ===== src/Stats/Snapshots.antt =====
-- copy-trader-v1.6.63/src/group_stats.rs: a snapshot against the summaries that it is taken of.
use mathlib.Core.Path.{subst}
use rust_solana_cc_v.Prelude.{
  ◌≡◌, inl, inr, refl, sym, ◌∙◌, Option, none, some, List, [], ◌∷◌, arith, Str, Str-discrete, get,
  insert, get-insert, All, Option-cases, if_pos, if_neg, ap,
}
use rust_solana_cc_v.Float.{F64}
use rust_solana_cc_v.Groups.Group.{CopyGroup}
use rust_solana_cc_v.Groups.Manager.{GroupManager, all_groups}
use rust_solana_cc_v.Stats.Summary.{GroupPerformanceSummary, blank}
use rust_solana_cc_v.Stats.Store.{collect, merge_others, current_summary, merge_current, snapshot}
use rust_solana_cc_v.Stats.Counters.{
  Counters, counters, Summaries, IsKeyed, All-insert_entry, All-get_entry,
}
use rust_solana_cc_v.Stats.Reload.{Fits, collect-sorted}

abbrev or_else {ℓ} : {A : Type ℓ} → Option A → Option A → Option A
or_else none o = o
or_else (some a) o = some a

module _ {R : Type 0} ⦃f : F64 R⦄ (id : Str) where
  abbrev count_of : Summaries R → Counters
  count_of m = counters (get Str-discrete id m)

  -- The group's counters, where it is in the merged map, or else in the rest.
  abbrev pending : Summaries R → Summaries R → Counters
  pending merged rest = counters (or_else (get Str-discrete id merged) (get Str-discrete id rest))

  current_summary-Fits :
      (g : CopyGroup R) (m : Summaries R)
      → IsKeyed m
      → Fits id (count_of m) (g.id, current_summary g m)
  unfolding current_summary blank
  current_summary-Fits g m h = elim (Option-cases (get Str-discrete g.id m)) [
    | inl e ↦ rw (e, current_summary) (refl, λ same. ground arith)
    | inr (s, e) ↦
        let key = All-get_entry (λ d. d.1.group_id ≡ d.0) g.id m s h e in
        rw (e, current_summary) (key, λ same. ground arith)
  ]

  merge_current-Fits :
      (gs : List (CopyGroup R)) (m merged : Summaries R)
      → IsKeyed m
      → All (Fits id (count_of m)) merged
      → pending merged m ≡ count_of m
      → All (Fits id (count_of m)) (merge_current gs m merged)
        × (pending (merge_current gs m merged) m ≡ count_of m)
  unfolding merge_current
  merge_current-Fits [] m merged h fits kept = (fits, kept)
  merge_current-Fits (g ∷ gs) m merged h fits kept =
      let s = current_summary g m in
      let good = current_summary-Fits g m h in
      let merged' = insert Str-discrete g.id s merged in
      merge_current-Fits gs m merged' h
        (All-insert_entry (Fits id (count_of m)) g.id s merged good fits)
        (elim (Str-discrete g.id id) [
          | yes same ↦
              let found : get Str-discrete id merged' ≡ some s =
                get-insert Str-discrete g.id id s merged ∙ if_pos (Str-discrete g.id id) same _ _ in
              ap (λ o. counters (or_else o (get Str-discrete id m))) found ∙ good.1 same
          | no other ↦
              let same : get Str-discrete id merged' ≡ get Str-discrete id merged =
                get-insert Str-discrete g.id id s merged
                ∙ if_neg (Str-discrete g.id id) other _ _ in
              ap (λ o. counters (or_else o (get Str-discrete id m))) same ∙ kept
        ])

  without-rest : (o : Option (GroupPerformanceSummary R)) → or_else o none ≡ o
  without-rest none = refl
  without-rest (some s) = refl

  -- An entry whose key is in the merged map does not matter.
  pending-there :
      (k : Str) (s there : GroupPerformanceSummary R) (rest merged : Summaries R)
      → get Str-discrete k merged ≡ some there
      → pending merged rest ≡ pending merged ((k, s) ∷ rest)
  unfolding get
  pending-there k s there rest merged e = elim (Str-discrete k id) [
    | yes same ↦
        let found = subst (λ i. get Str-discrete i merged ≡ some there) same e in
        let P = λ (r : Option (GroupPerformanceSummary R)) (o : Option (GroupPerformanceSummary R)).
          counters (or_else o r) in
        ap (P (get Str-discrete id rest)) found
        ∙ sym (ap (P (get Str-discrete id ((k, s) ∷ rest))) found)
    | no other ↦
        let gone : get Str-discrete id ((k, s) ∷ rest) ≡ get Str-discrete id rest =
          if_neg (Str-discrete k id) other (some s) (get Str-discrete id rest) in
        ap (λ r. counters (or_else (get Str-discrete id merged) r)) (sym gone)
  ]

  -- An entry whose key is not there goes in.
  pending-insert :
      (k : Str) (s : GroupPerformanceSummary R) (rest merged : Summaries R)
      → get Str-discrete k merged ≡ none
      → pending (insert Str-discrete k s merged) rest ≡ pending merged ((k, s) ∷ rest)
  unfolding get
  pending-insert k s rest merged e = elim (Str-discrete k id) [
    | yes same ↦
        let missing = subst (λ i. get Str-discrete i merged ≡ none) same e in
        let found : get Str-discrete id (insert Str-discrete k s merged) ≡ some s =
          get-insert Str-discrete k id s merged ∙ if_pos (Str-discrete k id) same _ _ in
        let first : get Str-discrete id ((k, s) ∷ rest) ≡ some s =
          if_pos (Str-discrete k id) same (some s) (get Str-discrete id rest) in
        ap (λ o. counters (or_else o (get Str-discrete id rest))) found
        ∙ sym (ap counters first)
        ∙ sym (ap (λ o. counters (or_else o (get Str-discrete id ((k, s) ∷ rest)))) missing)
    | no other ↦
        let kept : get Str-discrete id (insert Str-discrete k s merged)
            ≡ get Str-discrete id merged =
          get-insert Str-discrete k id s merged ∙ if_neg (Str-discrete k id) other _ _ in
        let gone : get Str-discrete id ((k, s) ∷ rest) ≡ get Str-discrete id rest =
          if_neg (Str-discrete k id) other (some s) (get Str-discrete id rest) in
        ap (λ o. counters (or_else o (get Str-discrete id rest))) kept
        ∙ ap (λ r. counters (or_else (get Str-discrete id merged) r)) (sym gone)
  ]

  -- The entry of the group whose key is not there has the counters.
  pending-entry :
      (k : Str) (s : GroupPerformanceSummary R) (rest merged : Summaries R)
      → get Str-discrete k merged ≡ none
      → k ≡ id
      → counters (some s) ≡ pending merged ((k, s) ∷ rest)
  unfolding get
  pending-entry k s rest merged e same =
      let missing = subst (λ i. get Str-discrete i merged ≡ none) same e in
      let first : get Str-discrete id ((k, s) ∷ rest) ≡ some s =
        if_pos (Str-discrete k id) same (some s) (get Str-discrete id rest) in
      sym (ap counters first)
      ∙ sym (ap (λ o. counters (or_else o (get Str-discrete id ((k, s) ∷ rest)))) missing)

  nothing-pending : (merged : Summaries R) → count_of merged ≡ pending merged []
  unfolding get
  nothing-pending merged = sym (ap counters (without-rest (get Str-discrete id merged)))

  merge_others-Fits :
      (rest merged : Summaries R) (c : Counters)
      → IsKeyed rest
      → All (Fits id c) merged
      → pending merged rest ≡ c
      → All (Fits id c) (merge_others rest merged) × (count_of (merge_others rest merged) ≡ c)
  unfolding merge_others
  merge_others-Fits [] merged c h fits kept = (fits, nothing-pending merged ∙ kept)
  merge_others-Fits ((k, s) ∷ rest) merged c h fits kept =
      elim (Option-cases (get Str-discrete k merged)) [
        | inr (there, e) ↦
            rw (e, merge_others)
              (merge_others-Fits rest merged c h.1 fits
                (pending-there k s there rest merged e ∙ kept))
        | inl e ↦
            let good : Fits id c (k, s) =
              (h.0, λ same. pending-entry k s rest merged e same ∙ kept) in
            rw (e, merge_others)
              (merge_others-Fits rest (insert Str-discrete k s merged) c h.1
                (All-insert_entry (Fits id c) k s merged good fits)
                (pending-insert k s rest merged e ∙ kept))
      ]

  -- The summaries that are read from a saved snapshot of keyed summaries count the same for the group.
  pub snapshot-counters :
      (groups : GroupManager R) (m : Summaries R)
      → IsKeyed m
      → counters (get Str-discrete id (collect (snapshot groups m) [])) ≡ count_of m
  unfolding snapshot get
  snapshot-counters groups m h =
      let current = merge_current-Fits (all_groups groups) m [] h tt (nothing m) in
      let merged = merge_current (all_groups groups) m [] in
      let all = merge_others-Fits m merged (count_of m) h current.0 current.1 in
      collect-sorted id (count_of m) (merge_others m merged) all.0 all.1
    where
      nothing : (m : Summaries R) → pending [] m ≡ count_of m
      nothing m = refl
