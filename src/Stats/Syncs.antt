-- ===== src/Stats/Syncs.antt =====
-- copy-trader-v1.6.63/src/group_stats.rs: `sync_groups` and the counters.
use mathlib.Core.Path.{subst}
use rust_solana_cc_v.Prelude.{
  ℕ, ◌≡◌, inl, inr, refl, sym, ap, ◌∙◌, some, List, [], ◌∷◌, Str, Str-discrete, get, insert,
  get-insert_self, get-insert_ne, Option-cases,
}
use rust_solana_cc_v.Float.{F64}
use rust_solana_cc_v.Groups.Group.{CopyGroup}
use rust_solana_cc_v.Stats.Summary.{GroupPerformanceSummary, touch, apply_group_name, blank}
use rust_solana_cc_v.Stats.Store.{sync_group, sync_each}
use rust_solana_cc_v.Stats.Counters.{counters, Summaries, IsKeyed, All-insert_entry, All-get_entry}

module _ {R : Type 0} ⦃f : F64 R⦄ where
  pub sync_each-IsKeyed :
      (now : ℕ) (gs : List (CopyGroup R)) (m : Summaries R)
      → IsKeyed m
      → IsKeyed (sync_each now gs m)
  unfolding sync_each sync_group blank apply_group_name touch
  sync_each-IsKeyed now [] m h = h
  sync_each-IsKeyed now (g ∷ gs) m h = sync_each-IsKeyed now gs (sync_group now g m) (one g m h)
    where
      one : (g : CopyGroup R) (m : Summaries R) → IsKeyed m → IsKeyed (sync_group now g m)
      one g m h = elim (Option-cases (get Str-discrete g.id m)) [
        | inl e ↦
            rw (e, sync_group)
              (All-insert_entry (λ d. d.1.group_id ≡ d.0) g.id (blank g.id g.name) m refl h)
        | inr (s, e) ↦
            rw (e, sync_group)
              (All-insert_entry (λ d. d.1.group_id ≡ d.0) g.id (apply_group_name g.name now s) m
                (All-get_entry (λ d. d.1.group_id ≡ d.0) g.id m s h e) h)
      ]

  -- A summary that goes in where it counts the same changes no count.
  insert-counters :
      (id k : Str) (v : GroupPerformanceSummary R) (m : Summaries R)
      → counters (some v) ≡ counters (get Str-discrete k m)
      → counters (get Str-discrete id (insert Str-discrete k v m))
        ≡ counters (get Str-discrete id m)
  insert-counters id k v m h = elim (Str-discrete k id) [
    | yes same ↦
        subst
          (λ j.
            counters (get Str-discrete j (insert Str-discrete k v m))
            ≡ counters (get Str-discrete j m))
          same (ap counters (get-insert_self Str-discrete k v m) ∙ h)
    | no other ↦ ap counters (get-insert_ne Str-discrete k id v m other)
  ]

  sync_group-counters :
      (id : Str) (now : ℕ) (g : CopyGroup R) (m : Summaries R)
      → counters (get Str-discrete id (sync_group now g m)) ≡ counters (get Str-discrete id m)
  unfolding sync_group apply_group_name touch blank
  sync_group-counters id now g m = elim (Option-cases (get Str-discrete g.id m)) [
    | inl e ↦
        rw (e, sync_group) (insert-counters id g.id (blank g.id g.name) m (sym (ap counters e)))
    | inr (s, e) ↦
        rw (e, sync_group)
          (insert-counters id g.id (apply_group_name g.name now s) m (sym (ap counters e)))
  ]

  pub sync_each-counters :
      (id : Str) (now : ℕ) (gs : List (CopyGroup R)) (m : Summaries R)
      → counters (get Str-discrete id (sync_each now gs m)) ≡ counters (get Str-discrete id m)
  unfolding sync_each
  sync_each-counters id now [] m = refl
  sync_each-counters id now (g ∷ gs) m =
      sync_each-counters id now gs (sync_group now g m) ∙ sync_group-counters id now g m
