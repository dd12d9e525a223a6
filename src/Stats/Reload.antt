-- ===== src/Stats/Reload.antt =====
-- copy-trader-v1.6.63/src/group_stats.rs: the summaries that are read back after a snapshot was saved.
use rust_solana_cc_v.Prelude.{
  Bool, true, false, ◌||◌, ◌≡◌, ◌⊎◌, inl, inr, refl, sym, ◌∙◌, some, List, [], ◌∷◌, arith, Str,
  Str-discrete, str_eq, str_eq_iff, get, insert, get-insert, All, Option-cases, if_cases, if_pos,
  if_neg,
}
use rust_solana_cc_v.Float.{F64}
use rust_solana_cc_v.Groups.Ids.{str_leb}
use rust_solana_cc_v.Stats.Summary.{GroupPerformanceSummary}
use rust_solana_cc_v.Stats.Store.{
  Order, less, equal, greater, compare_summaries, collect, insert_by_key, sort_by_key, values,
  insert_by_rank, sort_by_rank,
}
use rust_solana_cc_v.Stats.Counters.{Counters, counters, Summaries}

module _ {R : Type 0} where
  -- A list of summaries that gives the group the counters.
  module _ (id : Str) (c : Counters) where
    abbrev pub Agrees : GroupPerformanceSummary R → Type 0
    Agrees s = s.group_id ≡ id → counters (some s) ≡ c

    abbrev pub has : List (GroupPerformanceSummary R) → Bool
    has [] = false
    has (s ∷ ss) = str_eq s.group_id id || has ss

    pub collect-counters :
        (ss : List (GroupPerformanceSummary R)) (m : Summaries R)
        → All Agrees ss
        → (has ss ≡ true) ⊎ (counters (get Str-discrete id m) ≡ c)
        → counters (get Str-discrete id (collect ss m)) ≡ c
    unfolding collect
    collect-counters [] m h (inl e) = cc
    collect-counters [] m h (inr e) = e
    collect-counters (s ∷ ss) m h there =
        let m' = insert Str-discrete s.group_id s m in
        collect-counters ss m' h.1 (elim (Str-discrete s.group_id id) [
          | yes same ↦
              let found : get Str-discrete id m' ≡ some s =
                get-insert Str-discrete s.group_id id s m
                ∙ if_pos (Str-discrete s.group_id id) same (some s) (get Str-discrete id m) in
              inr (rw found (h.0 same))
          | no other ↦
              let kept : get Str-discrete id m' ≡ get Str-discrete id m =
                get-insert Str-discrete s.group_id id s m
                ∙ if_neg (Str-discrete s.group_id id) other (some s) (get Str-discrete id m) in
              elim there [
                | inl e ↦ inl (ground (arith, str_eq_iff s.group_id id))
                | inr e ↦ inr (rw kept e)
              ]
        ])

    has-insert_by_rank :
        ⦃f : F64 R⦄ (s : GroupPerformanceSummary R) (ss : List (GroupPerformanceSummary R))
        → has (insert_by_rank s ss) ≡ has (s ∷ ss)
    unfolding insert_by_rank
    has-insert_by_rank s [] = refl
    has-insert_by_rank s (t ∷ ts) = ground (arith, has-insert_by_rank s ts)

    pub has-sort_by_rank :
        ⦃f : F64 R⦄ (ss : List (GroupPerformanceSummary R)) → has (sort_by_rank ss) ≡ has ss
    unfolding sort_by_rank
    has-sort_by_rank [] = refl
    has-sort_by_rank (s ∷ ss) =
        has-insert_by_rank s (sort_by_rank ss) ∙ ground (arith, has-sort_by_rank ss)

    Agrees-insert_by_rank :
        ⦃f : F64 R⦄ (s : GroupPerformanceSummary R) (ss : List (GroupPerformanceSummary R))
        → Agrees s
        → All Agrees ss
        → All Agrees (insert_by_rank s ss)
    unfolding insert_by_rank
    Agrees-insert_by_rank s [] a h = (a, tt)
    Agrees-insert_by_rank s (t ∷ ts) a h =
        placed (compare_summaries s t) (h.0, Agrees-insert_by_rank s ts a h.1)
      where
        placed :
            (o : Order)
            → All Agrees (t ∷ insert_by_rank s ts)
            → All Agrees (elim o [
              | greater ↦ t ∷ insert_by_rank s ts
              | less ↦ s ∷ t ∷ ts
              | equal ↦ s ∷ t ∷ ts
            ])
        placed greater later = later
        placed less later = (a, h)
        placed equal later = (a, h)

    pub Agrees-sort_by_rank :
        ⦃f : F64 R⦄ (ss : List (GroupPerformanceSummary R))
        → All Agrees ss
        → All Agrees (sort_by_rank ss)
    unfolding sort_by_rank
    Agrees-sort_by_rank [] h = tt
    Agrees-sort_by_rank (s ∷ ss) h =
        Agrees-insert_by_rank s (sort_by_rank ss) h.0 (Agrees-sort_by_rank ss h.1)

    -- An entry stands under its id, and gives the group the counters if it is the group's.
    abbrev pub Fits : Str × GroupPerformanceSummary R → Type 0
    Fits e = (e.1.group_id ≡ e.0) × (e.0 ≡ id → counters (some e.1) ≡ c)

    Fits-insert_by_key :
        (e : Str × GroupPerformanceSummary R) (m : Summaries R)
        → Fits e
        → All Fits m
        → All Fits (insert_by_key e m)
    unfolding insert_by_key
    Fits-insert_by_key e [] p h = (p, tt)
    Fits-insert_by_key e (d ∷ ds) p h =
        if_cases (All Fits) (str_leb e.0 d.0) (λ le. (p, h))
          (λ gt. (h.0, Fits-insert_by_key e ds p h.1))

    Fits-sort_by_key : (m : Summaries R) → All Fits m → All Fits (sort_by_key m)
    unfolding sort_by_key
    Fits-sort_by_key [] h = tt
    Fits-sort_by_key (e ∷ es) h =
        Fits-insert_by_key e (sort_by_key es) h.0 (Fits-sort_by_key es h.1)

    has-insert_by_key :
        (e : Str × GroupPerformanceSummary R) (m : Summaries R)
        → has (values (insert_by_key e m)) ≡ has (values (e ∷ m))
    unfolding insert_by_key values
    has-insert_by_key e [] = refl
    has-insert_by_key e (d ∷ ds) = ground (arith, has-insert_by_key e ds)

    has-sort_by_key : (m : Summaries R) → has (values (sort_by_key m)) ≡ has (values m)
    unfolding sort_by_key values
    has-sort_by_key [] = refl
    has-sort_by_key (e ∷ es) =
        has-insert_by_key e (sort_by_key es) ∙ ground (arith, has-sort_by_key es)

    Agrees-values : (m : Summaries R) → All Fits m → All Agrees (values m)
    unfolding values
    Agrees-values [] h = tt
    Agrees-values ((k, s) ∷ es) h = (λ is. h.0.1 (sym h.0.0 ∙ is), Agrees-values es h.1)

    has-get :
        (m : Summaries R) (s : GroupPerformanceSummary R)
        → All Fits m
        → get Str-discrete id m ≡ some s
        → has (values m) ≡ true
    unfolding values get
    has-get [] s h e = cc
    has-get ((k, t) ∷ es) s h e = elim (Str-discrete k id) [
      | yes same ↦
          let is : str_eq t.group_id id ≡ true = (str_eq_iff t.group_id id).1 (h.0.0 ∙ same) in
          ground arith
      | no other ↦
          let rest : has (values es) ≡ true = has-get es s h.1 (rw (if_neg _ other) at e) in
          ground arith
    ]

    -- The sorted values of a map give the group its counters back.
    pub collect-sorted :
        ⦃f : F64 R⦄ (m : Summaries R)
        → All Fits m
        → counters (get Str-discrete id m) ≡ c
        → counters (get Str-discrete id (collect (sort_by_rank (values (sort_by_key m))) [])) ≡ c
    unfolding get
    collect-sorted m h e =
        let vs = values (sort_by_key m) in
        let agrees =
          Agrees-sort_by_rank vs (Agrees-values (sort_by_key m) (Fits-sort_by_key m h)) in
        let has_all = has-sort_by_rank vs ∙ has-sort_by_key m in
        collect-counters (sort_by_rank vs) [] agrees (elim (Option-cases (get Str-discrete id m)) [
          | inl missing ↦ inr (rw missing at e)
          | inr (s, found) ↦ inl (has_all ∙ has-get m s h found)
        ])
