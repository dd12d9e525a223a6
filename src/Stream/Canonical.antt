-- ===== src/Stream/Canonical.antt =====
-- copy-trader-v1.6.63/src/grpc/subscriber.rs: the normal form of a list of target wallets, and when an
-- update tells the stream of a change.
use mathlib.Core.Path.{subst}
use rust_solana_cc_v.Prelude.{
  true, false, ◌≡◌, ◌↔◌, inl, inr, refl, sym, ap, ◌∙◌, List, [], ◌∷◌, ◌==◌, arith, Str, Pubkey,
  Bool-cases, All, All-mono, if_cases,
}
use rust_solana_cc_v.Groups.Manager.{member}
use rust_solana_cc_v.Stream.Sorted.{
  same_wallets_refl, same_wallets_eq, All-member, AtMost, Below, IsSorted, IsRising, sort-member,
  dedup-member, sort-IsSorted,
}
use rust_solana_cc_v.Stream.Order.{str_leb_antisymm, str_leb_trans}
use rust_solana_cc_v.Stream.Wallets.{
  same_wallets, dedup, sort_by_text, normalize_wallets, update_target_wallets,
}

module _ (to_text : Pubkey → Str) (injective : (v w : Pubkey) → to_text v ≡ to_text w → v ≡ w) where
  antisymm : (v w : Pubkey) → AtMost to_text v w → AtMost to_text w v → v ≡ w
  antisymm v w h k = injective v w (str_leb_antisymm (to_text v) (to_text w) h k)

  dedup-All {κ} :
      (P : Pubkey → Type κ) (w : Pubkey) (vs : List Pubkey)
      → P w
      → All P vs
      → All P (dedup (w ∷ vs))
  unfolding dedup
  dedup-All P w [] p h = (p, tt)
  dedup-All P w (v ∷ vs) p h =
      if_cases (All P) (v == w) (λ same. dedup-All P w vs p h.1)
        (λ other. (p, dedup-All P v vs h.0 h.1))

  apart :
      (w v u : Pubkey)
      → AtMost to_text w v
      → (v == w) ≡ false
      → AtMost to_text v u
      → Below to_text w u
  apart w v u le other above = (
    str_leb_trans (to_text w) (to_text v) (to_text u) le above,
    elim (Bool-cases (u == w)) [
      | inr no_match ↦ no_match
      | inl is ↦
          let same : u ≡ w = ground arith in
          let back : AtMost to_text v w = subst (AtMost to_text v) same above in
          let equal : v ≡ w = antisymm v w back le in absurd (ground arith)
    ],
  )

  dedup-IsRising :
      (w : Pubkey) (vs : List Pubkey)
      → IsSorted to_text (w ∷ vs)
      → IsRising to_text (dedup (w ∷ vs))
  unfolding dedup
  dedup-IsRising w [] h = (tt, tt)
  dedup-IsRising w (v ∷ vs) h =
      if_cases (IsRising to_text) (v == w) (λ same. dedup-IsRising w vs (h.0.1, h.1.1))
        (λ other.
          let above : Below to_text w v = (h.0.0, other) in
          let rest : All (Below to_text w) vs = All-mono (λ u. apart w v u h.0.0 other) vs h.1.0 in
          (dedup-All (Below to_text w) v vs above rest, dedup-IsRising v vs h.1))

  sorted-IsRising : (vs : List Pubkey) → IsSorted to_text vs → IsRising to_text (dedup vs)
  unfolding dedup
  sorted-IsRising [] h = tt
  sorted-IsRising (v ∷ vs) h = dedup-IsRising v vs h

  normalize-IsRising : (ws : List Pubkey) → IsRising to_text (normalize_wallets to_text ws)
  unfolding normalize_wallets
  normalize-IsRising ws = sorted-IsRising (sort_by_text to_text ws) (sort-IsSorted to_text ws)

  -- The heads of two rising lists with the same members are the same.
  head-eq :
      (v w : Pubkey) (vs ws : List Pubkey)
      → IsRising to_text (v ∷ vs)
      → IsRising to_text (w ∷ ws)
      → ((k : Pubkey) → member k (v ∷ vs) ≡ member k (w ∷ ws))
      → v ≡ w
  head-eq v w vs ws hv hw same = elim (Bool-cases (v == w)) [
    | inl is ↦ ground arith
    | inr other ↦
        let there : member w vs ≡ true = ground (arith, same w) in
        let here : member v ws ≡ true = ground (arith, same v) in
        let up = All-member (Below to_text v) w vs hv.0 there in
        let down = All-member (Below to_text w) v ws hw.0 here in antisymm v w up.0 down.0
  ]

  absent : (v : Pubkey) (vs : List Pubkey) → All (Below to_text v) vs → member v vs ≡ false
  absent v vs h = elim (Bool-cases (member v vs)) [
    | inr no_member ↦ no_member
    | inl is ↦
        let below = All-member (Below to_text v) v vs h is in absurd (ground (arith, below.1))
  ]

  tails-eq :
      (v w : Pubkey) (vs ws : List Pubkey) (k : Pubkey)
      → v ≡ w
      → member v vs ≡ false
      → member w ws ≡ false
      → member k (v ∷ vs) ≡ member k (w ∷ ws)
      → member k vs ≡ member k ws
  tails-eq v w vs ws k head gone gone' same = elim (Bool-cases (v == k)) [
    | inl is ↦
        let eq : v ≡ k = ground arith in
        let eq' : w ≡ k = sym head ∙ eq in
        subst (λ x. member x vs ≡ false) eq gone ∙ sym (subst (λ x. member x ws ≡ false) eq' gone')
    | inr other ↦ ground arith
  ]

  rising_eq :
      (vs ws : List Pubkey)
      → IsRising to_text vs
      → IsRising to_text ws
      → ((k : Pubkey) → member k vs ≡ member k ws)
      → vs ≡ ws
  rising_eq [] [] hv hw same = refl
  rising_eq [] (w ∷ ws) hv hw same = absurd (ground (arith, same w))
  rising_eq (v ∷ vs) [] hv hw same = absurd (ground (arith, same v))
  rising_eq (v ∷ vs) (w ∷ ws) hv hw same =
      let head : v ≡ w = head-eq v w vs ws hv hw same in
      let tails =
        λ (k : Pubkey). tails-eq v w vs ws k head (absent v vs hv.0) (absent w ws hw.0) (same k) in
      let rest : vs ≡ ws = rising_eq vs ws hv.1 hw.1 tails in ground arith

  normalize-member :
      (k : Pubkey) (ws : List Pubkey) → member k (normalize_wallets to_text ws) ≡ member k ws
  unfolding normalize_wallets
  normalize-member k ws = deduped (sort_by_text to_text ws) ∙ sort-member to_text k ws
    where
      deduped : (vs : List Pubkey) → member k (dedup vs) ≡ member k vs
      deduped [] = refl
      deduped (v ∷ vs) = dedup-member to_text k v vs

  -- Where different addresses have different texts, an update of the wallets that an update has set
  -- tells the stream of no change exactly if it has the same members, in whatever order and however
  -- often; after it the wallets are those of the update.
  pub update_target_wallets-same :
      (before after : List Pubkey)
      → (((update_target_wallets to_text after (normalize_wallets to_text before)).1 ≡ false)
          ↔ ((k : Pubkey) → member k before ≡ member k after))
        × ((k : Pubkey)
            → member k (update_target_wallets to_text after (normalize_wallets to_text before)).0
              ≡ member k after)
  unfolding update_target_wallets
  update_target_wallets-same before after =
      let vs = normalize_wallets to_text before in
      let ws = normalize_wallets to_text after in
      (
        (
          (λ unchanged k.
              let equal : vs ≡ ws = same_wallets_eq vs ws (ground arith) in
              sym (normalize-member k before) ∙ ap (member k) equal ∙ normalize-member k after),
          (λ same.
              let equal : vs ≡ ws =
                rising_eq vs ws (normalize-IsRising before) (normalize-IsRising after)
                  (λ k. normalize-member k before ∙ same k ∙ sym (normalize-member k after)) in
              let hit : same_wallets vs ws ≡ true =
                subst (λ us. same_wallets vs us ≡ true) equal (same_wallets_refl vs) in
              ground arith),
        ),
        λ k. elim (Bool-cases (same_wallets vs ws)) [
          | inl hit ↦
              let equal : vs ≡ ws = same_wallets_eq vs ws hit in
              rw hit (ap (member k) equal ∙ normalize-member k after)
          | inr miss ↦ rw miss (normalize-member k after)
        ],
      )
