-- ===== src/Dedup/Exclusion.antt =====
-- copy-trader-v1.6.63/src/main.rs: the claims, over histories of their uses.
use rust_solana_cc_v.Prelude.{
  ℕ, ◌+◌, ◌≡◌, ◌≢◌, ◌≤◌, ◌↔◌, ◌⊎◌, inl, inr, ite, Bool, true, false, Option, none, some, List, [],
  ◌∷◌, arith, Option-cases, Str, Str-discrete, get, get-insert, get-remove,
}
use rust_solana_cc_v.Dedup.Claims.{
  GroupMintClaim, GroupMintDedup, start_claim, try_start_group_mint, finish_group_mint,
  keep_group_mint_claim, sweep, group_mint_dedup_success, group_mint_dedup_stale,
}

-- What the tasks do with the claims.
pub data Use : Type 0 where
  starts : ℕ → Str → Use
  finishes : ℕ → Str → Bool → Use
  sweeps : ℕ → Use

abbrev bit : Bool → ℕ
bit true = 1
bit false = 0

abbrev flying_of : Option GroupMintClaim → ℕ
flying_of none = 0
flying_of (some c) = bit c.in_flight

module _ (k : Str) where
  -- Whether a buy is in flight for the key.
  abbrev pub flying : GroupMintDedup → ℕ
  flying d = flying_of (get Str-discrete k d)

  -- The starts for the key that were granted, and the uses that may end a claim on it: a finish for the
  -- key, or a round of the cleanup.
  unfoldable pub grants : List Use → GroupMintDedup → ℕ
  grants [] d = 0
  grants (starts now j ∷ us) d =
      let (d', granted) = try_start_group_mint now j d in
      let rest = grants us d' in ite (Str-discrete j k) (bit granted) 0 + rest
  grants (finishes now j b ∷ us) d = grants us (finish_group_mint now j b d)
  grants (sweeps now ∷ us) d = grants us (sweep now d)

  unfoldable pub releases : List Use → ℕ
  releases [] = 0
  releases (starts _ _ ∷ us) = releases us
  releases (finishes _ j _ ∷ us) = ite (Str-discrete j k) 1 0 + releases us
  releases (sweeps _ ∷ us) = 1 + releases us

  flying-le-one : (d : GroupMintDedup) → flying d ≤ 1
  flying-le-one d = ground arith

  start_pays :
      (now : ℕ) (j : Str) (d : GroupMintDedup)
      → ite (Str-discrete j k) (bit (try_start_group_mint now j d).1) 0 + flying d
        ≤ flying (try_start_group_mint now j d).0
  unfolding try_start_group_mint start_claim
  start_pays now j d =
      let after = (start_claim now (get Str-discrete j d)).0 in
      ground (arith, get-insert Str-discrete j k after d)

  finish_other :
      (now : ℕ) (j : Str) (b : Bool) (d : GroupMintDedup)
      → j ≢ k
      → flying (finish_group_mint now j b d) ≡ flying d
  unfolding finish_group_mint
  finish_other now j true d n = elim (Option-cases (get Str-discrete j d)) [
    | inl missing ↦ ground arith
    | inr (c, found) ↦ ground (
      arith,
      get-insert Str-discrete j k
          (record {
            in_flight = false;
            cooldown_until = some (now + group_mint_dedup_success);
            last_touched = now;
          })
          d,
    )
  ]
  finish_other now j false d n = ground (arith, get-remove Str-discrete j k d)

  grants-flying : (us : List Use) (d : GroupMintDedup) → grants us d + flying d ≤ 1 + releases us
  unfolding grants releases
  grants-flying [] d = omega (arith, flying-le-one d)
  grants-flying (starts now j ∷ us) d =
      omega (arith, start_pays now j d, grants-flying us (try_start_group_mint now j d).0)
  grants-flying (finishes now j b ∷ us) d = ground (
    arith,
    finish_other now j b d,
    flying-le-one d,
    grants-flying us (finish_group_mint now j b d),
  )
  grants-flying (sweeps now ∷ us) d = omega (arith, flying-le-one d, grants-flying us (sweep now d))

  -- In any history of the claims, the buys that start for a key number at most one more than the finishes
  -- for the key and the cleanup rounds: with neither, no second buy starts.
  pub grants-le-releases : (us : List Use) → grants us [] ≤ 1 + releases us
  grants-le-releases us = omega (arith, grants-flying us [])

-- A cleanup round drops no claim that would refuse a start at that time, but for a buy in flight that
-- nothing has touched for 30 seconds; and a start at any later time goes as if the dropped claim
-- were there still.
pub keep_group_mint_claim_sound :
    (now later : ℕ) (c : GroupMintClaim)
    → now ≤ later
    → keep_group_mint_claim now c ≡ false
    → ((c.in_flight ≡ true) × (c.last_touched + group_mint_dedup_stale ≤ now))
      ⊎ (start_claim later (some c) ≡ start_claim later none)
unfolding keep_group_mint_claim start_claim
keep_group_mint_claim_sound now later c le dropped = ground arith

-- Where a claim is there, a start for its key after a submitted buy was finished is granted exactly
-- from two and a half seconds after the finish on.
pub finish_group_mint_cools :
    (at now : ℕ) (k : Str) (d : GroupMintDedup) (c : GroupMintClaim)
    → get Str-discrete k d ≡ some c
    → ((try_start_group_mint now k (finish_group_mint at k true d)).1 ≡ true)
      ↔ (at + group_mint_dedup_success ≤ now)
unfolding try_start_group_mint finish_group_mint start_claim
finish_group_mint_cools at now k d c found =
    let after : GroupMintClaim = record {
      in_flight = false;
      cooldown_until = some (at + group_mint_dedup_success);
      last_touched = at;
    } in
    let there = get-insert Str-discrete k k after d in (λ h. ground arith, λ h. ground arith)
