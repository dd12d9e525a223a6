-- ===== src/Tests/Dedups.antt =====
-- The claims and the signatures.
use rust_solana_cc_v.Prelude.{
  ◌+◌, ◌≡◌, ◌≤◌, ◌⊎◌, ◌↔◌, refl, true, false, some, none, List, [], ◌∷◌, arith, Str, Str-discrete,
  codes, get,
}
use rust_solana_cc_v.Dedup.Claims.{
  GroupMintClaim, GroupMintDedup, try_start_group_mint, finish_group_mint, start_claim,
  keep_group_mint_claim, group_mint_dedup_success, group_mint_dedup_stale,
}
use rust_solana_cc_v.Dedup.Signatures.{Sighting, should_skip_signature}
use rust_solana_cc_v.Dedup.Exclusion.{
  Use, starts, finishes, sweeps, grants, releases, grants-le-releases, keep_group_mint_claim_sound,
  finish_group_mint_cools,
}
use rust_solana_cc_v.Dedup.Passes.{
  CacheEvent, seen, swept, cache_after, remembered, any_landed, should_skip_signature_lem,
}

abbrev claim_key : Str
claim_key = codes "g1:7"

abbrev uses : List Use
uses =
    starts 0 claim_key
    ∷ starts 1 claim_key
    ∷ finishes 2 claim_key true
    ∷ sweeps 3
    ∷ starts 4 claim_key
    ∷ []

grants-le-releases_example : grants claim_key uses [] ≤ 1 + releases claim_key uses
grants-le-releases_example = grants-le-releases claim_key uses

abbrev cooled : GroupMintClaim
cooled = record { in_flight = false; cooldown_until = some 5; last_touched = 1 }

cooled_dropped : keep_group_mint_claim 6 cooled ≡ false
unfolding keep_group_mint_claim
cooled_dropped = refl

keep_group_mint_claim_sound_example :
    ((cooled.in_flight ≡ true) × (1 + group_mint_dedup_stale ≤ 6))
    ⊎ (start_claim 8 (some cooled) ≡ start_claim 8 none)
keep_group_mint_claim_sound_example =
    keep_group_mint_claim_sound 6 8 cooled (omega arith) cooled_dropped

abbrev claims : GroupMintDedup
claims = (claim_key, record { in_flight = true; cooldown_until = none; last_touched = 0 }) ∷ []

claim_found :
    get Str-discrete claim_key claims
    ≡ some (record { in_flight = true; cooldown_until = none; last_touched = 0 })
unfolding get Str-discrete
claim_found = refl

finish_group_mint_cools_example :
    ((try_start_group_mint 9 claim_key (finish_group_mint 3 claim_key true claims)).1 ≡ true)
    ↔ (3 + group_mint_dedup_success ≤ 9)
finish_group_mint_cools_example =
    finish_group_mint_cools 3 9 claim_key claims
      (record { in_flight = true; cooldown_until = none; last_touched = 0 }) claim_found

abbrev pre : Sighting
pre = record { signature = codes "a"; is_pre_execution = true }

abbrev late : Sighting
late = record { signature = codes "a"; is_pre_execution = false }

-- The landed trade at 1 is forgotten by the round at 12 seconds, the one before its execution at 15
-- seconds is not forgotten by the round at 20 seconds.
abbrev seen_twice : List CacheEvent
seen_twice = swept 20000000000 ∷ seen 15000000000 pre ∷ swept 12000000000 ∷ seen 1 late ∷ []

should_skip_signature_lem_example :
    (should_skip_signature 21000000000 late (cache_after seen_twice)).1
    ≡ any_landed (remembered (codes "a") seen_twice)
should_skip_signature_lem_example = should_skip_signature_lem 21000000000 late seen_twice

not_skipped : any_landed (remembered (codes "a") seen_twice) ≡ false
unfolding remembered any_landed Str-discrete
not_skipped = refl
