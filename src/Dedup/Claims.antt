-- ===== src/Dedup/Claims.antt =====
-- copy-trader-v1.6.63/src/main.rs: one buy at a time for a group and a token, and a pause after it.
-- `now` is `Instant::now()`, in nanoseconds.
use rust_solana_cc_v.Prelude.{
  ℕ, ◌+◌, ◌-◌, Bool, true, false, ◌||◌, Option, none, some, ◌++◌, ltb, if◌then◌else◌, retain, Str,
  codes, Str-discrete, Pubkey, Assoc, get, insert, remove,
}
use rust_solana_cc_v.Manager.Persistence.{AddressText}

abbrev pub group_mint_dedup_success : ℕ
group_mint_dedup_success = 2500000000

abbrev pub group_mint_dedup_stale : ℕ
group_mint_dedup_stale = 30000000000

pub record GroupMintClaim : Type 0 where
  pub in_flight : Bool
  pub cooldown_until : Option ℕ
  pub last_touched : ℕ

abbrev pub GroupMintDedup : Type 0
GroupMintDedup = Assoc Str GroupMintClaim

-- `cooldown_until.map(|until| until > now).unwrap_or(false)`
abbrev pub cooling_down : ℕ → Option ℕ → Bool
cooling_down now none = false
cooling_down now (some until) = ltb now until

abbrev fresh_claim : ℕ → GroupMintClaim
fresh_claim now = record { in_flight = true; cooldown_until = none; last_touched = now }

-- The two arms of the match on the entry.
unfoldable pub start_claim : ℕ → Option GroupMintClaim → GroupMintClaim × Bool
start_claim now none = (fresh_claim now, true)
start_claim now (some claim) =
    if claim.in_flight || cooling_down now claim.cooldown_until
    then (record claim { last_touched = now }, false)
    else (fresh_claim now, true)

unfoldable pub try_start_group_mint : ℕ → Str → GroupMintDedup → GroupMintDedup × Bool
unfolding start_claim
try_start_group_mint now key dedup =
    let (claim, started) = start_claim now (get Str-discrete key dedup) in
    (insert Str-discrete key claim dedup, started)

unfoldable pub finish_group_mint : ℕ → Str → Bool → GroupMintDedup → GroupMintDedup
finish_group_mint now key submitted dedup =
    if submitted
    then elim (get Str-discrete key dedup) [
      | none ↦ dedup
      | some claim ↦
          insert Str-discrete key
            (record {
              in_flight = false;
              cooldown_until = some (now + group_mint_dedup_success);
              last_touched = now;
            })
            dedup
    ]
    else remove Str-discrete key dedup

unfoldable pub keep_group_mint_claim : ℕ → GroupMintClaim → Bool
keep_group_mint_claim now claim =
    if claim.in_flight
    then ltb (now - claim.last_touched) group_mint_dedup_stale
    else cooling_down now claim.cooldown_until

-- The round of the cleanup task.
abbrev pub sweep : ℕ → GroupMintDedup → GroupMintDedup
sweep now dedup = retain (λ e. keep_group_mint_claim now e.1) dedup

-- `format!("{}:{}", group_id, mint)`
unfoldable pub group_mint_key : AddressText → Str → Pubkey → Str
group_mint_key t group_id mint = group_id ++ codes ":" ++ t.to_text mint
