-- ===== src/Stream/Wallets.antt =====
-- copy-trader-v1.6.63/src/grpc/subscriber.rs: the wallets that the stream follows.
use rust_solana_cc_v.Prelude.{
  Bool, true, false, List, [], ◌∷◌, ◌==◌, ◌&&◌, if◌then◌else◌, Str, Pubkey,
}
use rust_solana_cc_v.Groups.Ids.{str_leb}

-- `*current == normalized`
unfoldable pub same_wallets : List Pubkey → List Pubkey → Bool
same_wallets [] [] = true
same_wallets [] (w ∷ ws) = false
same_wallets (v ∷ vs) [] = false
same_wallets (v ∷ vs) (w ∷ ws) = v == w && same_wallets vs ws

-- `dedup`: of equal neighbours the first is kept.
unfoldable pub dedup : List Pubkey → List Pubkey
dedup [] = []
dedup (w ∷ ws) = after w ws
  where
    after : Pubkey → List Pubkey → List Pubkey
    after w [] = w ∷ []
    after w (v ∷ vs) = let same = after w vs in if v == w then same else w ∷ after v vs

module _ (to_text : Pubkey → Str) where
  -- `sort_by_key(|wallet| wallet.to_string())`, which is stable, as an insertion sort.
  unfoldable pub insert_by_text : Pubkey → List Pubkey → List Pubkey
  insert_by_text w [] = w ∷ []
  insert_by_text w (v ∷ vs) =
      if str_leb (to_text w) (to_text v) then w ∷ v ∷ vs else v ∷ insert_by_text w vs

  unfoldable pub sort_by_text : List Pubkey → List Pubkey
  unfolding insert_by_text
  sort_by_text [] = []
  sort_by_text (w ∷ ws) = insert_by_text w (sort_by_text ws)

  unfoldable pub normalize_wallets : List Pubkey → List Pubkey
  unfolding sort_by_text dedup
  normalize_wallets ws = dedup (sort_by_text ws)

  -- The wallets after the update, and whether the stream is told of a change.
  unfoldable pub update_target_wallets : List Pubkey → List Pubkey → List Pubkey × Bool
  unfolding normalize_wallets same_wallets
  update_target_wallets ws current =
      let normalized = normalize_wallets ws in
      if same_wallets current normalized then (current, false) else (normalized, true)
