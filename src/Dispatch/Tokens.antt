-- ===== src/Dispatch/Tokens.antt =====
-- copy-trader-v1.6.63/src/main.rs and utils/ata.rs: the token of a detected trade.
use rust_solana_cc_v.Prelude.{
  Bool, Option, none, some, List, [], ◌∷◌, leb, if◌then◌else◌, get_elem?, length, map, codes, Str,
  Pubkey,
}
use rust_solana_cc_v.Groups.Manager.{member}
use rust_solana_cc_v.Stream.Types.{DetectedTrade, token_program_text, wsol_mint}

-- The addresses of `utils/ata.rs`, as `Pubkey::from_str` reads their texts.
unfoldable pub system_texts : List Str
system_texts =
    codes "11111111111111111111111111111111"
    ∷ token_program_text
    ∷ codes "ATokenGPvbdGVxr1b2hvZbsiqW5xWH25efTNsLJA8knL"
    ∷ codes "SysvarRent111111111111111111111111111111111"
    ∷ codes "SysvarC1ock11111111111111111111111111111111"
    ∷ codes "ComputeBudget111111111111111111111111111111"
    ∷ wsol_mint
    ∷ []

module _ (from_str : Str → Pubkey) where
  unfoldable pub is_system_address : Pubkey → Bool
  unfolding system_texts
  is_system_address k = member k (map from_str system_texts)

  -- The mint and its token program. `from_str` reads the text of the token program.
  unfoldable pub extract_token_info : DetectedTrade → Option (Pubkey × Pubkey)
  unfolding is_system_address
  extract_token_info trade = elim trade.token_mint [
    | some mint ↦ elim trade.token_program [
      | some token_program ↦ some (mint, token_program)
      | none ↦ some (mint, from_str token_program_text)
    ]
    | none ↦
        if leb 9 (length trade.instruction_accounts)
        then from_accounts (get_elem? trade.instruction_accounts 2)
            (get_elem? trade.instruction_accounts 8)
        else none
  ]
    where
      from_accounts : Option Pubkey → Option Pubkey → Option (Pubkey × Pubkey)
      from_accounts (some mint) (some token_program) =
          if is_system_address mint then none else some (mint, token_program)
      from_accounts _ _ = none
