-- ===== src/Stream/Types.antt =====
-- copy-trader-v1.6.63/src/processor/mod.rs and grpc/subscriber.rs: a detected trade, and what the stream
-- delivers of a transaction: the messages of yellowstone_grpc_proto, by the fields that are read.
use rust_solana_cc_v.Prelude.{ℕ, Bool, Option, List, Str, codes, Pubkey, [], ◌∷◌}
use rust_solana_cc_v.Trade.{TradeType, TradeOrigin}

-- Bytes are numbers below 256. `detected_at` is a time in nanoseconds.
pub record DetectedTrade : Type 0 where
  pub signature : Str
  pub source_wallet : Pubkey
  pub trade_type : TradeType
  pub trade_origin : TradeOrigin
  pub is_buy : Bool
  pub program_id : Pubkey
  pub instruction_data : List ℕ
  pub instruction_accounts : List Pubkey
  pub all_account_keys : List Pubkey
  pub detected_at : ℕ
  pub sol_amount_lamports : ℕ
  pub raw_transaction_bytes : List ℕ
  pub is_pre_execution : Bool
  pub execution_failed : Bool
  pub token_mint : Option Pubkey
  pub token_program : Option Pubkey

-- `CompiledInstruction` and `InnerInstruction`; `bytes` is the field `data`.
pub record CompiledInstruction : Type 0 where
  pub program_id_index : ℕ
  pub accounts : List ℕ
  pub bytes : List ℕ

-- `TransactionStatusMeta`; the list of inner instructions has one list for each group.
pub record StatusMeta : Type 0 where
  pub err : Option (List ℕ)
  pub fee : ℕ
  pub pre_balances : List ℕ
  pub post_balances : List ℕ
  pub inner_instructions : List (List CompiledInstruction)
  pub loaded_writable_addresses : List (List ℕ)
  pub loaded_readonly_addresses : List (List ℕ)

pub record Message : Type 0 where
  pub account_keys : List (List ℕ)
  pub instructions : List CompiledInstruction

pub record Transaction : Type 0 where
  pub signatures : List (List ℕ)
  pub message : Option Message

-- What the program calls of the Solana SDK, bs58, yellowstone_grpc_proto and bincode. `from_str` is
-- `Pubkey::from_str` on the fixed texts of the source, each of which is an address. `V` is
-- `VersionedTransaction`.
pub record Chain (V : Type 0) : Type 0 where
  pub to_text : Pubkey → Str
  pub from_str : Str → Pubkey
  pub encode : List ℕ → Str
  pub system_program : Pubkey
  pub find_program_address : List (List ℕ) → Pubkey → Pubkey
  pub get_associated_token_address : Pubkey → Pubkey → Pubkey
  pub get_associated_token_address_with_program_id : Pubkey → Pubkey → Pubkey → Pubkey
  pub create_tx_versioned : Transaction → Option V
  pub serialize : V → Option (List ℕ)

abbrev pub pumpfun_program : Str
pumpfun_program = codes "6EF8rrecthR5Dkzon8Nwu78hRvfCKubJ14M5uBEwF6P"

abbrev pub wsol_mint : Str
wsol_mint = codes "So11111111111111111111111111111111111111112"

abbrev pub token_program_text : Str
token_program_text = codes "TokenkegQfeZyiNwAJbNbGKPFXCWuBvf9Ss623VQ5DA"

abbrev pub token_2022_program : Str
token_2022_program = codes "TokenzQdBNbLqP5VEhdkAS6EPFLC1PHnBqCXEpPxuEb"

abbrev pub pumpfun_sell_disc : List ℕ
pumpfun_sell_disc = 51 ∷ 230 ∷ 133 ∷ 164 ∷ 1 ∷ 127 ∷ 131 ∷ 173 ∷ []

abbrev pub cpmm_swap_base_input : List ℕ
cpmm_swap_base_input = 143 ∷ 190 ∷ 90 ∷ 218 ∷ 196 ∷ 30 ∷ 51 ∷ 222 ∷ []

abbrev pub cpmm_swap_base_output : List ℕ
cpmm_swap_base_output = 55 ∷ 217 ∷ 98 ∷ 86 ∷ 163 ∷ 74 ∷ 180 ∷ 173 ∷ []
