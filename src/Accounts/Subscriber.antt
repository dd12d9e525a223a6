-- ===== src/Accounts/Subscriber.antt =====
-- copy-trader-v1.6.63/src/grpc/account_subscriber.rs: the accounts that are tracked for each mint, and
-- the caches of curves and balances. Each concurrent map is an association list.
use rust_solana_cc_v.Prelude.{
  ℕ, ◌-◌, ◌||◌, Option, none, some, List, [], ◌∷◌, ◌==◌, leb, ltb, if◌then◌else◌, length,
  ℕ_discrete, Pubkey, Assoc, get, insert, remove,
}
use rust_solana_cc_v.Groups.Manager.{member}
use rust_solana_cc_v.Pumpfun.Curve.{BondingCurveState, from_le_bytes, slice, from_account_data}

pub data AccountType : Type 0 where
  bonding_curve ata : AccountType

pub record BondingCurveUpdate : Type 0 where
  pub mint : Pubkey
  pub bonding_curve : Pubkey
  pub state : BondingCurveState
  pub slot : ℕ

pub record AtaBalanceUpdate : Type 0 where
  pub ata_address : Pubkey
  pub mint : Pubkey
  pub amount : ℕ
  pub slot : ℕ

pub data AccountUpdate : Type 0 where
  curve_update : BondingCurveUpdate → AccountUpdate
  balance_update : AtaBalanceUpdate → AccountUpdate

-- `SubscribeUpdateAccount` with its account; `bytes` is the field `data`.
pub record AccountInfo : Type 0 where
  pub pubkey : List ℕ
  pub bytes : List ℕ
  pub slot : ℕ

-- Times are nanoseconds. `bc_cache` and `ata_cache` are shared with the readers of balances and prices.
pub record AccountSubscriber : Type 0 where
  pub bonding_curve_to_mint : Assoc Pubkey Pubkey
  pub ata_to_mint : Assoc Pubkey Pubkey
  pub mint_last_touched : Assoc Pubkey ℕ
  pub subscribed_accounts : Assoc Pubkey AccountType
  pub bc_cache : Assoc Pubkey BondingCurveState
  pub ata_cache : Assoc Pubkey ℕ

abbrev pub empty_subscriber : AccountSubscriber
empty_subscriber = record {
  bonding_curve_to_mint = [];
  ata_to_mint = [];
  mint_last_touched = [];
  subscribed_accounts = [];
  bc_cache = [];
  ata_cache = [];
}

unfoldable pub track_bonding_curve : Pubkey → Pubkey → ℕ → AccountSubscriber → AccountSubscriber
track_bonding_curve mint curve now s = record s {
  bonding_curve_to_mint = insert ℕ_discrete curve mint s.bonding_curve_to_mint;
  mint_last_touched = insert ℕ_discrete mint now s.mint_last_touched;
  subscribed_accounts = insert ℕ_discrete curve bonding_curve s.subscribed_accounts;
}

unfoldable pub track_ata : Pubkey → Pubkey → ℕ → AccountSubscriber → AccountSubscriber
track_ata mint ata_address now s = record s {
  ata_to_mint = insert ℕ_discrete ata_address mint s.ata_to_mint;
  mint_last_touched = insert ℕ_discrete mint now s.mint_last_touched;
  subscribed_accounts = insert ℕ_discrete ata_address ata s.subscribed_accounts;
}

-- The accounts of a mint.
unfoldable pub accounts_of : Pubkey → Assoc Pubkey Pubkey → List Pubkey
accounts_of mint [] = []
accounts_of mint ((account, m) ∷ entries) =
    let rest = accounts_of mint entries in if m == mint then account ∷ rest else rest

unfoldable pub remove_all : {A : Type 0} → List Pubkey → Assoc Pubkey A → Assoc Pubkey A
remove_all [] m = m
remove_all (k ∷ ks) m = remove_all ks (remove ℕ_discrete k m)

unfoldable pub untrack_mint : Pubkey → AccountSubscriber → AccountSubscriber
unfolding accounts_of remove_all
untrack_mint mint s =
    let bc_to_remove = accounts_of mint s.bonding_curve_to_mint in
    let ata_to_remove = accounts_of mint s.ata_to_mint in
    record {
      bonding_curve_to_mint = remove_all bc_to_remove s.bonding_curve_to_mint;
      ata_to_mint = remove_all ata_to_remove s.ata_to_mint;
      mint_last_touched = remove ℕ_discrete mint s.mint_last_touched;
      subscribed_accounts =
          remove_all ata_to_remove (remove_all bc_to_remove s.subscribed_accounts);
      bc_cache = remove ℕ_discrete mint s.bc_cache;
      ata_cache = remove ℕ_discrete mint s.ata_cache;
    }

-- `elapsed` is the time since then, 0 if that is later.
unfoldable pub stale_mints : List Pubkey → ℕ → ℕ → Assoc Pubkey ℕ → List Pubkey
stale_mints active_mints max_idle now [] = []
stale_mints active_mints max_idle now ((mint, touched) ∷ entries) =
    let rest = stale_mints active_mints max_idle now entries in
    if member mint active_mints || ltb (now - touched) max_idle then rest else mint ∷ rest

unfoldable pub untrack_all : List Pubkey → AccountSubscriber → AccountSubscriber
unfolding untrack_mint
untrack_all [] s = s
untrack_all (mint ∷ mints) s = untrack_all mints (untrack_mint mint s)

unfoldable pub prune_stale_candidate_mints :
    List Pubkey → ℕ → ℕ → AccountSubscriber → AccountSubscriber × ℕ
unfolding stale_mints untrack_all
prune_stale_candidate_mints active_mints max_idle now s =
    let stale = stale_mints active_mints max_idle now s.mint_last_touched in
    (untrack_all stale s, length stale)

-- The balance of a token account, 0 where the data is too short.
unfoldable pub ata_amount : List ℕ → ℕ
ata_amount bytes = if leb 72 (length bytes) then from_le_bytes (slice 64 8 bytes) else 0

-- What is sent is nothing or one update.
unfoldable pub update_curve :
    Pubkey → AccountInfo → AccountSubscriber → AccountSubscriber × Option AccountUpdate
update_curve pubkey info s = elim (get ℕ_discrete pubkey s.bonding_curve_to_mint) [
  | none ↦ (s, none)
  | some mint ↦ elim (from_account_data info.bytes) [
    | none ↦ (s, none)
    | some state ↦ (
      record s { bc_cache = insert ℕ_discrete mint state s.bc_cache },
      some (
          curve_update
            (record { mint = mint; bonding_curve = pubkey; state = state; slot = info.slot })),
    )
  ]
]

unfoldable pub update_balance :
    Pubkey → AccountInfo → AccountSubscriber → AccountSubscriber × Option AccountUpdate
unfolding ata_amount
update_balance pubkey info s = elim (get ℕ_discrete pubkey s.ata_to_mint) [
  | none ↦ (s, none)
  | some mint ↦ (
    record s { ata_cache = insert ℕ_discrete mint (ata_amount info.bytes) s.ata_cache },
    some (
        balance_update (record {
          ata_address = pubkey;
          mint = mint;
          amount = ata_amount info.bytes;
          slot = info.slot;
        })),
  )
]

-- What other tasks write to the caches: the state of a curve that was fetched (main.rs), and the removal of
-- the balance of a token that was sold out (tx/sell_executor.rs).
unfoldable pub put_fetched_curve :
    Pubkey → BondingCurveState → AccountSubscriber → AccountSubscriber
put_fetched_curve mint state s = record s { bc_cache = insert ℕ_discrete mint state s.bc_cache }

unfoldable pub remove_sold_balance : Pubkey → AccountSubscriber → AccountSubscriber
remove_sold_balance mint s = record s { ata_cache = remove ℕ_discrete mint s.ata_cache }

unfoldable pub handle_account_update :
    Option AccountInfo → AccountSubscriber → AccountSubscriber × Option AccountUpdate
unfolding update_curve update_balance
handle_account_update none s = (s, none)
handle_account_update (some info) s =
    let pubkey = from_le_bytes info.pubkey in
    if length info.pubkey == 32
    then elim (get ℕ_discrete pubkey s.subscribed_accounts) [
      | none ↦ (s, none)
      | some kind ↦ elim kind [
        | bonding_curve ↦ update_curve pubkey info s
        | ata ↦ update_balance pubkey info s
      ]
    ]
    else (s, none)
