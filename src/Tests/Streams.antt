-- ===== src/Tests/Streams.antt =====
-- A chain of a few addresses, and transactions of the wallet 11 on it.
use rust_solana_cc_v.Prelude.{
  ℕ, ◌+◌, ◌-◌, ◌≡◌, ◌≤◌, ◌<◌, ◌↔◌, refl, ltb, leb, min, true, false, ◌==◌, ◌||◌, ◌&&◌,
  if◌then◌else◌, Option, none, some, List, [], ◌∷◌, ◌++◌, arith, length, if_cases, Str,
  Str-discrete, ℕ_discrete, codes, Pubkey,
}
use rust_solana_cc_v.Trade.{pumpfun, direct}
use rust_solana_cc_v.Groups.Manager.{member}
use rust_solana_cc_v.Pumpfun.Curve.{u64_mod, from_le_bytes}
use rust_solana_cc_v.Pumpfun.Buy.{buy_discriminator, ok, buy, parse_target_buy_instruction}
use rust_solana_cc_v.Pumpfun.Layout.{to_le_bytes}
use rust_solana_cc_v.Stream.Types.{
  DetectedTrade, CompiledInstruction, StatusMeta, Message, Transaction, Chain, pumpfun_program,
}
use rust_solana_cc_v.Stream.Wallets.{normalize_wallets, update_target_wallets}
use rust_solana_cc_v.Stream.Direction.{direction, detect_buy_or_sell}
use rust_solana_cc_v.Stream.Lamports.{
  extract_buy_lamports, meta_failed, enrich_trade_from_meta, position_of,
  derive_buy_lamports_from_meta,
}
use rust_solana_cc_v.Stream.Instructions.{
  all_slots, extract_token_mint, extract_token_program, detect_pumpfun_token_program,
  trade_of_instruction, try_parse_instruction,
}
use rust_solana_cc_v.Stream.Cpi.{
  Outcome, returned, panicked, serialize_transaction_from_proto, system_addresses, find_mint,
  log_slices_fit, try_detect_cpi_pumpfun,
}
use rust_solana_cc_v.Stream.Parse.{
  keys_of, account_keys_of, find_source, signature_text, first_trade, complete_trade, rounds,
  parse_transaction,
}
use rust_solana_cc_v.Stream.Found.{any, is_trade, calls_pumpfun, parse_transaction-executed}
use rust_solana_cc_v.Stream.Describes.{Describes}
use rust_solana_cc_v.Stream.Sound.{parse_transaction_sound}
use rust_solana_cc_v.Stream.Errors.{is_returned, is_missing, parse_transaction_returns}
use rust_solana_cc_v.Stream.Transfers.{TakesAll, GroupsTake, transfers, other_program}
use rust_solana_cc_v.Stream.Amounts.{
  sum, sum_groups, extract_buy_lamports-parsed, derive_buy_lamports-exact,
}
use rust_solana_cc_v.Stream.Canonical.{update_target_wallets-same}
use rust_solana_cc_v.Stream.Subscribe.{
  StreamEvent, transaction_update, stream_end, check_subscription, wallets_changed,
  build_subscribe_request, start, check_wallets, subscribe,
}
use rust_solana_cc_v.Stream.Runs.{in_force, IsConsistent, subscribe-IsConsistent}

-- The text of an address: Pump.fun's for 54, else thirteen characters.
abbrev text : Pubkey → Str
text k = if k == 54 then pumpfun_program else codes "address-text" ++ k ∷ []

abbrev toy : Chain (List ℕ)
toy = record {
  to_text = text;
  from_str = λ s. elim s [ [] ↦ 0 | c ∷ _ ↦ c ];
  encode = λ bytes. codes "signature" ++ bytes;
  system_program = 1;
  find_program_address = λ seeds program. 50;
  get_associated_token_address = λ wallet mint. 1000 + wallet;
  get_associated_token_address_with_program_id = λ wallet mint program. 2000 + wallet;
  create_tx_versioned = λ tx. some [];
  serialize = λ v. some v;
}

text-long : (k : Pubkey) → 12 ≤ length (text k)
text-long k = if_cases (λ t. 12 ≤ length t) (k == 54) (λ is. omega arith) (λ other. omega arith)

-- A buy of 9 tokens for 500 lamports, by the wallet 11.
abbrev buy_bytes : List ℕ
buy_bytes = buy_discriminator ++ to_le_bytes 8 9 ++ to_le_bytes 8 500

abbrev message : Message
message = record {
  account_keys = to_le_bytes 32 11 ∷ to_le_bytes 32 54 ∷ [];
  instructions = record { program_id_index = 1; accounts = 0 ∷ []; bytes = buy_bytes } ∷ [];
}

abbrev transfer : CompiledInstruction
transfer = record {
  program_id_index = 1;
  accounts = 0 ∷ [];
  bytes = 2 ∷ 0 ∷ 0 ∷ 0 ∷ to_le_bytes 8 700;
}

abbrev status : StatusMeta
status = record {
  err = none;
  fee = 5;
  pre_balances = 10000 ∷ 0 ∷ [];
  post_balances = 9000 ∷ 0 ∷ [];
  inner_instructions = (transfer ∷ []) ∷ [];
  loaded_writable_addresses = [];
  loaded_readonly_addresses = to_le_bytes 32 84 ∷ [];
}

abbrev signed : Transaction
signed = record { signatures = (7 ∷ []) ∷ []; message = some message }

abbrev parsed : Outcome (Option DetectedTrade)
parsed = parse_transaction toy (11 ∷ []) (7 ∷ []) signed (some message) (some status) 3

parse_transaction-executed_example : is_trade parsed ≡ (
    let keys = account_keys_of message (some status) in
    any (λ k. member k (11 ∷ [])) keys
    && (any (calls_pumpfun toy keys) message.instructions
        || any (any (calls_pumpfun toy keys)) status.inner_instructions))
parse_transaction-executed_example =
    parse_transaction-executed toy (11 ∷ []) (7 ∷ []) signed message status 3

-- It is a trade.
is_found : is_trade parsed ≡ true
unfolding parse_transaction account_keys_of keys_of find_source rounds first_trade
    try_parse_instruction to_le_bytes from_le_bytes Str-discrete ℕ_discrete
is_found = refl

-- The trade, which was found by the outer instruction.
abbrev found_trade : DetectedTrade
found_trade = record {
  signature = codes "signature" ++ 7 ∷ [];
  source_wallet = 11;
  trade_type = pumpfun;
  trade_origin = direct;
  is_buy = true;
  program_id = 54;
  instruction_data = buy_bytes;
  instruction_accounts = 11 ∷ [];
  all_account_keys = 11 ∷ 54 ∷ 84 ∷ [];
  detected_at = 3;
  sol_amount_lamports = 500;
  raw_transaction_bytes = [];
  is_pre_execution = false;
  execution_failed = false;
  token_mint = none;
  token_program = none;
}

parsed_is : parsed ≡ returned (some found_trade)
unfolding parse_transaction account_keys_of keys_of find_source signature_text rounds first_trade
    try_parse_instruction trade_of_instruction extract_token_mint extract_token_program all_slots
    detect_buy_or_sell direction extract_buy_lamports complete_trade enrich_trade_from_meta
    meta_failed serialize_transaction_from_proto to_le_bytes from_le_bytes Str-discrete ℕ_discrete
parsed_is = refl

parse_transaction_sound_example :
    (member 11 (11 ∷ []) ≡ true)
    × (member 11 (account_keys_of message (some status)) ≡ true)
    × Describes toy (account_keys_of message (some status)) 11 3 (some status) signed found_trade
parse_transaction_sound_example =
    parse_transaction_sound toy (11 ∷ []) (7 ∷ []) signed message (some status) 3 found_trade
      parsed_is

long_signature : 8 ≤ length (signature_text toy (7 ∷ []))
unfolding signature_text
long_signature = omega arith

parse_transaction_returns_example :
    (is_returned (parse_transaction toy (11 ∷ []) (7 ∷ []) signed (some message) none 3) ≡ true)
    × (is_missing (parse_transaction toy (11 ∷ []) (7 ∷ []) signed (some message) none 3) ≡ false)
parse_transaction_returns_example =
    parse_transaction_returns toy text-long (11 ∷ []) (7 ∷ []) signed (some message) none 3
      long_signature

-- A wrapped trade: the wallet calls a program that is not Pump.fun's, whose key is there with the mint 90
-- and its bonding curve 50.
abbrev wrapped : Message
wrapped = record {
  account_keys =
      to_le_bytes 32 11
      ∷ to_le_bytes 32 54
      ∷ to_le_bytes 32 90
      ∷ to_le_bytes 32 50
      ∷ to_le_bytes 32 99
      ∷ [];
  instructions = record { program_id_index = 4; accounts = 0 ∷ []; bytes = [] } ∷ [];
}

-- It is a trade before execution, unless it has no signature: then the line of the log panics.
wrapped_found :
    is_trade (parse_transaction toy (11 ∷ []) (7 ∷ []) signed (some wrapped) none 3) ≡ true
unfolding parse_transaction account_keys_of keys_of find_source signature_text rounds first_trade
    try_parse_instruction try_detect_cpi_pumpfun find_mint system_addresses log_slices_fit
    detect_pumpfun_token_program to_le_bytes from_le_bytes Str-discrete ℕ_discrete
wrapped_found = refl

wrapped_unsigned : parse_transaction toy (11 ∷ []) [] signed (some wrapped) none 3 ≡ panicked
unfolding parse_transaction account_keys_of keys_of find_source signature_text rounds first_trade
    try_parse_instruction try_detect_cpi_pumpfun find_mint system_addresses log_slices_fit
    detect_pumpfun_token_program to_le_bytes from_le_bytes Str-discrete ℕ_discrete
wrapped_unsigned = refl

target_parsed : parse_target_buy_instruction buy_bytes ≡ ok (buy 9 500)
unfolding parse_target_buy_instruction to_le_bytes from_le_bytes Str-discrete ℕ_discrete
target_parsed = refl

target_amounts_read :
    (detect_buy_or_sell toy [] buy_bytes pumpfun [] [] ≡ true)
    × (extract_buy_lamports pumpfun buy_bytes ≡ 500)
    × (0 < 500)
target_amounts_read = extract_buy_lamports-parsed toy [] buy_bytes [] [] (buy 9 500) target_parsed

-- The inner transfer, of the system program in slot 2.
abbrev paying_keys : List Pubkey
paying_keys = 11 ∷ 54 ∷ 1 ∷ []

abbrev paid : StatusMeta
paid = record status { inner_instructions = (record transfer { program_id_index = 2 } ∷ []) ∷ [] }

wallet_first : position_of 11 paying_keys ≡ some 0
unfolding position_of
wallet_first = refl

outer_takes : TakesAll 1 paying_keys 11 message.instructions (0 ∷ [])
unfolding TakesAll
outer_takes = (other_program (λ e. cc e) refl, tt)

inner_takes : GroupsTake 1 paying_keys 11 paid.inner_instructions ((700 ∷ []) ∷ [])
unfolding GroupsTake TakesAll to_le_bytes
inner_takes = ((transfers 0 [] [] refl refl refl refl (omega arith), tt), tt)

derive_buy_lamports-exact_example : derive_buy_lamports_from_meta 1 paid message paying_keys 11 ≡ (
    if ltb 0 (sum (0 ∷ []) + sum_groups ((700 ∷ []) ∷ []))
    then some (min (sum (0 ∷ []) + sum_groups ((700 ∷ []) ∷ [])) (u64_mod - 1))
    else (if leb 10000 9000 then none else some (10000 - (9000 + paid.fee))))
derive_buy_lamports-exact_example =
    derive_buy_lamports-exact 1 paying_keys 11 paid message (0 ∷ []) ((700 ∷ []) ∷ []) 0 10000 9000
      outer_takes inner_takes wallet_first refl refl

abbrev one_char : Pubkey → Str
one_char k = k ∷ []

one_char-injective : (v w : Pubkey) → one_char v ≡ one_char w → v ≡ w
one_char-injective v w h = cc h

update_target_wallets-same_example :
    (((update_target_wallets one_char
          (12 ∷ 11 ∷ 12 ∷ [])
          (normalize_wallets one_char (11 ∷ 12 ∷ []))).1
        ≡ false)
      ↔ ((k : Pubkey) → member k (11 ∷ 12 ∷ []) ≡ member k (12 ∷ 11 ∷ 12 ∷ [])))
    × ((k : Pubkey)
        → member k
            (update_target_wallets one_char
              (12 ∷ 11 ∷ 12 ∷ [])
              (normalize_wallets one_char (11 ∷ 12 ∷ []))).0
          ≡ member k (12 ∷ 11 ∷ 12 ∷ []))
update_target_wallets-same_example =
    update_target_wallets-same one_char one_char-injective (11 ∷ 12 ∷ []) (12 ∷ 11 ∷ 12 ∷ [])

abbrev events : List StreamEvent
events =
    transaction_update
      (some (record { signature = 7 ∷ []; transaction = some signed; meta = some status })) 3 true
    ∷ wallets_changed (12 ∷ [])
    ∷ check_subscription true
    ∷ stream_end
    ∷ []

subscribe-IsConsistent_example :
    let s = subscribe toy events (start toy (11 ∷ [])) in
    IsConsistent toy s
    × (in_force toy (check_wallets toy true s).requests
        ≡ build_subscribe_request toy s.target_wallets)
subscribe-IsConsistent_example = subscribe-IsConsistent toy (11 ∷ []) events
