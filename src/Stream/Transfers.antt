-- ===== src/Stream/Transfers.antt =====
-- copy-trader-v1.6.63/src/grpc/subscriber.rs: the lamports of a transfer, against the layout of the
-- instructions of the system program.
use rust_solana_cc_v.Prelude.{
  ℕ, ◌^◌, ◌≡◌, ◌≢◌, ◌<◌, false, Option, none, some, inl, inr, List, [], ◌∷◌, ◌++◌, Option-cases,
  Pubkey, arith, get_elem?, take, length, ltb,
}
use rust_solana_cc_v.Pumpfun.Curve.{from_le_bytes, slice}
use rust_solana_cc_v.Pumpfun.Layout.{to_le_bytes, from_le_bytes-to_le_bytes}
use rust_solana_cc_v.Stream.Types.{CompiledInstruction}
use rust_solana_cc_v.Stream.Lamports.{extract_system_transfer_lamports, key_is}

module _ (system_program : Pubkey) (keys : List Pubkey) (wallet : Pubkey) where
  -- The lamports that an instruction takes from the wallet: those of a transfer of the system program,
  -- whose data are the number 2 and the amount, from the wallet as its first account; and none of an
  -- instruction of another program, from another account, or of another kind.
  pub data Takes (ix : CompiledInstruction) (n : ℕ) : Type 0 where
    transfers :
        (a : ℕ) (accounts rest : List ℕ)
        → get_elem? keys ix.program_id_index ≡ some system_program
        → ix.accounts ≡ a ∷ accounts
        → get_elem? keys a ≡ some wallet
        → ix.bytes ≡ to_le_bytes 4 2 ++ (to_le_bytes 8 n ++ rest)
        → n < 256 ^ 8
        → Takes ix n
    other_program : get_elem? keys ix.program_id_index ≢ some system_program → n ≡ 0 → Takes ix n
    other_account :
        (a : ℕ) (accounts : List ℕ)
        → ix.accounts ≡ a ∷ accounts
        → get_elem? keys a ≢ some wallet
        → n ≡ 0
        → Takes ix n
    other_kind :
        (kind : ℕ) (rest : List ℕ)
        → ix.bytes ≡ to_le_bytes 4 kind ++ rest
        → kind < 256 ^ 4
        → kind ≢ 2
        → n ≡ 0
        → Takes ix n

  key_is-false : (o : Option Pubkey) (k : Pubkey) → o ≢ some k → key_is o k ≡ false
  key_is-false none k h = ground arith
  key_is-false (some p) k h = ground arith

  pub extract-Takes :
      (ix : CompiledInstruction) (n : ℕ)
      → Takes ix n
      → extract_system_transfer_lamports system_program ix keys wallet ≡ n
  unfolding extract_system_transfer_lamports to_le_bytes
  extract-Takes ix n (transfers a accounts rest program payer from_wallet layout fits) =
      let tag : from_le_bytes (take 4 ix.bytes) ≡ 2 =
        rw layout (from_le_bytes-to_le_bytes 4 2 (omega arith)) in
      let amount : from_le_bytes (slice 4 8 ix.bytes) ≡ n =
        rw layout (from_le_bytes-to_le_bytes 8 n fits) in
      let whole : ltb (length ix.bytes) 12 ≡ false = rw layout (ground arith) in
      ground (arith, program, payer, from_wallet, tag, amount, whole)
  extract-Takes ix n (other_program foreign nothing) =
      let missed = key_is-false (get_elem? keys ix.program_id_index) system_program foreign in
      ground (arith, missed, nothing)
  extract-Takes ix n (other_account a accounts payer foreign nothing) =
      elim (Option-cases (get_elem? keys a)) [
        | inl e ↦ ground (arith, payer, e, nothing)
        | inr (k, e) ↦ ground (arith, payer, e, foreign, nothing)
      ]
  extract-Takes ix n (other_kind kind rest layout small other nothing) =
      let tag : from_le_bytes (take 4 ix.bytes) ≡ kind =
        rw layout (from_le_bytes-to_le_bytes 4 kind small) in
      ground (arith, tag, other, nothing)

  -- The instructions take these amounts, one after another.
  unfoldable pub TakesAll : List CompiledInstruction → List ℕ → Type 0
  TakesAll [] [] = Unit
  TakesAll [] (n ∷ ns) = ⊥
  TakesAll (ix ∷ ixs) [] = ⊥
  TakesAll (ix ∷ ixs) (n ∷ ns) = Takes ix n × TakesAll ixs ns

  unfoldable pub GroupsTake : List (List CompiledInstruction) → List (List ℕ) → Type 0
  GroupsTake [] [] = Unit
  GroupsTake [] (ns ∷ nss) = ⊥
  GroupsTake (group ∷ groups) [] = ⊥
  GroupsTake (group ∷ groups) (ns ∷ nss) = TakesAll group ns × GroupsTake groups nss
