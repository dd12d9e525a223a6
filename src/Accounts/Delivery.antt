-- ===== src/Accounts/Delivery.antt =====
-- copy-trader-v1.6.63/src/grpc/account_subscriber.rs: an update of an account that is tracked.
use rust_solana_cc_v.Prelude.{
  ℕ, ◌≡◌, refl, true, ◌==◌, ◌∙◌, ap, Option, none, some, List, arith, length, ite, ℕ_discrete,
  Pubkey, get, insert, get-insert, get-insert_self,
}
use rust_solana_cc_v.Pumpfun.Curve.{BondingCurveState, from_le_bytes, from_account_data}
use rust_solana_cc_v.Accounts.Subscriber.{
  bonding_curve, ata, curve_update, balance_update, AccountInfo, AccountUpdate, AccountSubscriber,
  track_bonding_curve, track_ata, ata_amount, update_curve, update_balance, handle_account_update,
}

-- A cache after a value was put in for the mint.
abbrev pub put_in : {A : Type 0} → Pubkey → A → List (Pubkey × A) → Pubkey → Option A
put_in m v cache j = ite (ℕ_discrete m j) (some v) (get ℕ_discrete j cache)

handled_as_ata :
    (info : AccountInfo) (s : AccountSubscriber)
    → length info.pubkey ≡ 32
    → get ℕ_discrete (from_le_bytes info.pubkey) s.subscribed_accounts ≡ some ata
    → handle_account_update (some info) s ≡ update_balance (from_le_bytes info.pubkey) info s
unfolding handle_account_update
handled_as_ata info s h kind =
    let whole_key : (length info.pubkey == 32) ≡ true = ground arith in
    rw (whole_key, kind, handle_account_update) refl

handled_as_curve :
    (info : AccountInfo) (s : AccountSubscriber)
    → length info.pubkey ≡ 32
    → get ℕ_discrete (from_le_bytes info.pubkey) s.subscribed_accounts ≡ some bonding_curve
    → handle_account_update (some info) s ≡ update_curve (from_le_bytes info.pubkey) info s
unfolding handle_account_update
handled_as_curve info s h kind =
    let whole_key : (length info.pubkey == 32) ≡ true = ground arith in
    rw (whole_key, kind, handle_account_update) refl

balance_put :
    (k m : Pubkey) (info : AccountInfo) (s : AccountSubscriber)
    → get ℕ_discrete k s.ata_to_mint ≡ some m
    → update_balance k info s ≡ (
      record s { ata_cache = insert ℕ_discrete m (ata_amount info.bytes) s.ata_cache },
      some (
          balance_update (record {
            ata_address = k;
            mint = m;
            amount = ata_amount info.bytes;
            slot = info.slot;
          })),
    )
unfolding update_balance
balance_put k m info s mint = rw (mint, update_balance) refl

-- A cache after the state that was read, if one was, and the update that says so.
abbrev pub put_read : {A : Type 0} → Pubkey → Option A → List (Pubkey × A) → Pubkey → Option A
put_read m none cache j = get ℕ_discrete j cache
put_read m (some a) cache j = put_in m a cache j

abbrev pub curve_sent : Pubkey → Pubkey → ℕ → Option BondingCurveState → Option AccountUpdate
curve_sent m k slot none = none
curve_sent m k slot (some state) =
    some (curve_update (record { mint = m; bonding_curve = k; state = state; slot = slot }))

curve_put :
    (k m j : Pubkey) (info : AccountInfo) (s : AccountSubscriber)
    → get ℕ_discrete k s.bonding_curve_to_mint ≡ some m
    → (o : Option BondingCurveState) → from_account_data info.bytes ≡ o
    → (get ℕ_discrete j (update_curve k info s).0.bc_cache ≡ put_read m o s.bc_cache j)
      × ((update_curve k info s).1 ≡ curve_sent m k info.slot o)
unfolding update_curve
curve_put k m j info s mint none read = rw (mint, read, update_curve) (refl, refl)
curve_put k m j info s mint (some state) read =
    rw (mint, read, update_curve) (get-insert ℕ_discrete m j state s.bc_cache, refl)

-- An update of an account of 32 bytes that was just tracked for a mint, as a token account or as a
-- curve. For a token account the amount as it is read, which is 0 where the data is too short, goes into
-- the mint's entry of its cache and into no other, and the update that is sent on says so. For a curve
-- the same holds of the state if the data holds one; if not, the cache stays and nothing is sent.
pub handle_account_update-tracked :
    (m j : Pubkey) (now : ℕ) (info : AccountInfo) (s : AccountSubscriber)
    → length info.pubkey ≡ 32
    → (let k = from_le_bytes info.pubkey in
        let balance = handle_account_update (some info) (track_ata m k now s) in
        let curve = handle_account_update (some info) (track_bonding_curve m k now s) in
        (get ℕ_discrete j balance.0.ata_cache ≡ put_in m (ata_amount info.bytes) s.ata_cache j)
        × (balance.1
            ≡ some (
                balance_update (record {
                  ata_address = k;
                  mint = m;
                  amount = ata_amount info.bytes;
                  slot = info.slot;
                })))
        × (get ℕ_discrete j curve.0.bc_cache
            ≡ put_read m (from_account_data info.bytes) s.bc_cache j)
        × (curve.1 ≡ curve_sent m k info.slot (from_account_data info.bytes)))
unfolding track_ata track_bonding_curve
handle_account_update-tracked m j now info s h =
    let k = from_le_bytes info.pubkey in
    let balance =
      handled_as_ata info (track_ata m k now s) h
        (get-insert_self ℕ_discrete k ata s.subscribed_accounts)
      ∙ balance_put k m info (track_ata m k now s) (get-insert_self ℕ_discrete k m s.ata_to_mint) in
    let curve =
      handled_as_curve info (track_bonding_curve m k now s) h
        (get-insert_self ℕ_discrete k bonding_curve s.subscribed_accounts) in
    let put =
      curve_put k m j info (track_bonding_curve m k now s)
        (get-insert_self ℕ_discrete k m s.bonding_curve_to_mint) (from_account_data info.bytes)
        refl in
    (
      ap (λ r. get ℕ_discrete j r.0.ata_cache) balance
          ∙ get-insert ℕ_discrete m j (ata_amount info.bytes) s.ata_cache,
      ap (λ r. r.1) balance,
      ap (λ r. get ℕ_discrete j r.0.bc_cache) curve ∙ put.0,
      ap (λ r. r.1) curve ∙ put.1,
    )
