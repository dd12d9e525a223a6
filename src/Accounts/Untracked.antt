-- ===== src/Accounts/Untracked.antt =====
-- copy-trader-v1.6.63/src/grpc/account_subscriber.rs: a mint after `untrack_mint`.
use rust_solana_cc_v.Prelude.{
  true, false, ◌≡◌, ◌⊎◌, inl, inr, Option, none, some, List, [], ◌∷◌, ◌==◌, arith, All, All-mono,
  All-remove, All-get, get-insert, get-remove, ℕ_discrete, Pubkey, Assoc, get, remove, Option-cases,
  Bool-cases, length,
}
use rust_solana_cc_v.Groups.Manager.{member}
use rust_solana_cc_v.Pumpfun.Curve.{from_le_bytes, from_account_data}
use rust_solana_cc_v.Accounts.Subscriber.{
  bonding_curve, ata, AccountInfo, AccountSubscriber, accounts_of, remove_all, ata_amount,
  untrack_mint, untrack_all, update_curve, update_balance, handle_account_update,
}

module _ (m : Pubkey) where
  -- No account belongs to the mint.
  abbrev pub Lacks : Assoc Pubkey Pubkey → Type 0
  Lacks entries = All (λ e. (e.1 == m) ≡ false) entries

  abbrev Covered : List Pubkey → Pubkey × Pubkey → Type 0
  Covered ks e = ((e.1 == m) ≡ false) ⊎ (member e.0 ks ≡ true)

  remove-Covered :
      (k : Pubkey) (ks : List Pubkey) (entries : Assoc Pubkey Pubkey)
      → All (Covered (k ∷ ks)) entries
      → All (Covered ks) (remove ℕ_discrete k entries)
  unfolding remove
  remove-Covered k ks [] h = tt
  remove-Covered k ks ((j, v) ∷ entries) h = ground (arith, remove-Covered k ks entries h.1)

  remove_all-Lacks :
      (ks : List Pubkey) (entries : Assoc Pubkey Pubkey)
      → All (Covered ks) entries
      → Lacks (remove_all ks entries)
  unfolding remove_all
  remove_all-Lacks [] entries h = All-mono (λ e c. ground arith) entries h
  remove_all-Lacks (k ∷ ks) entries h =
      remove_all-Lacks ks (remove ℕ_discrete k entries) (remove-Covered k ks entries h)

  accounts_of-Covered :
      (entries : Assoc Pubkey Pubkey) → All (Covered (accounts_of m entries)) entries
  unfolding accounts_of
  accounts_of-Covered [] = tt
  accounts_of-Covered ((k, v) ∷ entries) =
      (ground arith, All-mono (λ e c. ground arith) entries (accounts_of-Covered entries))

  remove_all-All {ι} :
      {A : Type 0} (P : A → Type ι) (ks : List Pubkey) (entries : Assoc Pubkey A)
      → All (λ e. P e.1) entries
      → All (λ e. P e.1) (remove_all ks entries)
  unfolding remove_all
  remove_all-All P [] entries h = h
  remove_all-All P (k ∷ ks) entries h =
      remove_all-All P ks (remove ℕ_discrete k entries) (All-remove ℕ_discrete P k entries h)

  -- No account of the mint is tracked, and the caches have nothing of it.
  pub record IsUntracked (s : AccountSubscriber) : Type 0 where
    pub no_curves : Lacks s.bonding_curve_to_mint
    pub no_atas : Lacks s.ata_to_mint
    pub no_state : get ℕ_discrete m s.bc_cache ≡ none
    pub no_balance : get ℕ_discrete m s.ata_cache ≡ none

  pub untrack_mint-IsUntracked : (s : AccountSubscriber) → IsUntracked (untrack_mint m s)
  unfolding untrack_mint
  untrack_mint-IsUntracked s = record {
    no_curves =
        remove_all-Lacks (accounts_of m s.bonding_curve_to_mint) s.bonding_curve_to_mint
          (accounts_of-Covered s.bonding_curve_to_mint);
    no_atas =
        remove_all-Lacks (accounts_of m s.ata_to_mint) s.ata_to_mint
          (accounts_of-Covered s.ata_to_mint);
    no_state = ground (arith, get-remove ℕ_discrete m m s.bc_cache);
    no_balance = ground (arith, get-remove ℕ_discrete m m s.ata_cache);
  }

  pub untrack_other :
      (mint : Pubkey) (s : AccountSubscriber) → IsUntracked s → IsUntracked (untrack_mint mint s)
  unfolding untrack_mint
  untrack_other mint s h = record {
    no_curves =
        remove_all-All (λ v. (v == m) ≡ false) (accounts_of mint s.bonding_curve_to_mint)
          s.bonding_curve_to_mint h.no_curves;
    no_atas =
        remove_all-All (λ v. (v == m) ≡ false) (accounts_of mint s.ata_to_mint) s.ata_to_mint
          h.no_atas;
    no_state = ground (arith, get-remove ℕ_discrete mint m s.bc_cache, h.no_state);
    no_balance = ground (arith, get-remove ℕ_discrete mint m s.ata_cache, h.no_balance);
  }

  pub untrack_all-IsUntracked :
      (mints : List Pubkey) (s : AccountSubscriber)
      → IsUntracked s
      → IsUntracked (untrack_all mints s)
  unfolding untrack_all
  untrack_all-IsUntracked [] s h = h
  untrack_all-IsUntracked (mint ∷ mints) s h =
      untrack_all-IsUntracked mints (untrack_mint mint s) (untrack_other mint s h)

  update_curve-IsUntracked :
      (k : Pubkey) (info : AccountInfo) (s : AccountSubscriber)
      → IsUntracked s
      → IsUntracked (update_curve k info s).0
  unfolding update_curve
  update_curve-IsUntracked k info s h =
      elim (Option-cases (get ℕ_discrete k s.bonding_curve_to_mint)) [
        | inl e ↦ rw (e, update_curve) h
        | inr (mint, e) ↦
            let other =
              All-get ℕ_discrete (λ v. (v == m) ≡ false) k s.bonding_curve_to_mint h.no_curves e in
            elim (Option-cases (from_account_data info.bytes)) [
              | inl bad ↦ rw (e, bad, update_curve) h
              | inr (state, good) ↦
                  rw (e, good, update_curve)
                    (record {
                      no_curves = h.no_curves;
                      no_atas = h.no_atas;
                      no_state =
                          ground (
                            arith,
                            get-insert ℕ_discrete mint m state s.bc_cache,
                            h.no_state,
                            other,
                          );
                      no_balance = h.no_balance;
                    })
            ]
      ]

  update_balance-IsUntracked :
      (k : Pubkey) (info : AccountInfo) (s : AccountSubscriber)
      → IsUntracked s
      → IsUntracked (update_balance k info s).0
  unfolding update_balance
  update_balance-IsUntracked k info s h = elim (Option-cases (get ℕ_discrete k s.ata_to_mint)) [
    | inl e ↦ rw (e, update_balance) h
    | inr (mint, e) ↦
        let other = All-get ℕ_discrete (λ v. (v == m) ≡ false) k s.ata_to_mint h.no_atas e in
        let amount = ata_amount info.bytes in
        rw (e, update_balance)
          (record {
            no_curves = h.no_curves;
            no_atas = h.no_atas;
            no_state = h.no_state;
            no_balance =
                ground
                  (arith, get-insert ℕ_discrete mint m amount s.ata_cache, h.no_balance, other);
          })
  ]

  pub handle_account_update-IsUntracked :
      (info : Option AccountInfo) (s : AccountSubscriber)
      → IsUntracked s
      → IsUntracked (handle_account_update info s).0
  unfolding handle_account_update
  handle_account_update-IsUntracked none s h = h
  handle_account_update-IsUntracked (some info) s h =
      let k = from_le_bytes info.pubkey in
      elim (Bool-cases (length info.pubkey == 32)) [
        | inr short ↦ rw short h
        | inl ok ↦ elim (Option-cases (get ℕ_discrete k s.subscribed_accounts)) [
          | inl e ↦ rw (ok, e) h
          | inr (bonding_curve, e) ↦ rw (ok, e) (update_curve-IsUntracked k info s h)
          | inr (ata, e) ↦ rw (ok, e) (update_balance-IsUntracked k info s h)
        ]
      ]
