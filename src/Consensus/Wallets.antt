-- ===== src/Consensus/Wallets.antt =====
-- copy-trader-v1.6.63/src/consensus/engine.rs: the wallets of the signals of an entry.
use rust_solana_cc_v.Prelude.{
  ◌≡◌, ◌≢◌, sym, Bool, none, List, [], ◌∷◌, ◌++◌, map, arith, retain, All, Pubkey,
}
use rust_solana_cc_v.Consensus.Signals.{BuySignal, find_wallet, replace_wallet}

abbrev pub Distinct : List Pubkey → Type 0
Distinct [] = Unit
Distinct (w ∷ ws) = All (λ v. v ≢ w) ws × Distinct ws

abbrev pub wallets : List BuySignal → List Pubkey
wallets = map (λ s. s.wallet)

abbrev Absent : Pubkey → List BuySignal → Type 0
Absent w ss = All (λ v. v ≢ w) (wallets ss)

Absent-retain :
    (p : BuySignal → Bool) (w : Pubkey) (ss : List BuySignal) → Absent w ss → Absent w (retain p ss)
Absent-retain p w [] h = tt
Absent-retain p w (s ∷ ss) h = ground (arith, Absent-retain p w ss h.1)

pub Distinct-retain :
    (p : BuySignal → Bool) (ss : List BuySignal)
    → Distinct (wallets ss)
    → Distinct (wallets (retain p ss))
Distinct-retain p [] h = tt
Distinct-retain p (s ∷ ss) h =
    ground (arith, Absent-retain p s.wallet ss h.0, Distinct-retain p ss h.1)

Absent-replace :
    (t : BuySignal) (w : Pubkey) (ss : List BuySignal)
    → t.wallet ≢ w
    → Absent w ss
    → Absent w (replace_wallet t ss)
unfolding replace_wallet
Absent-replace t w [] n h = tt
Absent-replace t w (s ∷ ss) n h = ground (arith, Absent-replace t w ss n h.1)

pub Distinct-replace :
    (t : BuySignal) (ss : List BuySignal)
    → Distinct (wallets ss)
    → Distinct (wallets (replace_wallet t ss))
unfolding replace_wallet
Distinct-replace t [] h = tt
Distinct-replace t (s ∷ ss) h =
    ground (arith, Absent-replace t s.wallet ss, Distinct-replace t ss h.1)

find-none-Absent : (w : Pubkey) (ss : List BuySignal) → find_wallet w ss ≡ none → Absent w ss
unfolding find_wallet
find-none-Absent w [] h = tt
find-none-Absent w (s ∷ ss) h = ground (arith, find-none-Absent w ss)

Distinct-push_new :
    (s : BuySignal) (ss : List BuySignal)
    → Absent s.wallet ss
    → Distinct (wallets ss)
    → Distinct (wallets (ss ++ s ∷ []))
Distinct-push_new s [] h d = (tt, tt)
Distinct-push_new s (x ∷ ss) h d =
    (Absent-push ss d.0 (λ e. h.0 (sym e)), Distinct-push_new s ss h.1 d.1)
  where
    Absent-push :
        (xs : List BuySignal)
        → Absent x.wallet xs
        → s.wallet ≢ x.wallet
        → Absent x.wallet (xs ++ s ∷ [])
    Absent-push [] a n = (n, tt)
    Absent-push (y ∷ xs) a n = (a.0, Absent-push xs a.1 n)

pub Distinct-push :
    (s : BuySignal) (ss : List BuySignal)
    → find_wallet s.wallet ss ≡ none
    → Distinct (wallets ss)
    → Distinct (wallets (ss ++ s ∷ []))
Distinct-push s ss h d = Distinct-push_new s ss (find-none-Absent s.wallet ss h) d
