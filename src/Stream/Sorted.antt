-- ===== src/Stream/Sorted.antt =====
-- copy-trader-v1.6.63/src/grpc/subscriber.rs: the target wallets in the order of their texts.
use mathlib.Core.Path.{subst}
use rust_solana_cc_v.Prelude.{
  true, false, not, ◌≡◌, inl, inr, refl, ◌∙◌, List, [], ◌∷◌, ◌==◌, arith, Str, Pubkey, Bool-cases,
  All, All-mono, if_cases,
}
use rust_solana_cc_v.Groups.Manager.{member}
use rust_solana_cc_v.Groups.Ids.{str_leb}
use rust_solana_cc_v.Stream.Order.{str_leb_total, str_leb_trans}
use rust_solana_cc_v.Stream.Wallets.{same_wallets, dedup, insert_by_text, sort_by_text}

pub All-member {κ} :
    (P : Pubkey → Type κ) (k : Pubkey) (ks : List Pubkey) → All P ks → member k ks ≡ true → P k
All-member P k [] h m = cc
All-member P k (v ∷ vs) h m = elim (Bool-cases (v == k)) [
  | inl is ↦ let same : v ≡ k = ground arith in subst P same h.0
  | inr not ↦ All-member P k vs h.1 (ground arith)
]

pub same_wallets_refl : (ws : List Pubkey) → same_wallets ws ws ≡ true
unfolding same_wallets
same_wallets_refl [] = refl
same_wallets_refl (w ∷ ws) = ground (arith, same_wallets_refl ws)

pub same_wallets_eq : (vs ws : List Pubkey) → same_wallets vs ws ≡ true → vs ≡ ws
unfolding same_wallets
same_wallets_eq [] [] h = refl
same_wallets_eq [] (w ∷ ws) h = cc
same_wallets_eq (v ∷ vs) [] h = cc
same_wallets_eq (v ∷ vs) (w ∷ ws) h =
    let rest : vs ≡ ws = same_wallets_eq vs ws (ground arith) in
    let head : v ≡ w = ground arith in ground arith

module _ (to_text : Pubkey → Str) where
  abbrev pub AtMost : Pubkey → Pubkey → Type 0
  AtMost w v = str_leb (to_text w) (to_text v) ≡ true

  abbrev pub Below : Pubkey → Pubkey → Type 0
  Below w v = AtMost w v × ((v == w) ≡ false)

  abbrev pub IsSorted : List Pubkey → Type 0
  IsSorted [] = Unit
  IsSorted (w ∷ ws) = All (AtMost w) ws × IsSorted ws

  abbrev pub IsRising : List Pubkey → Type 0
  IsRising [] = Unit
  IsRising (w ∷ ws) = All (Below w) ws × IsRising ws

  insert-member :
      (w k : Pubkey) (vs : List Pubkey) → member k (insert_by_text to_text w vs) ≡ member k (w ∷ vs)
  unfolding insert_by_text
  insert-member w k [] = refl
  insert-member w k (v ∷ vs) = ground (arith, insert-member w k vs)

  pub sort-member :
      (k : Pubkey) (ws : List Pubkey) → member k (sort_by_text to_text ws) ≡ member k ws
  unfolding sort_by_text
  sort-member k [] = refl
  sort-member k (w ∷ ws) =
      insert-member w k (sort_by_text to_text ws) ∙ ground (arith, sort-member k ws)

  pub dedup-member :
      (k w : Pubkey) (ws : List Pubkey) → member k (dedup (w ∷ ws)) ≡ member k (w ∷ ws)
  unfolding dedup
  dedup-member k w [] = refl
  dedup-member k w (v ∷ vs) = ground (arith, dedup-member k w vs, dedup-member k v vs)

  insert-All {κ} :
      (P : Pubkey → Type κ) (w : Pubkey) (vs : List Pubkey)
      → P w
      → All P vs
      → All P (insert_by_text to_text w vs)
  unfolding insert_by_text
  insert-All P w [] p h = (p, tt)
  insert-All P w (v ∷ vs) p h = ground (arith, insert-All P w vs p h.1)

  insert-IsSorted :
      (w : Pubkey) (vs : List Pubkey) → IsSorted vs → IsSorted (insert_by_text to_text w vs)
  unfolding insert_by_text
  insert-IsSorted w [] h = (tt, tt)
  insert-IsSorted w (v ∷ vs) h =
      if_cases IsSorted (str_leb (to_text w) (to_text v))
        (λ le.
          let trans = λ (u : Pubkey). str_leb_trans (to_text w) (to_text v) (to_text u) le in
          ((le, All-mono trans vs h.0), h))
        (λ gt.
          let ge : AtMost v w = ground (arith, str_leb_total (to_text w) (to_text v)) in
          (insert-All (AtMost v) w vs ge h.0, insert-IsSorted w vs h.1))

  pub sort-IsSorted : (ws : List Pubkey) → IsSorted (sort_by_text to_text ws)
  unfolding sort_by_text
  sort-IsSorted [] = tt
  sort-IsSorted (w ∷ ws) = insert-IsSorted w (sort_by_text to_text ws) (sort-IsSorted ws)
