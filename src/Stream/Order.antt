-- ===== src/Stream/Order.antt =====
-- copy-trader-v1.6.63/src/grpc/subscriber.rs: the order of the target wallets, by their texts.
use rust_solana_cc_v.Prelude.{true, ◌≡◌, ◌⊎◌, inl, inr, refl, [], ◌∷◌, arith, Str}
use rust_solana_cc_v.Groups.Ids.{str_leb}

str_leb_refl : (s : Str) → str_leb s s ≡ true
unfolding str_leb
str_leb_refl [] = refl
str_leb_refl (c ∷ s) = ground (arith, str_leb_refl s)

pub str_leb_antisymm : (s t : Str) → str_leb s t ≡ true → str_leb t s ≡ true → s ≡ t
unfolding str_leb
str_leb_antisymm [] [] h k = refl
str_leb_antisymm [] (d ∷ t) h k = cc
str_leb_antisymm (c ∷ s) [] h k = cc
str_leb_antisymm (c ∷ s) (d ∷ t) h k = ground (arith, str_leb_antisymm s t)

pub str_leb_total : (s t : Str) → (str_leb s t ≡ true) ⊎ (str_leb t s ≡ true)
unfolding str_leb
str_leb_total [] t = inl refl
str_leb_total (c ∷ s) [] = inr refl
str_leb_total (c ∷ s) (d ∷ t) = ground (arith, str_leb_total s t)

pub str_leb_trans : (s t u : Str) → str_leb s t ≡ true → str_leb t u ≡ true → str_leb s u ≡ true
unfolding str_leb
str_leb_trans [] t u h k = refl
str_leb_trans (c ∷ s) [] u h k = cc
str_leb_trans (c ∷ s) (d ∷ t) [] h k = cc
str_leb_trans (c ∷ s) (d ∷ t) (e ∷ u) h k = ground (arith, str_leb_trans s t u)
