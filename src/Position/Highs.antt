-- ===== src/Position/Highs.antt =====
-- copy-trader-v1.6.63/src/autosell/position.rs: the highest price, over the prices that arrive.
use rust_solana_cc_v.Prelude.{◌≡◌, refl, ◌∙◌, ◌⊎◌, inl, inr, true, All, Elem, List, [], ◌∷◌, arith}
use rust_solana_cc_v.Float.{F64, IsOrdered}
use rust_solana_cc_v.Position.State.{Position}
use rust_solana_cc_v.Position.Prices.{update_price}

module _ {R : Type 0} ⦃f : F64 R⦄ where
  open f use {fle}

  -- The loop of the monitors over the prices that arrive.
  abbrev pub update_prices : List R → Position R → Position R
  update_prices [] p = p
  update_prices (x ∷ xs) p = update_prices xs (update_price x p).0

  abbrev pub IsNumber : R → Type 0
  IsNumber x = fle x x ≡ true

module _ {R : Type 0} ⦃f : F64 R⦄ (laws : IsOrdered f) where
  open f use {fle}
  open laws use {fle_trans, fle_of_flt, flt_total}

  update_price_high :
      (x : R) (p : Position R)
      → IsNumber x
      → IsNumber p.highest_price
      → (fle x (update_price x p).0.highest_price ≡ true)
        × (fle p.highest_price (update_price x p).0.highest_price ≡ true)
        × IsNumber (update_price x p).0.highest_price
        × (((update_price x p).0.highest_price ≡ x)
            ⊎ ((update_price x p).0.highest_price ≡ p.highest_price))
  unfolding update_price
  update_price_high x p hx hp =
      ground (arith, fle_of_flt p.highest_price x, flt_total p.highest_price x hp hx)

  -- Over any prices that arrive, numbers all, the highest price is a number, no lower than the
  -- prices and the highest before them, and one of these.
  pub update_prices_high :
      (xs : List R) (p : Position R)
      → All IsNumber xs
      → IsNumber p.highest_price
      → let h = (update_prices xs p).highest_price in
        All (λ x. fle x h ≡ true) xs
        × (fle p.highest_price h ≡ true)
        × IsNumber h
        × Elem h (p.highest_price ∷ xs)
  update_prices_high [] p hx hp = (tt, hp, hp, inl refl)
  update_prices_high (x ∷ xs) p hx hp =
      let step = update_price_high x p hx.0 hp in
      let q = (update_price x p).0 in
      let ih = update_prices_high xs q hx.1 step.2 in
      (
        (fle_trans _ _ _ step.0 ih.1, ih.0),
        fle_trans _ _ _ step.1 ih.1,
        ih.2,
        from_before step.3 ih.3,
      )
    where
      from_before :
          {h k : R}
          → (k ≡ x) ⊎ (k ≡ p.highest_price)
          → Elem h (k ∷ xs)
          → Elem h (p.highest_price ∷ x ∷ xs)
      from_before (inl e) (inl d) = inr (inl (d ∙ e))
      from_before (inr e) (inl d) = inl (d ∙ e)
      from_before _ (inr m) = inr (inr m)
