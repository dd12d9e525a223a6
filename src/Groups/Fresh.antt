-- ===== src/Groups/Fresh.antt =====
-- copy-trader-v1.6.63/src/groups.rs: the ids of new groups.
use rust_solana_cc_v.Prelude.{
  ℕ, ◌+◌, ◌%◌, ◌≡◌, ◌≤◌, ◌<◌, refl, none, some, [], ◌∷◌, arith, Str, Str-discrete, Assoc, get,
  get-insert_self, get-insert_ne, Option-cases, inl, inr, if_neg, ◌∙◌,
}
use rust_solana_cc_v.Groups.Group.{CopyGroup, AppConfig}
use rust_solana_cc_v.Groups.Ids.{u64_size, group_number, group_number-group_id_of}
use rust_solana_cc_v.Groups.Manager.{GroupManager, get_group, save, max_index, next_group_id}
use rust_solana_cc_v.Groups.Changes.{add_group}
use rust_solana_cc_v.Manager.Persistence.{AddressText}

module _ {R : Type 0} where
  numbers_le :
      (k : Str) (n : ℕ) (g : CopyGroup R) (m : Assoc Str (CopyGroup R))
      → group_number k ≡ some n
      → get Str-discrete k m ≡ some g
      → n ≤ max_index m
  unfolding max_index get
  numbers_le k n g [] e h = cc
  numbers_le k n g ((j, q) ∷ m) e h = elim (Str-discrete j k) [
    | yes same ↦ ground arith
    | no differ ↦ ground (arith, numbers_le k n g m e (rw (if_neg _ differ) at h))
  ]

  next_group_id_fresh :
      (m : GroupManager R)
      → max_index m.groups + 1 < u64_size
      → get_group (next_group_id m) m ≡ none
  unfolding next_group_id
  next_group_id_fresh m b =
      let n = (max_index m.groups + 1) % u64_size in
      let value : n ≡ max_index m.groups + 1 = omega arith in
      elim (Option-cases (get_group (next_group_id m) m)) [
        | inl missing ↦ missing
        | inr (g, there) ↦ absurd (
            omega (
              arith,
              numbers_le (next_group_id m) n g m.groups (group_number-group_id_of n (omega arith))
                  there,
            ))
      ]

  -- While the greatest number of an id is below the last `u64`, a new group gets an id that no group has: the
  -- groups that were there are kept, and the new one is there, selected, without wallets.
  pub add_group_keeps :
      (t : AddressText) (name : Str) (base : AppConfig R) (m : GroupManager R)
      → max_index m.groups + 1 < u64_size
      → let (m', g) = add_group t name base m in
        (get_group g.id m ≡ none)
        × (get_group g.id m' ≡ some g)
        × (m'.selected_group_id ≡ some g.id)
        × (g.wallets ≡ [])
        × ((id : Str) (h : CopyGroup R) → get_group id m ≡ some h → get_group id m' ≡ some h)
  unfolding add_group save
  add_group_keeps t name base m b =
      let fresh = next_group_id_fresh m b in
      let g = (add_group t name base m).1 in
      (
        fresh,
        get-insert_self Str-discrete g.id g m.groups,
        refl,
        refl,
        λ id h there. elim (Str-discrete g.id id) [
          | yes same ↦ absurd (ground arith)
          | no differ ↦ get-insert_ne Str-discrete g.id id g m.groups differ ∙ there
        ],
      )
