-- ===== src/Groups/Histories.antt =====
-- copy-trader-v1.6.63/src/groups.rs: the groups after any history of calls, from `load_or_default` on.
use rust_solana_cc_v.Prelude.{
  ◌≡◌, ◌<◌, refl, ◌∙◌, Bool, Option, none, some, List, [], ◌∷◌, arith, leb, if◌then◌else◌, if_cases,
  Option-cases, inl, inr, length, Str, Str-discrete, Pubkey, Assoc, get, insert, remove,
  get-insert_self, is_empty,
}
use rust_solana_cc_v.Groups.Group.{CopyGroup, AppConfig}
use rust_solana_cc_v.Groups.Manager.{
  GroupManager, GroupError, group_not_found, all_groups_of, get_group, selected_group, found,
  first_id, save, member, remove_first, next_group_id,
}
use rust_solana_cc_v.Groups.Changes.{
  is_selected, trim, change_group, set_selected_group, replace_group, add_group, drop_group,
  delete_group, set_group_enabled, add_wallet, rename_group, remove_wallet, block_token,
  unblock_token, set_zero_slot_buy_enabled, toggle_zero_slot_buy_enabled,
}
use rust_solana_cc_v.Groups.Valid.{
  Keyed, IsSome, IsValid, Once-insert, Once-remove, Keyed-insert, Keyed-remove, length-remove,
  found-insert, found-remove, first_group_there,
}
use rust_solana_cc_v.Manager.Persistence.{AddressText}

-- The calls that change the groups.
pub data Change (R : Type 0) : Type 0 where
  selects : Str → Change R
  replaces : CopyGroup R → Change R
  adds : Str → AppConfig R → Change R
  deletes : Str → Change R
  enables : Str → Bool → Change R
  adds_wallet : Str → Pubkey → Change R
  renames : Str → Str → Change R
  removes_wallet : Str → Pubkey → Change R
  blocks_token : Pubkey → Change R
  unblocks_token : Pubkey → Change R
  sets_zero_slot : Bool → Change R
  toggles_zero_slot : Change R

module _ {R : Type 0} where
  abbrev Keeps : GroupManager R × Option GroupError → Type 0
  Keeps r = IsValid r.0

module _ {R : Type 0} (t : AddressText) where
  unfoldable pub change : Change R → GroupManager R → GroupManager R
  change (selects id) m = (set_selected_group t id m).0
  change (replaces g) m = replace_group t g m
  change (adds name base) m = (add_group t name base m).0
  change (deletes id) m = (delete_group t id m).0
  change (enables id b) m = (set_group_enabled t id b m).0
  change (adds_wallet id w) m = (add_wallet t id w m).0
  change (renames id name) m = (rename_group t id name m).0
  change (removes_wallet id w) m = (remove_wallet t id w m).0
  change (blocks_token mint) m = block_token t mint m
  change (unblocks_token mint) m = unblock_token t mint m
  change (sets_zero_slot b) m = set_zero_slot_buy_enabled t b m
  change toggles_zero_slot m = (toggle_zero_slot_buy_enabled t m).0

  unfoldable pub changes : List (Change R) → GroupManager R → GroupManager R
  unfolding change
  changes [] m = m
  changes (c ∷ cs) m = changes cs (change c m)

  Keyed-get :
      (k : Str) (g : CopyGroup R) (m : Assoc Str (CopyGroup R))
      → Keyed m
      → get Str-discrete k m ≡ some g
      → g.id ≡ k
  unfolding get
  Keyed-get k g [] h e = cc
  Keyed-get k g ((j, q) ∷ m) h e = ground (arith, Keyed-get k g m h.1)

  save-IsValid : (m : GroupManager R) → IsValid m → IsValid (save t m)
  unfolding save selected_group
  save-IsValid m v = record { keyed = v.keyed; once = v.once; selected = v.selected }

  -- Neither the block list nor the switch touches the groups.
  others-IsValid :
      (blocked : List Pubkey) (enabled : Bool) (m : GroupManager R)
      → IsValid m
      → IsValid (save t (record m { blocklist = blocked; zero_slot_buy_enabled = enabled }))
  unfolding save selected_group
  others-IsValid blocked enabled m v = record {
    keyed = v.keyed;
    once = v.once;
    selected = v.selected;
  }

  put-IsValid :
      (id : Str) (g : CopyGroup R) (m : GroupManager R)
      → g.id ≡ id
      → IsValid m
      → IsValid (record m { groups = insert Str-discrete id g m.groups })
  unfolding selected_group
  put-IsValid id g m e v = record {
    keyed = Keyed-insert id g m.groups e v.keyed;
    once = Once-insert id g m.groups v.once;
    selected = found-insert m.selected_group_id id g m.groups v.selected;
  }

  change_group-IsValid :
      (id : Str) (f : CopyGroup R → CopyGroup R) (m : GroupManager R)
      → ((g : CopyGroup R) → (f g).id ≡ g.id)
      → IsValid m
      → IsValid (change_group t id f m).0
  unfolding change_group
  change_group-IsValid id f m same v = elim (Option-cases (get_group id m)) [
    | inl missing ↦ rw (missing, change_group) v
    | inr (g, there) ↦
        rw (there, change_group)
          (save-IsValid _
            (put-IsValid id (f g) m (same g ∙ Keyed-get id g m.groups v.keyed there) v))
  ]

  drop_group-IsValid :
      (id : Str) (m : GroupManager R)
      → 1 < length m.groups
      → IsValid m
      → IsValid (drop_group t id m)
  unfolding drop_group selected_group
  drop_group-IsValid id m n v =
      let left : 0 < length rest = omega (arith, length-remove id m.groups v.once) in
      let keyed = Keyed-remove id m.groups v.keyed in
      save-IsValid (record m { groups = rest; selected_group_id = next })
        (record {
          keyed = keyed;
          once = Once-remove id m.groups v.once;
          selected = still keyed left;
        })
    where
      rest : Assoc Str (CopyGroup R)
      rest = remove Str-discrete id m.groups

      next : Option Str
      next =
          if is_selected m.selected_group_id id
          then first_id (all_groups_of rest)
          else m.selected_group_id

      still : Keyed rest → 0 < length rest → IsSome (found next rest)
      still keyed left =
          if_cases (λ o. IsSome (found o rest)) (is_selected m.selected_group_id id)
            (λ _. first_group_there rest keyed left)
            (λ other. found-remove m.selected_group_id id m.groups other v.selected)

  pub change-IsValid : (c : Change R) (m : GroupManager R) → IsValid m → IsValid (change c m)
  unfolding change selected_group set_selected_group replace_group add_group delete_group
      set_group_enabled add_wallet rename_group remove_wallet block_token unblock_token
      set_zero_slot_buy_enabled toggle_zero_slot_buy_enabled
  change-IsValid (selects id) m v = elim (Option-cases (get_group id m)) [
    | inl missing ↦ rw (missing, change, set_selected_group) v
    | inr (g, there) ↦
        rw (there, change, set_selected_group)
          (save-IsValid (record m { selected_group_id = some id })
            (record { keyed = v.keyed; once = v.once; selected = (g, there) }))
  ]
  change-IsValid (replaces g) m v = save-IsValid _ (put-IsValid g.id g m refl v)
  change-IsValid (adds name base) m v =
      let id = next_group_id m in
      let g = (add_group t name base m).1 in
      save-IsValid
        (record m { groups = insert Str-discrete id g m.groups; selected_group_id = some id })
        (record {
          keyed = Keyed-insert id g m.groups refl v.keyed;
          once = Once-insert id g m.groups v.once;
          selected = (g, get-insert_self Str-discrete id g m.groups);
        })
  change-IsValid (deletes id) m v =
      if_cases Keeps (leb (length m.groups) 1) (λ _. v) (λ more. dropped (ground arith))
    where
      dropped :
          1 < length m.groups
          → IsValid
              (elim (get_group id m) as (λ _. GroupManager R × Option GroupError) [
                | none ↦ (m, some group_not_found)
                | some g ↦ (drop_group t id m, none)
              ]).0
      dropped n = elim (Option-cases (get_group id m)) [
        | inl missing ↦ rw missing v
        | inr (g, there) ↦ rw there (drop_group-IsValid id m n v)
      ]
  change-IsValid (enables id b) m v = change_group-IsValid id _ m (λ g. refl) v
  change-IsValid (adds_wallet id w) m v = change_group-IsValid id _ m (λ g. ground arith) v
  change-IsValid (renames id name) m v =
      if_cases Keeps (is_empty (trim name)) (λ _. v)
        (λ _. change_group-IsValid id _ m (λ g. refl) v)
  change-IsValid (removes_wallet id w) m v = elim (Option-cases (get_group id m)) [
    | inl missing ↦ rw (missing, change, remove_wallet) v
    | inr (g, there) ↦
        rw (there, change, remove_wallet)
          (if_cases Keeps (member w g.wallets)
            (λ _.
              change_group-IsValid id (λ h. record h { wallets = remove_first w h.wallets }) m
                (λ g. refl) v)
            (λ _. v))
  ]
  change-IsValid (blocks_token mint) m v = others-IsValid _ _ m v
  change-IsValid (unblocks_token mint) m v = others-IsValid _ _ m v
  change-IsValid (sets_zero_slot b) m v = others-IsValid _ _ m v
  change-IsValid toggles_zero_slot m v = others-IsValid _ _ m v
