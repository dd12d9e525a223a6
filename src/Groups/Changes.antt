-- ===== src/Groups/Changes.antt =====
-- copy-trader-v1.6.63/src/groups.rs: the changes of the group manager, each with its save.
use rust_solana_cc_v.Prelude.{
  ℕ, Bool, false, not, ◌&&◌, ◌||◌, Option, none, some, [], ◌∷◌, ◌++◌, leb, ◌==◌, if◌then◌else◌,
  length, retain, is_empty, Str, str_eq, Str-discrete, Pubkey, insert, remove,
}
use rust_solana_cc_v.Groups.Group.{CopyGroup, AppConfig, from_app_config}
use rust_solana_cc_v.Groups.Manager.{
  GroupManager, GroupError, group_not_found, last_group, empty_name, wallet_not_found, member,
  remove_first, all_groups_of, get_group, next_group_id, first_id, save,
}
use rust_solana_cc_v.Manager.Persistence.{AddressText}

abbrev pub is_selected : Option Str → Str → Bool
is_selected none id = false
is_selected (some s) id = str_eq s id

-- `char::is_whitespace`
abbrev pub is_whitespace : ℕ → Bool
is_whitespace c =
    (leb 9 c && leb c 13)
    || ((c == 32)
        || ((c == 133)
            || ((c == 160)
                || ((c == 5760)
                    || ((leb 8192 c && leb c 8202)
                        || ((c == 8232)
                            || ((c == 8233) || ((c == 8239) || ((c == 8287) || (c == 12288))))))))))

abbrev pub trim_start : Str → Str
trim_start [] = []
trim_start (c ∷ s) = if is_whitespace c then trim_start s else c ∷ s

abbrev pub trim_end : Str → Str
trim_end [] = []
trim_end (c ∷ s) =
    let rest = trim_end s in if is_whitespace c && is_empty rest then [] else c ∷ rest

unfoldable pub trim : Str → Str
trim s = trim_end (trim_start s)

module _ {R : Type 0} where
  abbrev pub is_blocked : Pubkey → GroupManager R → Bool
  is_blocked mint m = member mint m.blocklist

  module _ (t : AddressText) where
    -- `get_mut`, a change of the group, and the save.
    unfoldable pub change_group :
        Str → (CopyGroup R → CopyGroup R) → GroupManager R → GroupManager R × Option GroupError
    unfolding save
    change_group id f m = elim (get_group id m) [
      | none ↦ (m, some group_not_found)
      | some g ↦ (save t (record m { groups = insert Str-discrete id (f g) m.groups }), none)
    ]

    unfoldable pub set_selected_group : Str → GroupManager R → GroupManager R × Option GroupError
    unfolding save
    set_selected_group id m = elim (get_group id m) [
      | none ↦ (m, some group_not_found)
      | some g ↦ (save t (record m { selected_group_id = some id }), none)
    ]

    unfoldable pub replace_group : CopyGroup R → GroupManager R → GroupManager R
    unfolding save
    replace_group g m = save t (record m { groups = insert Str-discrete g.id g m.groups })

    unfoldable pub add_group : Str → AppConfig R → GroupManager R → GroupManager R × CopyGroup R
    unfolding save
    add_group name base m =
        let id = next_group_id m in
        let g = record (from_app_config base) {
          id = id;
          name = name;
          wallets = [];
          consensus_min_wallets = 1;
        } in
        (
          save t (record m {
            groups = insert Str-discrete id g m.groups;
            selected_group_id = some id;
          }),
          g,
        )

    -- The removal, and the next selected group.
    unfoldable pub drop_group : Str → GroupManager R → GroupManager R
    unfolding save
    drop_group id m =
        let rest = remove Str-discrete id m.groups in
        let selected =
          if is_selected m.selected_group_id id
          then first_id (all_groups_of rest)
          else m.selected_group_id in
        save t (record m { groups = rest; selected_group_id = selected })

    unfoldable pub delete_group : Str → GroupManager R → GroupManager R × Option GroupError
    unfolding drop_group
    delete_group id m =
        if leb (length m.groups) 1 then (m, some last_group) else elim (get_group id m) [
          | none ↦ (m, some group_not_found)
          | some g ↦ (drop_group id m, none)
        ]

    unfoldable pub set_group_enabled :
        Str → Bool → GroupManager R → GroupManager R × Option GroupError
    unfolding change_group
    set_group_enabled id enabled m = change_group id (λ g. record g { enabled = enabled }) m

    unfoldable pub add_wallet : Str → Pubkey → GroupManager R → GroupManager R × Option GroupError
    unfolding change_group
    add_wallet id w m =
        change_group id
          (λ g. if member w g.wallets then g else record g { wallets = g.wallets ++ w ∷ [] }) m

    unfoldable pub rename_group : Str → Str → GroupManager R → GroupManager R × Option GroupError
    unfolding change_group trim
    rename_group id name m =
        if is_empty (trim name)
        then (m, some empty_name)
        else change_group id (λ g. record g { name = trim name }) m

    unfoldable pub remove_wallet :
        Str → Pubkey → GroupManager R → GroupManager R × Option GroupError
    unfolding change_group
    remove_wallet id w m = elim (get_group id m) [
      | none ↦ (m, some group_not_found)
      | some g ↦
          if member w g.wallets
          then change_group id (λ h. record h { wallets = remove_first w h.wallets }) m
          else (m, some wallet_not_found)
    ]

    unfoldable pub block_token : Pubkey → GroupManager R → GroupManager R
    unfolding save
    block_token mint m = save t (record m {
      blocklist = if member mint m.blocklist then m.blocklist else mint ∷ m.blocklist;
    })

    unfoldable pub unblock_token : Pubkey → GroupManager R → GroupManager R
    unfolding save
    unblock_token mint m =
        save t (record m { blocklist = retain (λ v. not (v == mint)) m.blocklist })

    unfoldable pub set_zero_slot_buy_enabled : Bool → GroupManager R → GroupManager R
    unfolding save
    set_zero_slot_buy_enabled enabled m = save t (record m { zero_slot_buy_enabled = enabled })

    unfoldable pub toggle_zero_slot_buy_enabled : GroupManager R → GroupManager R × Bool
    unfolding save
    toggle_zero_slot_buy_enabled m = (
      save t (record m { zero_slot_buy_enabled = not m.zero_slot_buy_enabled }),
      not m.zero_slot_buy_enabled,
    )
