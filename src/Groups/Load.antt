-- ===== src/Groups/Load.antt =====
-- copy-trader-v1.6.63/src/groups.rs: `load_or_default`. `saved` is the parsed file, if there is one.
use rust_solana_cc_v.Prelude.{
  false, Option, none, some, List, [], ◌∷◌, if◌then◌else◌, Str, Str-discrete, Pubkey, Assoc, insert,
}
use rust_solana_cc_v.Groups.Group.{CopyGroup, AppConfig, from_app_config}
use rust_solana_cc_v.Groups.Saved.{PersistedGroup, PersistedGroupsState, into_group}
use rust_solana_cc_v.Groups.Manager.{GroupManager, member, all_groups_of, first_id, selected_group}
use rust_solana_cc_v.Manager.Persistence.{AddressText}

-- The readable tokens of the block list, in the set.
unfoldable pub load_blocklist : AddressText → List Str → List Pubkey
load_blocklist t [] = []
load_blocklist t (s ∷ ss) =
    let rest = load_blocklist t ss in
    elim (t.from_text s) [
      | none ↦ rest
      | some mint ↦ if member mint rest then rest else mint ∷ rest
    ]

module _ {R : Type 0} where
  unfoldable pub insert_groups :
      List (CopyGroup R) → Assoc Str (CopyGroup R) → Assoc Str (CopyGroup R)
  insert_groups [] m = m
  insert_groups (g ∷ gs) m = insert_groups gs (insert Str-discrete g.id g m)

  -- `if groups.is_empty() { groups.push(...) }`
  abbrev pub or_default : AppConfig R → List (CopyGroup R) → List (CopyGroup R)
  or_default config [] = from_app_config config ∷ []
  or_default config (g ∷ gs) = g ∷ gs

  -- `if manager.selected_group().is_none() { ... }`
  unfoldable pub select_first : GroupManager R → GroupManager R
  select_first m = elim (selected_group m) [
    | none ↦ record m { selected_group_id = first_id (all_groups_of m.groups) }
    | some g ↦ m
  ]

  module _ (t : AddressText) where
    unfoldable pub load_groups : AppConfig R → List (PersistedGroup R) → List (CopyGroup R)
    load_groups config [] = []
    load_groups config (s ∷ ss) =
        let rest = load_groups config ss in
        elim (into_group t config s) [ none ↦ rest | some g ↦ g ∷ rest ]

    unfoldable pub load_or_default : AppConfig R → Option (PersistedGroupsState R) → GroupManager R
    unfolding load_groups load_blocklist insert_groups select_first
    load_or_default config none = select_first (record {
      groups = insert_groups (or_default config []) [];
      selected_group_id = none;
      blocklist = [];
      zero_slot_buy_enabled = false;
      file = none;
    })
    load_or_default config (some saved) = select_first (record {
      groups = insert_groups (or_default config (load_groups config saved.groups)) [];
      selected_group_id = saved.selected_group_id;
      blocklist = load_blocklist t saved.blocklist;
      zero_slot_buy_enabled = saved.zero_slot_buy_enabled;
      file = some saved;
    })
