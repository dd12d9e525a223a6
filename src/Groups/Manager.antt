-- ===== src/Groups/Manager.antt =====
-- copy-trader-v1.6.63/src/groups.rs: the group manager. The concurrent map is an association list, the
-- set of blocked tokens a list. `save` writes the file, as the last step of a change.
use rust_solana_cc_v.Prelude.{
  ℕ, ◌+◌, ◌%◌, Bool, true, false, ◌&&◌, Option, none, some, List, [], ◌∷◌, ◌++◌, map, ◌==◌,
  if◌then◌else◌, retain, Str, Str-discrete, Pubkey, Assoc, get, max,
}
use rust_solana_cc_v.Groups.Group.{CopyGroup}
use rust_solana_cc_v.Groups.Ids.{u64_size, group_number, group_id_of, str_leb}
use rust_solana_cc_v.Groups.Saved.{PersistedGroupsState, from_group}
use rust_solana_cc_v.Manager.Persistence.{AddressText}

pub record GroupManager (R : Type 0) : Type 0 where
  pub groups : Assoc Str (CopyGroup R)
  pub selected_group_id : Option Str
  pub blocklist : List Pubkey
  pub zero_slot_buy_enabled : Bool
  pub file : Option (PersistedGroupsState R)

-- `Result<(), String>`, by what went wrong.
pub data GroupError : Type 0 where
  group_not_found last_group empty_name wallet_not_found : GroupError

abbrev pub member : Pubkey → List Pubkey → Bool
member w [] = false
member w (v ∷ vs) = if v == w then true else member w vs

-- `wallets.remove(index)` at the first position of the wallet.
unfoldable pub remove_first : Pubkey → List Pubkey → List Pubkey
remove_first w [] = []
remove_first w (v ∷ vs) = if v == w then vs else v ∷ remove_first w vs

unfoldable pub push_new : List Pubkey → List Pubkey → List Pubkey
push_new seen [] = seen
push_new seen (w ∷ ws) = push_new (if member w seen then seen else seen ++ w ∷ []) ws

module _ {R : Type 0} where
  -- `sort_by(|left, right| left.id.cmp(&right.id))`, which is stable, as an insertion sort.
  unfoldable pub insert_by_id : CopyGroup R → List (CopyGroup R) → List (CopyGroup R)
  insert_by_id g [] = g ∷ []
  insert_by_id g (h ∷ hs) = if str_leb g.id h.id then g ∷ h ∷ hs else h ∷ insert_by_id g hs

  unfoldable pub all_groups_of : Assoc Str (CopyGroup R) → List (CopyGroup R)
  unfolding insert_by_id
  all_groups_of [] = []
  all_groups_of ((k, g) ∷ m) = insert_by_id g (all_groups_of m)

  abbrev pub all_groups : GroupManager R → List (CopyGroup R)
  all_groups m = all_groups_of m.groups

  unfoldable pub all_target_wallets : GroupManager R → List Pubkey
  unfolding push_new
  all_target_wallets m = go [] (all_groups m)
    where
      go : List Pubkey → List (CopyGroup R) → List Pubkey
      go seen [] = seen
      go seen (g ∷ gs) = go (push_new seen g.wallets) gs

  unfoldable pub groups_for_wallet : Pubkey → GroupManager R → List (CopyGroup R)
  groups_for_wallet w m = retain (λ g. g.enabled && member w g.wallets) (all_groups m)

  abbrev pub get_group : Str → GroupManager R → Option (CopyGroup R)
  get_group id m = get Str-discrete id m.groups

  abbrev pub found : Option Str → Assoc Str (CopyGroup R) → Option (CopyGroup R)
  found none groups = none
  found (some id) groups = get Str-discrete id groups

  unfoldable pub selected_group : GroupManager R → Option (CopyGroup R)
  selected_group m = found m.selected_group_id m.groups

  -- The greatest number of an id; an id of another form counts as 0.
  unfoldable pub max_index : Assoc Str (CopyGroup R) → ℕ
  max_index [] = 0
  max_index ((id, g) ∷ m) =
      let n : ℕ = elim (group_number id) [ none ↦ 0 | some n ↦ n ] in max n (max_index m)

  unfoldable pub next_group_id : GroupManager R → Str
  unfolding max_index
  next_group_id m = group_id_of ((max_index m.groups + 1) % u64_size)

  abbrev pub first_id : List (CopyGroup R) → Option Str
  first_id [] = none
  first_id (g ∷ gs) = some g.id

  module _ (t : AddressText) where
    unfoldable pub save : GroupManager R → GroupManager R
    save m = record m {
      file = some (record {
        groups = map (from_group t) (all_groups m);
        selected_group_id = m.selected_group_id;
        blocklist = map t.to_text m.blocklist;
        zero_slot_buy_enabled = m.zero_slot_buy_enabled;
      });
    }
