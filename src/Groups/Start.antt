-- ===== src/Groups/Start.antt =====
-- copy-trader-v1.6.63/src/groups.rs: the groups from `load_or_default` on.
use rust_solana_cc_v.Prelude.{
  ◌≡◌, ◌<◌, refl, Option, none, some, List, [], ◌∷◌, arith, length, Str, Str-discrete, Assoc,
  insert, Option-cases, inl, inr,
}
use rust_solana_cc_v.Groups.Group.{CopyGroup, AppConfig}
use rust_solana_cc_v.Groups.Saved.{PersistedGroupsState}
use rust_solana_cc_v.Groups.Manager.{GroupManager, selected_group}
use rust_solana_cc_v.Groups.Load.{
  insert_groups, or_default, select_first, load_groups, load_or_default,
}
use rust_solana_cc_v.Groups.Valid.{
  Keyed, Once, IsValid, Once-insert, Keyed-insert, first_group_there,
}
use rust_solana_cc_v.Groups.Histories.{Change, change, changes, change-IsValid}
use rust_solana_cc_v.Manager.Persistence.{AddressText}

module _ {R : Type 0} where
  insert_groups_kept :
      (gs : List (CopyGroup R)) (m : Assoc Str (CopyGroup R))
      → Keyed m
      → Once m
      → Keyed (insert_groups gs m) × Once (insert_groups gs m)
  unfolding insert_groups
  insert_groups_kept [] m h o = (h, o)
  insert_groups_kept (g ∷ gs) m h o =
      insert_groups_kept gs (insert Str-discrete g.id g m) (Keyed-insert g.id g m refl h)
        (Once-insert g.id g m o)

  length-insert :
      (k : Str) (g : CopyGroup R) (m : Assoc Str (CopyGroup R))
      → 0 < length (insert Str-discrete k g m)
  unfolding insert
  length-insert k g [] = omega arith
  length-insert k g ((j, h) ∷ m) = ground arith

  length-insert_groups :
      (gs : List (CopyGroup R)) (m : Assoc Str (CopyGroup R))
      → 0 < length m
      → 0 < length (insert_groups gs m)
  unfolding insert_groups
  length-insert_groups [] m h = h
  length-insert_groups (g ∷ gs) m h =
      length-insert_groups gs (insert Str-discrete g.id g m) (length-insert g.id g m)

  some_group :
      (config : AppConfig R) (gs : List (CopyGroup R))
      → 0 < length (insert_groups (or_default config gs) [])
  unfolding insert_groups insert
  some_group config [] = omega arith
  some_group config (g ∷ gs) = length-insert_groups gs _ (length-insert g.id g [])

  select_first-IsValid :
      (m : GroupManager R)
      → Keyed m.groups
      → Once m.groups
      → 0 < length m.groups
      → IsValid (select_first m)
  unfolding select_first selected_group
  select_first-IsValid m h o n = elim (Option-cases (selected_group m)) [
    | inl missing ↦
        rw (missing, select_first)
          (record { keyed = h; once = o; selected = first_group_there m.groups h n })
    | inr (g, there) ↦
        rw (there, select_first) (record { keyed = h; once = o; selected = (g, there) })
  ]

  module _ (t : AddressText) where
    loaded-IsValid :
        (config : AppConfig R) (gs : List (CopyGroup R)) (m : GroupManager R)
        → m.groups ≡ insert_groups (or_default config gs) []
        → IsValid (select_first m)
    unfolding insert_groups
    loaded-IsValid config gs m e =
        let kept = insert_groups_kept (or_default config gs) [] tt tt in
        select_first-IsValid m (rw e kept.0) (rw e kept.1) (rw e (some_group config gs))

    load_or_default-IsValid :
        (config : AppConfig R) (saved : Option (PersistedGroupsState R))
        → IsValid (load_or_default t config saved)
    unfolding load_or_default
    load_or_default-IsValid config none = loaded-IsValid config [] _ refl
    load_or_default-IsValid config (some saved) =
        loaded-IsValid config (load_groups t config saved.groups) _ refl

    changes-IsValid :
        (cs : List (Change R)) (m : GroupManager R) → IsValid m → IsValid (changes t cs m)
    unfolding changes
    changes-IsValid [] m v = v
    changes-IsValid (c ∷ cs) m v = changes-IsValid cs (change t c m) (change-IsValid t c m v)

    -- From any file, or none, and after any history of changes, the selected group is there, so there is at
    -- least one group; every group stands under its id, and no id twice.
    pub history-IsValid :
        (config : AppConfig R) (saved : Option (PersistedGroupsState R)) (cs : List (Change R))
        → IsValid (changes t cs (load_or_default t config saved))
    history-IsValid config saved cs = changes-IsValid cs _ (load_or_default-IsValid config saved)
