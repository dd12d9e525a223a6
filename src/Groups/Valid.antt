-- ===== src/Groups/Valid.antt =====
-- copy-trader-v1.6.63/src/groups.rs: what holds of the groups between two calls.
use rust_solana_cc_v.Prelude.{
  suc, ◌≡◌, ◌≤◌, ◌<◌, refl, sym, ◌∙◌, if_pos, if_neg, false, Option, none, some, List, [], ◌∷◌,
  arith, length, All, All-mono, Str, str_eq_iff, Str-discrete, Assoc, get, insert, remove,
  get-insert, get-remove,
}
use rust_solana_cc_v.Groups.Group.{CopyGroup}
use rust_solana_cc_v.Groups.Changes.{is_selected}
use rust_solana_cc_v.Groups.Manager.{
  GroupManager, all_groups_of, insert_by_id, selected_group, found, first_id,
}

module _ {R : Type 0} where
  -- Every group stands under its id, and no id twice.
  abbrev pub Keyed : Assoc Str (CopyGroup R) → Type 0
  Keyed m = All (λ e. e.1.id ≡ e.0) m

  abbrev pub Once : Assoc Str (CopyGroup R) → Type 0
  Once [] = Unit
  Once ((k, g) ∷ m) = (get Str-discrete k m ≡ none) × Once m

  abbrev pub IsSome : Option (CopyGroup R) → Type 0
  IsSome o = (g : CopyGroup R) × (o ≡ some g)

  pub record IsValid (m : GroupManager R) : Type 0 where
    pub keyed : Keyed m.groups
    pub once : Once m.groups
    pub selected : IsSome (selected_group m)

  pub Once-insert :
      (k : Str) (g : CopyGroup R) (m : Assoc Str (CopyGroup R))
      → Once m
      → Once (insert Str-discrete k g m)
  unfolding insert get
  Once-insert k g [] o = (refl, tt)
  Once-insert k g ((j, h) ∷ m) o =
      ground (arith, get-insert Str-discrete k j g m, Once-insert k g m o.1)

  pub Once-remove :
      (k : Str) (m : Assoc Str (CopyGroup R)) → Once m → Once (remove Str-discrete k m)
  unfolding remove
  Once-remove k [] o = tt
  Once-remove k ((j, h) ∷ m) o = ground (arith, get-remove Str-discrete k j m, Once-remove k m o.1)

  -- An id that is absent is not removed.
  remove_absent :
      (k : Str) (m : Assoc Str (CopyGroup R))
      → get Str-discrete k m ≡ none
      → remove Str-discrete k m ≡ m
  unfolding remove get
  remove_absent k [] e = refl
  remove_absent k ((j, h) ∷ m) e = ground (arith, remove_absent k m)

  pub length-remove :
      (k : Str) (m : Assoc Str (CopyGroup R))
      → Once m
      → length m ≤ suc (length (remove Str-discrete k m))
  unfolding remove
  length-remove k [] o = omega arith
  length-remove k ((j, h) ∷ m) o = ground (arith, remove_absent k m, length-remove k m o.1)

  pub Keyed-insert :
      (k : Str) (g : CopyGroup R) (m : Assoc Str (CopyGroup R))
      → g.id ≡ k
      → Keyed m
      → Keyed (insert Str-discrete k g m)
  unfolding insert
  Keyed-insert k g [] e h = (e, tt)
  Keyed-insert k g ((j, q) ∷ m) e h = ground (arith, Keyed-insert k g m e h.1)

  pub Keyed-remove :
      (k : Str) (m : Assoc Str (CopyGroup R)) → Keyed m → Keyed (remove Str-discrete k m)
  unfolding remove
  Keyed-remove k [] h = tt
  Keyed-remove k ((j, q) ∷ m) h = ground (arith, Keyed-remove k m h.1)

  All-insert_by_id :
      (P : CopyGroup R → Type 0) (g : CopyGroup R) (gs : List (CopyGroup R))
      → P g
      → All P gs
      → All P (insert_by_id g gs)
  unfolding insert_by_id
  All-insert_by_id P g [] p h = (p, tt)
  All-insert_by_id P g (q ∷ gs) p h = ground (arith, All-insert_by_id P g gs p h.1)

  get-later :
      (k : Str) (q : CopyGroup R) (m : Assoc Str (CopyGroup R)) (id : Str)
      → IsSome (get Str-discrete id m)
      → IsSome (get Str-discrete id ((k, q) ∷ m))
  unfolding get
  get-later k q m id (g, e) = elim (Str-discrete k id) [
    | yes same ↦ (q, rw (if_pos _ same) refl)
    | no differ ↦ (g, rw (if_neg _ differ) e)
  ]

  -- The sorted groups are found under their ids.
  groups_by_id :
      (m : Assoc Str (CopyGroup R))
      → Keyed m
      → All (λ g. IsSome (get Str-discrete g.id m)) (all_groups_of m)
  unfolding all_groups_of get
  groups_by_id [] h = tt
  groups_by_id ((k, q) ∷ m) h =
      All-insert_by_id (λ g. IsSome (get Str-discrete g.id ((k, q) ∷ m))) q (all_groups_of m)
        (q, rw (if_pos _ (sym h.0)) refl)
        (All-mono (λ g. get-later k q m g.id) (all_groups_of m) (groups_by_id m h.1))

  length-insert_by_id : (g : CopyGroup R) (gs : List (CopyGroup R)) → 0 < length (insert_by_id g gs)
  unfolding insert_by_id
  length-insert_by_id g [] = omega arith
  length-insert_by_id g (q ∷ gs) = ground arith

  pub first_group_there :
      (m : Assoc Str (CopyGroup R))
      → Keyed m
      → 0 < length m
      → IsSome (found (first_id (all_groups_of m)) m)
  unfolding all_groups_of
  first_group_there [] h n = absurd (omega arith)
  first_group_there ((k, q) ∷ m) h n =
      let all = groups_by_id ((k, q) ∷ m) h in
      first_of (insert_by_id q (all_groups_of m)) all (length-insert_by_id q (all_groups_of m))
    where
      first_of :
          (gs : List (CopyGroup R))
          → All (λ g. IsSome (get Str-discrete g.id ((k, q) ∷ m))) gs
          → 0 < length gs
          → IsSome (found (first_id gs) ((k, q) ∷ m))
      first_of [] a n = absurd (omega arith)
      first_of (g ∷ gs) a n = a.0

  pub found-insert :
      (o : Option Str) (k : Str) (g : CopyGroup R) (m : Assoc Str (CopyGroup R))
      → IsSome (found o m)
      → IsSome (found o (insert Str-discrete k g m))
  found-insert none k g m s = s
  found-insert (some id) k g m s = elim (Str-discrete k id) [
    | yes same ↦ (g, get-insert Str-discrete k id g m ∙ rw (if_pos _ same) refl)
    | no differ ↦ (s.0, get-insert Str-discrete k id g m ∙ rw (if_neg _ differ) s.1)
  ]

  pub found-remove :
      (o : Option Str) (k : Str) (m : Assoc Str (CopyGroup R))
      → is_selected o k ≡ false
      → IsSome (found o m)
      → IsSome (found o (remove Str-discrete k m))
  found-remove none k m d s = s
  found-remove (some id) k m d s = elim (Str-discrete k id) [
    | yes same ↦ absurd (ground (arith, (str_eq_iff id k).1 (sym same)))
    | no differ ↦ (s.0, get-remove Str-discrete k id m ∙ rw (if_neg _ differ) s.1)
  ]
