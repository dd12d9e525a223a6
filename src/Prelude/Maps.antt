-- ===== src/Prelude/Maps.antt =====
-- The concurrent maps of the program, as association lists. An operation of the program holds the
-- lock of the entry that it works on, so each is one step.
use mathlib.Core.Path.{◌≡◌, refl, subst}
use mathlib.Core.Logic.{ite, ◌≢◌, if_pos, if_neg}
use mathlib.Core.List.{List, [], ◌∷◌}
use mathlib.Core.Option.{Option, none, some}
use native.Mathlib.Omega.{arith}
use mathlib.Core.Bool.{Bool}
use rust_solana_cc_v.Prelude.Tests.{if◌then◌else◌}
use rust_solana_cc_v.Prelude.Lists.{All, retain}

abbrev pub Assoc {ℓ} : Type ℓ → Type ℓ → Type ℓ
Assoc K V = List (K × V)

-- `DashMap::retain` by the values.
abbrev pub retain_values {ℓ} : {K V : Type ℓ} → (V → Bool) → Assoc K V → Assoc K V
retain_values p m = retain (λ e. p e.1) m

abbrev pub filtered {ℓ} : {V : Type ℓ} → (V → Bool) → Option V → Option V
filtered p none = none
filtered p (some v) = if p v then some v else none

module _ {ℓ} {K V : Type ℓ} (dec : Discrete K) where
  unfoldable pub get : K → Assoc K V → Option V
  get k [] = none
  get k ((j, v) ∷ m) = ite (dec j k) (some v) (get k m)

  -- An entry that is there is overwritten where it stands.
  unfoldable pub insert : K → V → Assoc K V → Assoc K V
  insert k v [] = (k, v) ∷ []
  insert k v ((j, w) ∷ m) = ite (dec j k) ((j, v) ∷ m) ((j, w) ∷ insert k v m)

  unfoldable pub remove : K → Assoc K V → Assoc K V
  remove k [] = []
  remove k ((j, v) ∷ m) = ite (dec j k) (remove k m) ((j, v) ∷ remove k m)

  pub get-insert :
      (k j : K) (v : V) (m : Assoc K V) → get j (insert k v m) ≡ ite (dec k j) (some v) (get j m)
  unfolding get insert
  get-insert k j v [] = refl
  get-insert k j v ((i, w) ∷ m) = ground (arith, get-insert k j v m)

  pub get-insert_self : (k : K) (v : V) (m : Assoc K V) → get k (insert k v m) ≡ some v
  get-insert_self k v m = ground (arith, get-insert k k v m)

  pub get-insert_ne : (k j : K) (v : V) (m : Assoc K V) → k ≢ j → get j (insert k v m) ≡ get j m
  get-insert_ne k j v m h = ground (arith, get-insert k j v m)

  pub get-remove : (k j : K) (m : Assoc K V) → get j (remove k m) ≡ ite (dec k j) none (get j m)
  unfolding get remove
  get-remove k j [] = ground arith
  get-remove k j ((i, w) ∷ m) = ground (arith, get-remove k j m)

  -- Every value has a property.
  pub All-insert {ι} :
      (P : V → Type ι) (k : K) (v : V) (m : Assoc K V)
      → P v
      → All (λ e. P e.1) m
      → All (λ e. P e.1) (insert k v m)
  unfolding insert
  All-insert P k v [] p h = (p, tt)
  All-insert P k v ((j, w) ∷ m) p h = ground (arith, All-insert P k v m p h.1)

  pub All-remove {ι} :
      (P : V → Type ι) (k : K) (m : Assoc K V) → All (λ e. P e.1) m → All (λ e. P e.1) (remove k m)
  unfolding remove
  All-remove P k [] h = tt
  All-remove P k ((j, w) ∷ m) h = ground (arith, All-remove P k m h.1)

  pub All-get {ι} :
      (P : V → Type ι) (k : K) (m : Assoc K V) {v : V} → All (λ e. P e.1) m → get k m ≡ some v → P v
  unfolding get
  All-get P k [] h e = cc
  All-get P k ((j, w) ∷ m) {v} h e = elim (dec j k) [
    | yes p ↦
        let hit : some w ≡ some v = rw (if_pos _ p) at e in
        let same : w ≡ v = cc hit in subst P same h.0
    | no p ↦ All-get P k m h.1 (rw (if_neg _ p) at e)
  ]

  -- No key stands twice, as in the maps that are made by these operations.
  abbrev pub IsMap : Assoc K V → Type ℓ
  IsMap [] = Unit
  IsMap ((k, v) ∷ m) = (get k m ≡ none) × IsMap m

  pub IsMap-insert : (k : K) (v : V) (m : Assoc K V) → IsMap m → IsMap (insert k v m)
  unfolding insert get
  IsMap-insert k v [] o = (refl, tt)
  IsMap-insert k v ((j, w) ∷ m) o = ground (arith, get-insert k j v m, IsMap-insert k v m o.1)

  pub get-retain :
      (p : V → Bool) (k : K) (m : Assoc K V)
      → IsMap m
      → get k (retain_values p m) ≡ filtered p (get k m)
  unfolding get
  get-retain p k [] o = refl
  get-retain p k ((j, w) ∷ m) o = ground (arith, get-retain p k m o.1)

  pub IsMap-retain : (p : V → Bool) (m : Assoc K V) → IsMap m → IsMap (retain_values p m)
  IsMap-retain p [] o = tt
  IsMap-retain p ((j, w) ∷ m) o = ground (arith, get-retain p j m o.1, IsMap-retain p m o.1)
