-- ===== src/Dedup/Passes.antt =====
-- copy-trader-v1.6.63/src/main.rs: the trades that pass the test on their signature, in any history of
-- trades and rounds of the task that forgets signatures.
use rust_solana_cc_v.Prelude.{
  ℕ, ◌-◌, ◌≡◌, refl, ite, Bool, true, false, not, ◌||◌, ltb, leb, Option, none, some, List, [], ◌∷◌,
  arith, if◌then◌else◌, is_empty, Str, Str-discrete, str_eq, get, get-insert, IsMap, IsMap-insert,
  IsMap-retain, get-retain, filtered, if_cases,
}
use rust_solana_cc_v.Dedup.Signatures.{
  SignatureSeen, SignatureCache, Sighting, or_unseen, skip_entry, should_skip_signature,
  sweep_signatures, signature_cache_ttl,
}

pub data CacheEvent : Type 0 where
  seen : ℕ → Sighting → CacheEvent
  swept : ℕ → CacheEvent

-- The cache after the events, the latest first.
unfoldable pub cache_after : List CacheEvent → SignatureCache
unfolding should_skip_signature sweep_signatures
cache_after [] = []
cache_after (seen now trade ∷ earlier) = (should_skip_signature now trade (cache_after earlier)).0
cache_after (swept now ∷ earlier) = sweep_signatures now (cache_after earlier)

-- The sightings of a signature that the cache stands for, the latest first: when, and whether landed.
abbrev pub Memory : Type 0
Memory = List (ℕ × Bool)

unfoldable pub any_landed : Memory → Bool
any_landed [] = false
any_landed ((at, landed) ∷ ks) = landed || any_landed ks

-- A round forgets all sightings of a signature, if the latest is ten seconds old or more.
abbrev pub forget : ℕ → Memory → Memory
forget now [] = []
forget now ((at, landed) ∷ ks) =
    if leb signature_cache_ttl (now - at) then [] else (at, landed) ∷ ks

module _ (s : Str) where
  unfoldable pub remembered : List CacheEvent → Memory
  remembered [] = []
  remembered (seen now t ∷ es) =
      let ks = remembered es in
      if str_eq t.signature s then (now, not t.is_pre_execution) ∷ ks else ks
  remembered (swept now ∷ es) = forget now (remembered es)

-- The entry of a signature, if there is one, against the sightings that are remembered.
abbrev Describes : Memory → Option SignatureSeen → Type 0
Describes [] o = o ≡ none
Describes ((at, landed) ∷ ks) o =
    (e : SignatureSeen) × (o ≡ some e)
    × (e.last_seen ≡ at)
    × (e.landed_seen ≡ (landed || any_landed ks))
    × ((e.pre_seen || e.landed_seen) ≡ true)

seen-Describes :
    (now : ℕ) (pre : Bool) (ks : Memory) (o : Option SignatureSeen)
    → Describes ks o
    → Describes ((now, not pre) ∷ ks) (some (skip_entry now pre (or_unseen now o)).0)
unfolding skip_entry any_landed
seen-Describes now pre [] o d =
    ((skip_entry now pre (or_unseen now o)).0, refl, ground arith, ground arith, ground arith)
seen-Describes now pre ((at, landed) ∷ ks) o (e, found, last, is_landed, known) =
    ((skip_entry now pre (or_unseen now o)).0, refl, ground arith, ground arith, ground arith)

forget-Describes :
    (now : ℕ) (ks : Memory) (o : Option SignatureSeen)
    → Describes ks o
    → Describes (forget now ks) (filtered (λ e. ltb (now - e.last_seen) signature_cache_ttl) o)
forget-Describes now [] o d = ground arith
forget-Describes now ((at, landed) ∷ ks) o (e, found, last, is_landed, known) =
    if_cases
      (λ rest. Describes rest (filtered (λ e. ltb (now - e.last_seen) signature_cache_ttl) o))
      (leb signature_cache_ttl (now - at)) (λ old. ground arith)
      (λ recent. (e, ground arith, last, is_landed, known))

cache_after-IsMap : (es : List CacheEvent) → IsMap Str-discrete (cache_after es)
unfolding cache_after should_skip_signature sweep_signatures
cache_after-IsMap [] = tt
cache_after-IsMap (seen now t ∷ es) =
    IsMap-insert Str-discrete t.signature _ _ (cache_after-IsMap es)
cache_after-IsMap (swept now ∷ es) =
    IsMap-retain Str-discrete _ (cache_after es) (cache_after-IsMap es)

-- After a trade, whether its signature is `s` or another one.
sighted-Describes :
    (s : Str) (now : ℕ) (t : Sighting) (c : SignatureCache) (ks : Memory)
    → Describes ks (get Str-discrete s c)
    → (d : Dec (t.signature ≡ s))
    → Describes
        (if (elim d [ yes _ ↦ true | no _ ↦ false ])
          then (now, not t.is_pre_execution) ∷ ks
          else ks)
        (ite d
          (some
            (skip_entry now t.is_pre_execution (or_unseen now (get Str-discrete t.signature c))).0)
          (get Str-discrete s c))
sighted-Describes s now t c ks h (yes p) =
    rw p (seen-Describes now t.is_pre_execution ks (get Str-discrete s c) h)
sighted-Describes s now t c ks h (no p) = h

entry-Describes :
    (s : Str) (es : List CacheEvent)
    → Describes (remembered s es) (get Str-discrete s (cache_after es))
unfolding cache_after should_skip_signature sweep_signatures remembered get
entry-Describes s [] = refl
entry-Describes s (seen now t ∷ es) =
    rw (get-insert Str-discrete t.signature s _ (cache_after es)) (
      sighted-Describes s now t (cache_after es) (remembered s es) (entry-Describes s es)
        (Str-discrete t.signature s))
entry-Describes s (swept now ∷ es) =
    rw
      (get-retain Str-discrete (λ e. ltb (now - e.last_seen) signature_cache_ttl) s (cache_after es)
        (cache_after-IsMap es))
      (forget-Describes now (remembered s es) _ (entry-Describes s es))

skip-Describes :
    (now : ℕ) (pre : Bool) (ks : Memory) (o : Option SignatureSeen)
    → Describes ks o
    → (skip_entry now pre (or_unseen now o)).1 ≡ (if pre then not (is_empty ks) else any_landed ks)
unfolding skip_entry any_landed
skip-Describes now pre [] o d = ground arith
skip-Describes now pre ((at, landed) ∷ ks) o (e, found, last, is_landed, known) = ground arith

-- In any history of trades and rounds of the task that forgets, a landed trade is skipped exactly when a
-- landed trade of its signature is remembered, a trade before its execution exactly when any trade of its
-- signature is remembered. A trade is remembered until a round at which the latest trade of its
-- signature is ten seconds old or more, whether that was skipped or not.
pub should_skip_signature_lem :
    (now : ℕ) (t : Sighting) (earlier : List CacheEvent)
    → (should_skip_signature now t (cache_after earlier)).1 ≡ (
        let known = remembered t.signature earlier in
        if t.is_pre_execution then not (is_empty known) else any_landed known)
unfolding should_skip_signature
should_skip_signature_lem now t earlier =
    skip-Describes now t.is_pre_execution (remembered t.signature earlier) _
      (entry-Describes t.signature earlier)
