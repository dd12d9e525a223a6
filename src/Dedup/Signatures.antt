-- ===== src/Dedup/Signatures.antt =====
-- copy-trader-v1.6.63/src/main.rs: a transaction may be seen before its execution and when it has
-- landed, and from several streams.
use rust_solana_cc_v.Prelude.{
  ℕ, Bool, true, false, ◌||◌, Option, none, some, if◌then◌else◌, Str, Str-discrete, Assoc, get,
  insert, ltb, ◌-◌, retain_values,
}

pub record SignatureSeen : Type 0 where
  pub pre_seen : Bool
  pub landed_seen : Bool
  pub last_seen : ℕ

-- The fields of `DetectedTrade` that the test reads.
pub record Sighting : Type 0 where
  pub signature : Str
  pub is_pre_execution : Bool

abbrev pub SignatureCache : Type 0
SignatureCache = Assoc Str SignatureSeen

abbrev pub or_unseen : ℕ → Option SignatureSeen → SignatureSeen
or_unseen now none = record { pre_seen = false; landed_seen = false; last_seen = now }
or_unseen now (some entry) = entry

-- The entry after the trade, and whether to skip the trade.
unfoldable pub skip_entry : ℕ → Bool → SignatureSeen → SignatureSeen × Bool
skip_entry now is_pre_execution seen =
    let entry = record seen { last_seen = now } in
    if is_pre_execution
    then (if entry.pre_seen || entry.landed_seen
        then (entry, true)
        else (record entry { pre_seen = true }, false))
    else (if entry.landed_seen then (entry, true) else (record entry { landed_seen = true }, false))

unfoldable pub should_skip_signature : ℕ → Sighting → SignatureCache → SignatureCache × Bool
unfolding skip_entry
should_skip_signature now trade sig_cache =
    let seen = or_unseen now (get Str-discrete trade.signature sig_cache) in
    let (entry, skip) = skip_entry now trade.is_pre_execution seen in
    (insert Str-discrete trade.signature entry sig_cache, skip)

-- `Duration::from_secs(10)`, in nanoseconds.
abbrev pub signature_cache_ttl : ℕ
signature_cache_ttl = 10000000000

-- A round of the task that forgets signatures, on `last_seen.elapsed()`.
unfoldable pub sweep_signatures : ℕ → SignatureCache → SignatureCache
sweep_signatures now sig_cache =
    retain_values (λ seen. ltb (now - seen.last_seen) signature_cache_ttl) sig_cache
