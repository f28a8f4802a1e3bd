-- ===== src/TxSequence.antt =====
-- packages/core/src/internals/tx-sequence.ts: per-signer sequence numbers for broadcasts that do not
-- wait for a block. The CosmJS client is outside the repository: what its `getSequence` and its
-- broadcast answer is an argument of each call (`Answers`). The caller serialises the calls of one
-- signer, as the source demands, so a call is one step; calls of several signers come in any order.
pub mod Burst
pub mod Cell
pub mod Tests
use manifest_mcp_mono.Common.{
  ℕ, suc, ◌+◌, Bool, true, false, List, [], ◌∷◌, Option, none, some, String, Entry, lookup, insert,
  delete,
}

pub record CachedSequence : Type 0 where
  pub account_number : ℕ
  pub sequence : ℕ

abbrev pub SequenceCache : Type 0
SequenceCache = List (Entry CachedSequence)

-- A settled promise: its value, or the error that it was rejected with.
pub data Reply (A : Type 0) : Type 0 where
  ok : A → Reply A
  failed : String → Reply A

-- What the client answers during one broadcast.
pub record Answers : Type 0 where
  pub committed : Reply CachedSequence
  pub outcome : Reply String

-- What one call did: its result, whether the client's broadcast was entered, and the sequence that
-- `getSequence` was shadowed with (none: the client read the committed one).
pub record Use : Type 0 where
  pub result : Reply String
  pub submitted : Bool
  pub signed_with : Option CachedSequence

abbrev pub advance : CachedSequence → CachedSequence
advance seq = record seq { sequence = seq.sequence + 1 }

-- The `try` block. `seq` is the object that the cache holds, so `seq.sequence += 1` writes the cache.
pub broadcast_with :
    SequenceCache → Bool → String → CachedSequence → Reply String → Use × SequenceCache
broadcast_with cache wait sender seq (failed e) =
    (record { result = failed e; submitted = true; signed_with = some seq }, delete sender cache)
broadcast_with cache true sender seq (ok hash) =
    (record { result = ok hash; submitted = true; signed_with = some seq }, delete sender cache)
broadcast_with cache false sender seq (ok hash) = (
  record { result = ok hash; submitted = true; signed_with = some seq },
  insert sender (advance seq) cache,
)

-- `await real.getSequence(sender)`, then `cache.set(sender, seq)`
pub seed : SequenceCache → Bool → String → Reply CachedSequence → Reply String → Use × SequenceCache
unfolding broadcast_with
seed cache wait sender (failed e) outcome =
    (record { result = failed e; submitted = false; signed_with = none }, cache)
seed cache wait sender (ok seq) outcome =
    broadcast_with (insert sender seq cache) wait sender seq outcome

pub broadcast_cached :
    SequenceCache → Bool → String → Option CachedSequence → Answers → Use × SequenceCache
unfolding seed broadcast_with
broadcast_cached cache wait sender (some seq) answers =
    broadcast_with cache wait sender seq answers.outcome
broadcast_cached cache true sender none answers =
    (record { result = answers.outcome; submitted = true; signed_with = none }, cache)
broadcast_cached cache false sender none answers =
    seed cache false sender answers.committed answers.outcome

pub managed_broadcast : SequenceCache → Bool → String → Answers → Use × SequenceCache
unfolding broadcast_cached
managed_broadcast cache wait sender answers =
    broadcast_cached cache wait sender (lookup sender cache) answers

-- The sequence that a gas simulation runs with; it leaves the cache alone.
pub managed_simulate : SequenceCache → String → Reply String → Use × SequenceCache
managed_simulate cache sender outcome =
    (record { result = outcome; submitted = false; signed_with = lookup sender cache }, cache)

-- The three methods that the proxy intercepts.
pub data Call : Type 0 where
  sign_and_broadcast : String → Answers → Call
  sign_and_broadcast_sync : String → Answers → Call
  simulate : String → Reply String → Call

abbrev pub signer : Call → String
signer (sign_and_broadcast sender answers) = sender
signer (sign_and_broadcast_sync sender answers) = sender
signer (simulate sender outcome) = sender

pub sequenced_signing_client : SequenceCache → Call → Use × SequenceCache
unfolding managed_broadcast managed_simulate
sequenced_signing_client cache (sign_and_broadcast sender answers) =
    managed_broadcast cache true sender answers
sequenced_signing_client cache (sign_and_broadcast_sync sender answers) =
    managed_broadcast cache false sender answers
sequenced_signing_client cache (simulate sender outcome) = managed_simulate cache sender outcome

-- A history of calls, with what each did.
pub run : SequenceCache → List Call → List (Call × Use) × SequenceCache
unfolding sequenced_signing_client
run cache [] = ([], cache)
run cache (call ∷ calls) =
    let (use1, cache') = sequenced_signing_client cache call in
    let (uses, final) = run cache' calls in ((call, use1) ∷ uses, final)
