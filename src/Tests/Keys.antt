-- ===== src/Tests/Keys.antt =====
-- Stores in memory, with small stand-ins for libsignal's records: a signed or Kyber pre-key is an
-- id with a timestamp, a pre-key is an id with a number.
use radix_relay.Prelude.{
  ℕ, suc, ◌+◌, ◌-◌, ◌≤◌, ◌<◌, ◌≡◌, ◌≢◌, ◌↔◌, refl, Bool, true, false, none, some, [], ◌∷◌, is_some,
  nat_eq, arith,
}
use radix_relay.Prelude.Assoc.{lookup, erase}
use radix_relay.Prelude.MaxKey.{max_key}
use radix_relay.Exec.{Outcome, ok}
use radix_relay.StorageTrait.{TimedKeyStoreLaws, StorageContainer, StorageContainerLaws}
use radix_relay.Keys.{KeyApi, KeyApiLaws}
use radix_relay.Memory.PreKeys.{
  PreKeyApi, MemoryPreKeyStore, get_max_pre_key_id, delete_pre_key, pre_key_count,
}
use radix_relay.Memory.PreKeyLaws.{memory_pre_key_laws}
use radix_relay.Memory.TimedKeys.{MemoryTimedKeyStore, get_max_key_id}
use radix_relay.Memory.TimedLaws.{memory_timed_laws}
use radix_relay.Memory.Container.{RecordApi, MemoryContainer, memory_container_laws}
use radix_relay.KeyRotation.{
  needs_rotation, cleanup_expired, rotate_signed_store, consume_store, min_pre_key_count,
}
use radix_relay.KeyRotation.Next.{HasRoom, AddsNext}
use radix_relay.KeyRotation.Cleanup.{grace_millis, cleanup_expired_keeps, cleanup_expired_removes}
use radix_relay.KeyRotation.Age.{interval_millis, needs_rotation_iff}
use radix_relay.KeyRotation.Rotate.{rotate_signed_store_adds, AddsNext-cleanup_gone}
use radix_relay.KeyRotation.Replenish.{consume_store_refills, consume_store_reissues}

abbrev timestamp : ℕ × ℕ → Outcome ℕ
timestamp k = ok k.1

abbrev pub pre_key_api : PreKeyApi
pre_key_api = record {
  PreKeyRecord = ℕ × ℕ;
  KeyPair = ℕ;
  new_record = λ i k. (i, k);
  key_pair = λ r. ok r.1;
}

abbrev pub record_api : RecordApi
record_api = record {
  SessionRecord = ℕ;
  IdentityKey = ℕ;
  IdentityKeyPair = ℕ;
  pre_key_api = pre_key_api;
  SignedPreKeyRecord = ℕ × ℕ;
  KyberPreKeyRecord = ℕ × ℕ;
  signed_timestamp = timestamp;
  kyber_timestamp = timestamp;
}

abbrev pub container : StorageContainer
container = MemoryContainer record_api

abbrev pub container_laws : StorageContainerLaws container
container_laws = memory_container_laws record_api

-- The generator counts, and a signature is the number of the key.
abbrev pub key_api : KeyApi container
key_api = record {
  Rng = ℕ;
  KeyPair = ℕ;
  KemKeyPair = ℕ;
  Signature = ℕ;
  IdentityKeyPair = ℕ;
  generate = λ r. (r, suc r);
  generate_kem = λ r. (r, suc r);
  generate_identity = λ r. (r, suc r);
  random_u32 = λ r. r;
  calculate_signature = λ i k r. (ok k, suc r);
  calculate_kem_signature = λ i k r. (ok k, suc r);
  new_pre_key = λ i k. (i, k);
  new_signed_pre_key = λ i now k g. (i, now);
  signed_pre_key_id = λ k. ok k.0;
  new_kyber_pre_key = λ i now k g. (i, now);
}

pub key_api_laws : KeyApiLaws container container_laws key_api
unfolding memory_pre_key_laws memory_timed_laws
key_api_laws = record {
  pre_key-Fits = λ i k. (k, refl, refl);
  signed_pre_key-Fits = λ i now k g. (now, refl);
  kyber_pre_key-Fits = λ i now k g. (now, refl);
  signed_pre_key_id-new = λ i now k g. refl;
  signed_timestamp-new = λ i now k g. refl;
  kyber_timestamp-new = λ i now k g. refl;
}

-- Key 1 was made at 1 s, key 2 at 1 900 000 s; the clock stands at 2 000 000 s.
abbrev pub two_keys : MemoryTimedKeyStore (ℕ × ℕ)
two_keys = record { keys = (1, (1, 1000)) ∷ (2, (2, 1900000000)) ∷ [] }

abbrev signed_laws : TimedKeyStoreLaws container.signed_pre_keys
signed_laws = container_laws.signed_pre_key_laws

abbrev kyber_laws : TimedKeyStoreLaws container.kyber_pre_keys
kyber_laws = container_laws.kyber_pre_key_laws

pub two_keys-Valid : signed_laws.Valid two_keys
unfolding memory_timed_laws lookup
two_keys-Valid = ((refl, (refl, tt)), λ i k e. (k.1, refl))

pub two_keys-Valid_kyber : kyber_laws.Valid two_keys
unfolding memory_timed_laws lookup
two_keys-Valid_kyber = ((refl, (refl, tt)), λ i k e. (k.1, refl))

cleanup_expired_keeps_example :
    let (r, s') = cleanup_expired true container.signed_pre_keys 2000000000 two_keys in
    (r ≡ ok tt)
    × signed_laws.Valid s'
    × (0 < container.signed_pre_keys.count two_keys → 0 < container.signed_pre_keys.count s')
    × ((j : ℕ) (k : ℕ × ℕ)
        → signed_laws.find two_keys j ≡ some k
        → signed_laws.expired (2000000000 - grace_millis) k ≡ false
        → signed_laws.find s' j ≡ some k)
    × ((j : ℕ) (k : ℕ × ℕ) → signed_laws.find s' j ≡ some k → signed_laws.find two_keys j ≡ some k)
cleanup_expired_keeps_example =
    cleanup_expired_keeps true container.signed_pre_keys signed_laws 2000000000 two_keys
      two_keys-Valid (omega arith)

cleanup_expired_removes_example :
    signed_laws.find (cleanup_expired true container.signed_pre_keys 2000000000 two_keys).1 1 ≡ none
unfolding memory_timed_laws lookup
cleanup_expired_removes_example =
    cleanup_expired_removes true container.signed_pre_keys signed_laws 2000000000 two_keys 2 1
      two_keys-Valid (omega arith) refl refl refl refl

pub two_keys-max : container.signed_pre_keys.max_id two_keys ≡ ok (some 2)
unfolding get_max_key_id max_key
two_keys-max = refl

pub two_keys-found : signed_laws.find two_keys 2 ≡ some (2, 1900000000)
unfolding memory_timed_laws lookup
two_keys-found = refl

pub two_keys-HasRoom : HasRoom signed_laws.laws two_keys
unfolding memory_timed_laws lookup
two_keys-HasRoom i k e = ground arith

needs_rotation_iff_example :
    (b : Bool) × (needs_rotation true container.signed_pre_keys 2000000000 two_keys
      ≡ (ok b, two_keys))
    × ((b ≡ true) ↔ (1900000000 + interval_millis + 1000 ≤ 2000000000))
needs_rotation_iff_example =
    needs_rotation_iff true container.signed_pre_keys signed_laws 2000000000 two_keys 2 1900000000
      {k = (2, 1900000000)} two_keys-Valid two_keys-max two_keys-found refl (omega arith)

-- The store of signed pre-keys after a rotation at the clock.
abbrev rotated : MemoryTimedKeyStore (ℕ × ℕ)
rotated = (rotate_signed_store true key_api 7 0 2000000000 two_keys).1

rotate_signed_store_adds_example :
    ((rotate_signed_store true key_api 7 0 2000000000 two_keys).0 ≡ ok tt)
    × AddsNext signed_laws.laws two_keys rotated 3 (3, 2000000000)
rotate_signed_store_adds_example =
    rotate_signed_store_adds true container_laws key_api key_api_laws 7 0 2000000000 two_keys
      (some 2) {g = 0} two_keys-Valid two_keys-HasRoom two_keys-max refl

-- The rotated store, again, for what follows from it.
rotated-AddsNext : AddsNext signed_laws.laws two_keys rotated 3 (3, 2000000000)
rotated-AddsNext =
    (rotate_signed_store_adds true container_laws key_api key_api_laws 7 0 2000000000 two_keys
      (some 2) {g = 0} two_keys-Valid two_keys-HasRoom two_keys-max refl).1

two_keys-first : signed_laws.find two_keys 1 ≡ some (1, 1000)
unfolding memory_timed_laws lookup
two_keys-first = refl

AddsNext-cleanup_gone_example :
    signed_laws.find (cleanup_expired true container.signed_pre_keys 2000000000 rotated).1 1 ≡ none
AddsNext-cleanup_gone_example =
    AddsNext-cleanup_gone true container.signed_pre_keys signed_laws 2000000000 1000 two_keys
      rotated 3 1 {k = (3, 2000000000)} {old = (1, 1000)} two_keys-Valid rotated-AddsNext refl
      two_keys-first refl (omega arith)

pub two_keys-max_kyber : container.kyber_pre_keys.max_id two_keys ≡ ok (some 2)
unfolding get_max_key_id max_key
two_keys-max_kyber = refl

pub two_keys-HasRoom_kyber : HasRoom kyber_laws.laws two_keys
unfolding memory_timed_laws lookup
two_keys-HasRoom_kyber i k e = ground arith

abbrev pub two_pre_keys : MemoryPreKeyStore pre_key_api
two_pre_keys = record { pre_keys = (1, 10) ∷ (2, 20) ∷ [] }

pub two_pre_keys-Valid : container_laws.pre_key_laws.Valid two_pre_keys
unfolding memory_pre_key_laws lookup
two_pre_keys-Valid = (refl, (refl, tt))

pub two_pre_keys-max : container.pre_keys.max_id two_pre_keys ≡ ok (some 2)
unfolding get_max_pre_key_id max_key
two_pre_keys-max = refl

-- Without key 2 the highest id is 1, and one key is left.
two_pre_keys-deleted :
    (container.pre_keys.max_id (container.pre_keys.delete 2 two_pre_keys).1 ≡ ok (some 1))
    × (container.pre_keys.count (container.pre_keys.delete 2 two_pre_keys).1 ≡ 1)
unfolding get_max_pre_key_id max_key delete_pre_key erase pre_key_count
two_pre_keys-deleted = (refl, refl)

consume_store_refills_example :
    let (r, s') = consume_store true key_api 40 2 two_pre_keys in
    (r ≡ ok tt)
    × container_laws.pre_key_laws.Valid s'
    × (min_pre_key_count ≤ container.pre_keys.count s')
    × ((j : ℕ) (k : ℕ × ℕ)
        → j ≢ 2
        → container_laws.pre_key_laws.find two_pre_keys j ≡ some k
        → container_laws.pre_key_laws.find s' j ≡ some k)
consume_store_refills_example =
    consume_store_refills true container_laws key_api key_api_laws 40 2 two_pre_keys (some 1)
      two_pre_keys-Valid two_pre_keys-deleted.0 (omega arith)

consume_store_reissues_example :
    (container_laws.pre_key_laws.find (container.pre_keys.delete 2 two_pre_keys).1 2 ≡ none)
    × (is_some (container_laws.pre_key_laws.find (consume_store true key_api 40 2 two_pre_keys).1 2)
        ≡ true)
consume_store_reissues_example =
    consume_store_reissues true container_laws key_api key_api_laws 40 2 two_pre_keys (some 1)
      two_pre_keys-Valid two_pre_keys-deleted.0 (omega arith)
      (rw two_pre_keys-deleted.1 (omega arith)) (omega arith) (omega arith)
