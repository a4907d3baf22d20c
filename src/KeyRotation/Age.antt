-- ===== src/KeyRotation/Age.antt =====
-- The age test of key_rotation.rs.
use radix_relay.Prelude.{
  ℕ, ◌+◌, ◌-◌, ◌*◌, ◌/◌, ◌≤◌, ◌≡◌, ◌↔◌, Bool, true, none, some, ltb, leb, arith,
}
use radix_relay.Exec.{ok, sub_u64}
use radix_relay.StorageTrait.{TimedKeyStore, TimedKeyStoreLaws}
use radix_relay.KeyRotation.{needs_rotation, rotation_interval_secs}

abbrev pub interval_millis : ℕ
interval_millis = rotation_interval_secs * 1000

module _ (checks : Bool) (T : TimedKeyStore) (L : TimedKeyStoreLaws T) where
  -- What the test answers for a highest key of a known time.
  pub needs_rotation-found :
      (now : ℕ) (s : T.Store) (m ts : ℕ) {k : T.KeyRecord}
      → L.Valid s
      → T.max_id s ≡ ok (some m)
      → L.find s m ≡ some k
      → T.timestamp k ≡ ok ts
      → ts ≤ now
      → needs_rotation checks T now s ≡ (ok (ltb rotation_interval_secs ((now - ts) / 1000)), s)
  unfolding needs_rotation sub_u64
  needs_rotation-found now s m ts v e found time past =
      let after : leb ts now ≡ true = ground arith in rw (e, L.get-found s m v found, time, after)

  -- On a well-formed store the test changes nothing, and a store in which no key is found needs a
  -- rotation.
  pub needs_rotation-empty :
      (now : ℕ) (s : T.Store)
      → L.Valid s
      → T.max_id s ≡ ok none
      → needs_rotation checks T now s ≡ (ok true, s)
  unfolding needs_rotation
  needs_rotation-empty now s v e = rw e

  -- In a well-formed store whose highest key `k` was made at `ts`, not after the clock, the test
  -- returns and changes nothing, and answers true exactly when `k` is at least a second older than
  -- the rotation interval.
  pub needs_rotation_iff :
      (now : ℕ) (s : T.Store) (m ts : ℕ) {k : T.KeyRecord}
      → L.Valid s
      → T.max_id s ≡ ok (some m)
      → L.find s m ≡ some k
      → T.timestamp k ≡ ok ts
      → ts ≤ now
      → (b : Bool) × (needs_rotation checks T now s ≡ (ok b, s))
        × ((b ≡ true) ↔ (ts + interval_millis + 1000 ≤ now))
  needs_rotation_iff now s m ts v e found time past = (
    ltb rotation_interval_secs ((now - ts) / 1000),
    needs_rotation-found now s m ts v e found time past,
    (λ h. ground arith, λ h. ground arith),
  )
