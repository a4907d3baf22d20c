-- ===== src/KeyRotation/Cleanup.antt =====
-- The clean-up of old keys in key_rotation.rs: what it keeps and what it removes.
use radix_relay.Prelude.{
  ℕ, ◌-◌, ◌*◌, ◌≤◌, ◌<◌, ◌≡◌, ap, inl, inr, refl, Bool, true, false, none, some, leb, if◌then◌else◌,
  nat_eq, Bool-cases, arith,
}
use radix_relay.Exec.{ok, sub_u64}
use radix_relay.StorageTrait.{TimedKeyStore, TimedKeyStoreLaws, contains}
use radix_relay.KeyRotation.{cleanup_expired, delete_expired, grace_period_secs}
use radix_relay.KeyRotation.Deletion.{
  delete_expired-ok, delete_expired-Valid, count-delete_expired, find-delete_expired_kept,
  find-delete_expired_sub, find-delete_expired_gone,
}

abbrev pub grace_millis : ℕ
grace_millis = grace_period_secs * 1000

module _ (checks : Bool) (T : TimedKeyStore) (L : TimedKeyStoreLaws T) where
  -- Once the clock has passed the grace period the clean-up is its loop, or nothing.
  cleanup_expired_loop :
      (now : ℕ) (s : T.Store)
      → L.Valid s
      → grace_millis ≤ now
      → cleanup_expired checks T now s ≡ (
          if leb (T.count s) 1
          then (ok tt, s)
          else delete_expired T (L.old_ids s (now - grace_millis)) s)
  unfolding cleanup_expired sub_u64
  cleanup_expired_loop now s v h =
      let passed : leb grace_millis now ≡ true = ground arith in
      rw (passed, L.older_than-ok s (now - grace_millis) v)
        (elim (Bool-cases (leb (T.count s) 1)) [ inl e ↦ rw e | inr e ↦ rw e ])

  -- With the clock past the grace period, the clean-up of a well-formed store returns, leaves a
  -- well-formed store, does not empty it, keeps every key that is not expired at the cut-off, and
  -- adds or changes none.
  pub cleanup_expired_keeps :
      (now : ℕ) (s : T.Store)
      → L.Valid s
      → grace_millis ≤ now
      → let (r, s') = cleanup_expired checks T now s in
        (r ≡ ok tt)
        × L.Valid s'
        × (0 < T.count s → 0 < T.count s')
        × ((j : ℕ) (k : T.KeyRecord)
            → L.find s j ≡ some k
            → L.expired (now - grace_millis) k ≡ false
            → L.find s' j ≡ some k)
        × ((j : ℕ) (k : T.KeyRecord) → L.find s' j ≡ some k → L.find s j ≡ some k)
  cleanup_expired_keeps now s v h =
      let cutoff = now - grace_millis in
      let ids = L.old_ids s cutoff in
      rw (cleanup_expired_loop now s v h) (elim (Bool-cases (leb (T.count s) 1)) [
        | inl few ↦ rw few (refl, v, λ p. p, λ j k e _. e, λ j k e. e)
        | inr many ↦ rw many (
          delete_expired-ok T L ids s v,
          delete_expired-Valid T L ids s v,
          count-delete_expired T L ids s v,
          λ j k e young.
              ground
                (arith, find-delete_expired_kept T L ids s j v, L.contains-old_ids s cutoff j v),
          λ j k e. find-delete_expired_sub T L ids s j v e,
        )
      ])

  -- With the clock past the grace period, and some key of a well-formed store not expired at the
  -- cut-off, no key that is expired there is left after the clean-up.
  pub cleanup_expired_removes :
      (now : ℕ) (s : T.Store) (i j : ℕ) {young old : T.KeyRecord}
      → L.Valid s
      → grace_millis ≤ now
      → L.find s i ≡ some young
      → L.expired (now - grace_millis) young ≡ false
      → L.find s j ≡ some old
      → L.expired (now - grace_millis) old ≡ true
      → L.find (cleanup_expired checks T now s).1 j ≡ none
  cleanup_expired_removes now s i j {young} {old} v h ei ny ej od =
      let cutoff = now - grace_millis in
      let ids = L.old_ids s cutoff in
      let kept : contains i ids ≡ false = ground (arith, L.contains-old_ids s cutoff i v) in
      let listed : contains j ids ≡ true = ground (arith, L.contains-old_ids s cutoff j v) in
      rw (cleanup_expired_loop now s v h) (elim (Bool-cases (leb (T.count s) 1)) [
        | inl few ↦
            let same : i ≡ j = L.count-one s i j v (ground arith) ei ej in
            absurd (ground (arith, ap (L.find s) same))
        | inr many ↦ rw many (find-delete_expired_gone T L ids s j i v ei kept listed)
      ])
