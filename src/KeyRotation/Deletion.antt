-- ===== src/KeyRotation/Deletion.antt =====
-- The loop of the clean-up in key_rotation.rs: what each round does, and the loop as a whole.
use radix_relay.Prelude.{
  ℕ, ◌≤◌, ◌<◌, ◌≡◌, ◌≢◌, ◌∙◌, ap, sym, inl, inr, refl, true, false, ◌&&◌, none, some, List, [], ◌∷◌,
  ltb, if◌then◌else◌, ◌==◌, nat_eq, Bool-cases, Option-cases, arith,
}
use radix_relay.Exec.{Exec, Outcome, ok, pure}
use radix_relay.StorageTrait.{TimedKeyStore, TimedKeyStoreLaws, contains}
use radix_relay.KeyRotation.{delete_expired}

module _ (T : TimedKeyStore) (L : TimedKeyStoreLaws T) where
  -- One round of the loop.
  abbrev pub round : ℕ → Exec T.Store Unit
  round id s = (if ltb 1 (T.count s) then T.delete id else pure tt) s

  round-ok : (id : ℕ) (s : T.Store) → L.Valid s → (round id s).0 ≡ ok tt
  round-ok id s v = elim (Bool-cases (ltb 1 (T.count s))) [
    | inl more ↦ rw more (L.delete-ok id s v)
    | inr last ↦ rw last
  ]

  pub round-Valid : (id : ℕ) (s : T.Store) → L.Valid s → L.Valid (round id s).1
  round-Valid id s v = elim (Bool-cases (ltb 1 (T.count s))) [
    | inl more ↦ rw more (L.delete-Valid id s v)
    | inr last ↦ rw last v
  ]

  pub find-round :
      (id : ℕ) (s : T.Store) (j : ℕ)
      → L.Valid s
      → L.find (round id s).1 j ≡ (if ltb 1 (T.count s) && id == j then none else L.find s j)
  find-round id s j v = elim (Bool-cases (ltb 1 (T.count s))) [
    | inl more ↦ rw more (L.find-delete id s j v)
    | inr last ↦ rw last
  ]

  pub count-round : (id : ℕ) (s : T.Store) → L.Valid s → 0 < T.count s → 0 < T.count (round id s).1
  count-round id s v h = elim (Bool-cases (ltb 1 (T.count s))) [
    | inl more ↦ rw more (ground (arith, L.count-delete id s v))
    | inr last ↦ rw last h
  ]

  pub delete_expired-cons :
      (id : ℕ) (ids : List ℕ) (s : T.Store)
      → L.Valid s
      → delete_expired T (id ∷ ids) s ≡ delete_expired T ids (round id s).1
  unfolding delete_expired
  delete_expired-cons id ids s v = rw (round-ok id s v)

  pub delete_expired-ok :
      (ids : List ℕ) (s : T.Store) → L.Valid s → (delete_expired T ids s).0 ≡ ok tt
  unfolding delete_expired
  delete_expired-ok [] s v = refl
  delete_expired-ok (id ∷ ids) s v =
      ap (λ (r : Outcome Unit × T.Store). r.0) (delete_expired-cons id ids s v)
      ∙ delete_expired-ok ids (round id s).1 (round-Valid id s v)

  -- A property of stores that each round keeps is kept by the loop.
  delete_expired_induction :
      (P : T.Store → Type 0)
      → ((id : ℕ) (s : T.Store) → L.Valid s → P s → P (round id s).1)
      → (ids : List ℕ) (s : T.Store) → L.Valid s
      → P s
      → P (delete_expired T ids s).1
  unfolding delete_expired
  delete_expired_induction P keep [] s v h = h
  delete_expired_induction P keep (id ∷ ids) s v h =
      rw (delete_expired-cons id ids s v)
        (delete_expired_induction P keep ids (round id s).1 (round-Valid id s v) (keep id s v h))

  pub delete_expired-Valid :
      (ids : List ℕ) (s : T.Store) → L.Valid s → L.Valid (delete_expired T ids s).1
  delete_expired-Valid ids s v =
      delete_expired_induction L.Valid (λ id s v _. round-Valid id s v) ids s v v

  pub count-delete_expired :
      (ids : List ℕ) (s : T.Store)
      → L.Valid s
      → 0 < T.count s
      → 0 < T.count (delete_expired T ids s).1
  count-delete_expired ids s v h =
      delete_expired_induction (λ s. 0 < T.count s) count-round ids s v h

  -- An id that is not listed keeps its key.
  pub find-delete_expired_kept :
      (ids : List ℕ) (s : T.Store) (j : ℕ)
      → L.Valid s
      → contains j ids ≡ false
      → L.find (delete_expired T ids s).1 j ≡ L.find s j
  unfolding delete_expired
  find-delete_expired_kept [] s j v h = refl
  find-delete_expired_kept (id ∷ ids) s j v h = rw (delete_expired-cons id ids s v) (
      ground (
        arith,
        find-delete_expired_kept ids (round id s).1 j (round-Valid id s v),
        find-round id s j v,
      ))

  -- What is left under an id is what was there before.
  pub find-delete_expired_sub :
      (ids : List ℕ) (s : T.Store) (j : ℕ) {r : T.KeyRecord}
      → L.Valid s
      → L.find (delete_expired T ids s).1 j ≡ some r
      → L.find s j ≡ some r
  unfolding delete_expired
  find-delete_expired_sub [] s j v h = h
  find-delete_expired_sub (id ∷ ids) s j v h =
      let left : L.find (round id s).1 j ≡ some _ =
        find-delete_expired_sub ids (round id s).1 j (round-Valid id s v)
          (rw (delete_expired-cons id ids s v) at h) in
      ground (arith, find-round id s j v)

  -- In a round, while some other key is there, the listed key goes.
  round_removes :
      (id k : ℕ) (s : T.Store) {q : T.KeyRecord}
      → L.Valid s
      → L.find s k ≡ some q
      → id ≢ k
      → L.find (round id s).1 id ≡ none
  round_removes id k s v other ne = elim (Option-cases (L.find s id)) [
    | inl gone ↦ ground (arith, find-round id s id v)
    | inr (r, here) ↦
        ground (
          arith,
          find-round id s id v,
          λ (few : T.count s ≤ 1). L.count-one s id k v few here other,
        )
  ]

  -- While a key that is not listed is there, every listed key goes.
  pub find-delete_expired_gone :
      (ids : List ℕ) (s : T.Store) (j k : ℕ) {q : T.KeyRecord}
      → L.Valid s
      → L.find s k ≡ some q
      → contains k ids ≡ false
      → contains j ids ≡ true
      → L.find (delete_expired T ids s).1 j ≡ none
  find-delete_expired_gone [] s j k v other safe listed = cc
  find-delete_expired_gone (id ∷ ids) s j k {q} v other safe listed =
      let s' = (round id s).1 in
      let v' : L.Valid s' = round-Valid id s v in
      let still : L.find s' k ≡ some q = ground (arith, find-round id s k v) in
      rw (delete_expired-cons id ids s v) (elim (Bool-cases (contains j ids)) [
        | inl later ↦ find-delete_expired_gone ids s' j k v' still (ground arith) later
        | inr now ↦
            let e : id ≡ j = ground arith in
            let gone : L.find s' id ≡ none = round_removes id k s v other (ground arith) in
            find-delete_expired_kept ids s' j v' now ∙ ap (L.find s') (sym e) ∙ gone
      ])
