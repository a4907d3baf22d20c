-- ===== src/Memory/PreKeyLaws.antt =====
-- The store of one-time pre-keys of memory_storage.rs meets the laws of its trait.
use radix_relay.Prelude.{
  ℕ, ◌≡◌, refl, ap, ◌∙◌, sym, inl, inr, Option, none, some, if◌then◌else◌, ◌==◌, nat_eq, is_some,
  Bool-cases, arith,
}
use radix_relay.Prelude.Assoc.{
  lookup, insert, erase, Distinct, lookup-insert, lookup-erase, length-insert, length-erase,
  insert-Distinct, erase-Distinct, lookup-length, length_one,
}
use radix_relay.Prelude.MaxKey.{max_key-none, max_key-above, max_key-found}
use radix_relay.Exec.{ok, err, invalid_pre_key_id}
use radix_relay.StorageTrait.{KeyStoreLaws}
use radix_relay.Memory.PreKeys.{
  PreKeyApi, MemoryPreKeyStore, get_pre_key, save_pre_key, pre_key_count, clear_all_pre_keys,
  get_max_pre_key_id, delete_pre_key, memory_pre_keys,
}
use radix_relay.StorageTrait.Tables.{max_key-cases, ok-injective}

module _ (P : PreKeyApi) where
  abbrev pub rebuilt : ℕ → Option P.KeyPair → Option P.PreKeyRecord
  rebuilt i none = none
  rebuilt i (some key_pair) = some (P.new_record i key_pair)

  -- A record that is rebuilt from its id and key pair.
  abbrev pub Rebuilds : ℕ → P.PreKeyRecord → Type 0
  Rebuilds i r = (kp : P.KeyPair) × (P.key_pair r ≡ ok kp) × (P.new_record i kp ≡ r)

  abbrev pub find_pre_key : MemoryPreKeyStore P → ℕ → Option P.PreKeyRecord
  find_pre_key s i = rebuilt i (lookup i s.pre_keys)

  pub rebuilt-some :
      (i : ℕ) (o : Option P.KeyPair) {r : P.PreKeyRecord}
      → rebuilt i o ≡ some r
      → (kp : P.KeyPair) × (o ≡ some kp) × (P.new_record i kp ≡ r)
  rebuilt-some i none h = cc
  rebuilt-some i (some kp) h = (kp, refl, ground arith)

  pub rebuilt-none : (i : ℕ) (o : Option P.KeyPair) → rebuilt i o ≡ none → o ≡ none
  rebuilt-none i none h = refl
  rebuilt-none i (some kp) h = cc

  pub is_some-rebuilt : (i : ℕ) (o : Option P.KeyPair) → is_some (rebuilt i o) ≡ is_some o
  is_some-rebuilt i none = refl
  is_some-rebuilt i (some kp) = refl

  pub save_pre_key-eq :
      (i : ℕ) (r : P.PreKeyRecord) (s : MemoryPreKeyStore P) (h : Rebuilds i r)
      → save_pre_key i r s ≡ (ok tt, record { pre_keys = insert i h.0 s.pre_keys })
  unfolding save_pre_key
  save_pre_key-eq i r s (kp, read, same) = rw read

  pub find-save_pre_key :
      (i : ℕ) (r : P.PreKeyRecord) (s : MemoryPreKeyStore P) (j : ℕ)
      → Rebuilds i r
      → find_pre_key (save_pre_key i r s).1 j ≡ (if i == j then some r else find_pre_key s j)
  find-save_pre_key i r s j h =
      rw (save_pre_key-eq i r s h, lookup-insert i j h.0 s.pre_keys)
        (elim (Bool-cases (i == j)) [
          | inl e ↦ rw e (
              let same : i ≡ j = ground arith in
              ap (λ (x : ℕ). some (P.new_record x h.0)) (sym same)
              ∙ ap (λ (r : P.PreKeyRecord). some r) h.2)
          | inr e ↦ rw e
        ])

  pub find-delete_pre_key :
      (i : ℕ) (s : MemoryPreKeyStore P) (j : ℕ)
      → find_pre_key (record { pre_keys = erase i s.pre_keys }) j
        ≡ (if i == j then none else find_pre_key s j)
  find-delete_pre_key i s j =
      rw (lookup-erase i j s.pre_keys) (elim (Bool-cases (i == j)) [ inl e ↦ rw e | inr e ↦ rw e ])

  pub get_pre_key-found :
      (s : MemoryPreKeyStore P) (i : ℕ) {kp : P.KeyPair}
      → lookup i s.pre_keys ≡ some kp
      → get_pre_key s i ≡ ok (P.new_record i kp)
  unfolding get_pre_key
  get_pre_key-found s i e = ground arith

  pub get_pre_key-missing :
      (s : MemoryPreKeyStore P) (i : ℕ)
      → lookup i s.pre_keys ≡ none
      → get_pre_key s i ≡ err invalid_pre_key_id
  unfolding get_pre_key
  get_pre_key-missing s i e = ground arith

unfoldable pub memory_pre_key_laws : (P : PreKeyApi) → KeyStoreLaws (memory_pre_keys P)
unfolding get_pre_key pre_key_count clear_all_pre_keys get_max_pre_key_id delete_pre_key
memory_pre_key_laws P = record {
  Valid = λ s. Distinct s.pre_keys;
  Fits = Rebuilds P;
  find = find_pre_key P;
  missing = invalid_pre_key_id;
  get-found = λ s i v e.
      let (kp, found, same) = rebuilt-some P i (lookup i s.pre_keys) e in
      get_pre_key-found P s i found ∙ ap (λ (r : P.PreKeyRecord). ok r) same;
  get-missing = λ s i v e. get_pre_key-missing P s i (rebuilt-none P i (lookup i s.pre_keys) e);
  save-ok = λ i r s v h. rw (save_pre_key-eq P i r s h);
  save-Valid = λ i r s v h. rw (save_pre_key-eq P i r s h) (insert-Distinct i h.0 s.pre_keys v);
  find-save = λ i r s j v h. find-save_pre_key P i r s j h;
  count-save = λ i r s v h.
      rw (save_pre_key-eq P i r s h, is_some-rebuilt P i (lookup i s.pre_keys))
        (length-insert i h.0 s.pre_keys);
  delete-ok = λ i s v. refl;
  delete-Valid = λ i s v. erase-Distinct i s.pre_keys v;
  find-delete = λ i s j v. find-delete_pre_key P i s j;
  count-delete =
      λ i s v. rw (is_some-rebuilt P i (lookup i s.pre_keys)) (length-erase i s.pre_keys v);
  clear-ok = λ s v. refl;
  clear-Valid = λ s v. tt;
  count-clear = λ s v. refl;
  max-ok = λ s v. max_key-cases s.pre_keys;
  max-none = λ s i v e. ap (rebuilt P i) (max_key-none s.pre_keys i (ok-injective e));
  max-found = λ s m v e.
      let (kp, found) = max_key-found s.pre_keys m (ok-injective e) in
      (P.new_record m kp, ap (rebuilt P m) found);
  max-above = λ s m i v e h. ap (rebuilt P i) (max_key-above s.pre_keys m i (ok-injective e) h);
  count-found = λ s i v e.
      let (kp, found, same) = rebuilt-some P i (lookup i s.pre_keys) e in
      lookup-length i s.pre_keys found;
  count-one = λ s i j v few p q.
      let (kp, found, same) = rebuilt-some P i (lookup i s.pre_keys) p in
      let (kq, found', same') = rebuilt-some P j (lookup j s.pre_keys) q in
      length_one i j s.pre_keys few found found';
}
