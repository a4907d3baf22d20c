-- ===== src/Memory/TimedLaws.antt =====
-- The signed and Kyber pre-key stores of memory_storage.rs meet the laws of their traits.
use radix_relay.Prelude.{
  ℕ, ◌+◌, ◌≤◌, ◌<◌, ◌≡◌, refl, ap, inl, inr, true, false, none, some, [], ◌∷◌, ◌==◌, nat_eq,
  Bool-cases, arith,
}
use radix_relay.Prelude.Assoc.{
  Assoc, lookup, insert, erase, Distinct, lookup-insert, lookup-erase, length-insert, length-erase,
  insert-Distinct, erase-Distinct, lookup-length, length_one,
}
use radix_relay.Prelude.MaxKey.{max_key-none, max_key-above, max_key-found}
use radix_relay.Exec.{Outcome, Error, ok, err}
use radix_relay.StorageTrait.Tables.{max_key-cases, ok-injective}
use radix_relay.StorageTrait.{TimedKeyStoreLaws, contains, holds}
use radix_relay.Memory.TimedKeys.{
  MemoryTimedKeyStore, get_key, save_key, key_count, clear_all_keys, get_max_key_id, delete_key,
  is_older, expired_entries, get_keys_older_than, memory_timed_keys,
}

module _ {KeyRecord : Type 0} (timestamp : KeyRecord → Outcome ℕ) where
  abbrev pub Timed : KeyRecord → Type 0
  Timed k = (ts : ℕ) × (timestamp k ≡ ok ts)

  abbrev pub IsTimedTable : Assoc ℕ KeyRecord → Type 0
  IsTimedTable m = Distinct m × ((i : ℕ) (k : KeyRecord) → lookup i m ≡ some k → Timed k)

  contains-expired_absent :
      (t i : ℕ) (m : Assoc ℕ KeyRecord)
      → lookup i m ≡ none
      → contains i (expired_entries timestamp t m) ≡ false
  unfolding lookup expired_entries
  contains-expired_absent t i [] h = refl
  contains-expired_absent t i ((j, k) ∷ m) h = ground (arith, contains-expired_absent t i m)

  -- The loop over the entries lists exactly the ids whose record is older.
  pub contains-expired_entries :
      (t i : ℕ) (m : Assoc ℕ KeyRecord)
      → Distinct m
      → contains i (expired_entries timestamp t m)
        ≡ holds (λ k. is_older t (timestamp k)) (lookup i m)
  unfolding lookup expired_entries
  contains-expired_entries t i [] d = refl
  contains-expired_entries t i ((j, k) ∷ m) d = elim (Bool-cases (j == i)) [
    | inl here ↦
        let e : j ≡ i = ground arith in
        rw here (ground (arith, contains-expired_absent t i m, ap (λ (x : ℕ). lookup x m) e))
    | inr there ↦ rw there (ground (arith, contains-expired_entries t i m d.1))
  ]

  pub insert-Timed :
      (i : ℕ) (k : KeyRecord) (m : Assoc ℕ KeyRecord)
      → IsTimedTable m
      → Timed k
      → IsTimedTable (insert i k m)
  insert-Timed i k m v h = (
    insert-Distinct i k m v.0,
    λ j q e. elim (Bool-cases (i == j)) [
      | inl same ↦ let e' : k ≡ q = ground (arith, lookup-insert i j k m) in (h.0, rw (← e') h.1)
      | inr other ↦ v.1 j q (ground (arith, lookup-insert i j k m))
    ],
  )

  pub erase-Timed : (i : ℕ) (m : Assoc ℕ KeyRecord) → IsTimedTable m → IsTimedTable (erase i m)
  erase-Timed i m v =
      (erase-Distinct i m v.0, λ j q e. v.1 j q (ground (arith, lookup-erase i j m)))

pub lookup-nil : {V : Type 0} (i : ℕ) {k : V} → lookup i [] ≡ some k → ⊥
unfolding lookup
lookup-nil i e = cc

module _ {KeyRecord : Type 0} (missing : Error) (s : MemoryTimedKeyStore KeyRecord) (i : ℕ) where
  pub get_key-found : {k : KeyRecord} → lookup i s.keys ≡ some k → get_key missing s i ≡ ok k
  unfolding get_key
  get_key-found e = ground arith

  pub get_key-missing : lookup i s.keys ≡ none → get_key missing s i ≡ err missing
  unfolding get_key
  get_key-missing e = ground arith

pub is_older-lt : (t : ℕ) {o : Outcome ℕ} {ts : ℕ} → o ≡ ok ts → is_older t o ≡ true → ts < t
is_older-lt t e h = ground arith

pub lt-is_older : (t : ℕ) {o : Outcome ℕ} {ts : ℕ} → o ≡ ok ts → ts + 1000 ≤ t → is_older t o ≡ true
lt-is_older t e h = ground arith

-- `MemorySignedPreKeyStore` and `MemoryKyberPreKeyStore`, for records that have a timestamp.
unfoldable pub memory_timed_laws :
    (KeyRecord : Type 0) (timestamp : KeyRecord → Outcome ℕ) (missing : Error)
    → TimedKeyStoreLaws (memory_timed_keys KeyRecord timestamp missing)
unfolding get_key save_key key_count clear_all_keys get_max_key_id delete_key get_keys_older_than
memory_timed_laws KeyRecord timestamp missing = record {
  laws = record {
    Valid = λ s. IsTimedTable timestamp s.keys;
    Fits = λ i k. Timed timestamp k;
    find = λ s i. lookup i s.keys;
    missing = missing;
    get-found = λ s i v e. get_key-found missing s i e;
    get-missing = λ s i v e. get_key-missing missing s i e;
    save-ok = λ i k s v h. refl;
    save-Valid = λ i k s v h. insert-Timed timestamp i k s.keys v h;
    find-save = λ i k s j v h. lookup-insert i j k s.keys;
    count-save = λ i k s v h. length-insert i k s.keys;
    delete-ok = λ i s v. refl;
    delete-Valid = λ i s v. erase-Timed timestamp i s.keys v;
    find-delete = λ i s j v. lookup-erase i j s.keys;
    count-delete = λ i s v. length-erase i s.keys v.0;
    clear-ok = λ s v. refl;
    clear-Valid = λ s v. (tt, λ i k e. absurd (lookup-nil i e));
    count-clear = λ s v. refl;
    max-ok = λ s v. max_key-cases s.keys;
    max-none = λ s i v e. max_key-none s.keys i (ok-injective e);
    max-found = λ s m v e. max_key-found s.keys m (ok-injective e);
    max-above = λ s m i v e h. max_key-above s.keys m i (ok-injective e) h;
    count-found = λ s i v e. lookup-length i s.keys e;
    count-one = λ s i j v few p q. length_one i j s.keys few p q;
  };
  expired = λ t k. is_older t (timestamp k);
  old_ids = λ s t. expired_entries timestamp t s.keys;
  older_than-ok = λ s t v. refl;
  contains-old_ids = λ s t i v. contains-expired_entries timestamp t i s.keys v.0;
  timed = λ s i v e. v.1 i _ e;
  expired-lt = λ t k e h. is_older-lt t e h;
  lt-expired = λ t k e h. lt-is_older t e h;
}
