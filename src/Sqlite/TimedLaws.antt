-- ===== src/Sqlite/TimedLaws.antt =====
-- The stores of signed and Kyber pre-keys of sqlite_storage.rs as table stores, with the laws of
-- StorageTrait.
use radix_relay.Prelude.{
  ℕ, ◌+◌, ◌*◌, ◌/◌, ◌≤◌, ◌<◌, ◌≡◌, refl, ap, ◌∙◌, inl, inr, Bool, true, false, Option, none, some,
  List, [], ◌∷◌, ltb, ◌==◌, nat_eq, Bool-cases, Option-cases, arith,
}
use radix_relay.Prelude.Assoc.{Assoc, lookup, insert, Distinct}
use radix_relay.Exec.{Error, ok, err}
use radix_relay.StorageTrait.{TimedKeyStoreLaws, contains, holds}
use radix_relay.StorageTrait.Tables.{TableStore, decoded, decoded-some, IsTable, table_laws}
use radix_relay.Sqlite.{IsCodec, or_invalid_state}
use radix_relay.Sqlite.TimedKeys.{
  TimedKeyRow, SqliteTimedKeyStore, TimedRecordApi, get_key, save_key, key_count, clear_all_keys,
  get_max_key_id, delete_key, created_before, get_keys_older_than, sqlite_timed_keys,
}

module _ (P : TimedRecordApi) where
  -- A record that can be serialized, with a timestamp and a signature.
  abbrev pub IsStorable : P.KeyRecord → Type 0
  IsStorable r =
      (b : List ℕ) × (P.codec.serialize r ≡ some b)
      × (ts : ℕ) × (P.timestamp r ≡ some ts)
      × (g : List ℕ) × (P.signature r ≡ some g)

  -- The row stands for a record, and its time is the record's.
  abbrev pub IsTimedRow : TimedKeyRow → Type 0
  IsTimedRow w =
      (r : P.KeyRecord) × (P.codec.deserialize w.key_data ≡ some r)
      × (ts : ℕ) × (P.timestamp r ≡ some ts)
      × (w.created_at ≡ ts / 1000)

  abbrev pub timed_row : (r : P.KeyRecord) → IsStorable r → TimedKeyRow
  timed_row r h = record {
    key_data = h.0;
    signature = h.4;
    created_at = h.2 / 1000;
    expires_at = h.2 / 1000 + 30 * 24 * 60 * 60;
    is_current = false;
  }

  pub get_key-row :
      (missing : Error) (s : SqliteTimedKeyStore) (i : ℕ) {w : TimedKeyRow} {r : P.KeyRecord}
      → lookup i s.keys ≡ some w
      → P.codec.deserialize w.key_data ≡ some r
      → get_key P missing s i ≡ ok r
  unfolding get_key
  get_key-row missing s i e d = rw (e, get_key) (rw d)

  pub get_key-none :
      (missing : Error) (s : SqliteTimedKeyStore) (i : ℕ)
      → lookup i s.keys ≡ none
      → get_key P missing s i ≡ err missing
  unfolding get_key
  get_key-none missing s i e = rw (e, get_key)

  pub save_key-eq :
      (i : ℕ) (r : P.KeyRecord) (s : SqliteTimedKeyStore) (h : IsStorable r)
      → save_key P i r s ≡ (ok tt, record { keys = insert i (timed_row r h) s.keys })
  unfolding save_key
  save_key-eq i r s (b, e, ts, e', g, e'') = rw (e, e', e'')

contains-created_absent :
    (secs i : ℕ) (m : Assoc ℕ TimedKeyRow)
    → lookup i m ≡ none
    → contains i (created_before secs m) ≡ false
unfolding lookup created_before
contains-created_absent secs i [] h = refl
contains-created_absent secs i ((j, w) ∷ m) h = ground (arith, contains-created_absent secs i m)

-- The query lists exactly the ids whose row is older.
contains-created_before :
    (secs i : ℕ) (m : Assoc ℕ TimedKeyRow)
    → Distinct m
    → contains i (created_before secs m)
      ≡ holds (λ (w : TimedKeyRow). ltb w.created_at secs) (lookup i m)
unfolding lookup created_before
contains-created_before secs i [] d = refl
contains-created_before secs i ((j, w) ∷ m) d = elim (Bool-cases (j == i)) [
  | inl here ↦
      let e : j ≡ i = ground arith in
      rw here (ground (arith, contains-created_absent secs i m, ap (λ (x : ℕ). lookup x m) e))
  | inr there ↦ rw there (ground (arith, contains-created_before secs i m d.1))
]

-- The age test of the query, which compares whole seconds, on a record's time in milliseconds.
abbrev pub is_older_secs : ℕ → Option ℕ → Bool
is_older_secs t none = false
is_older_secs t (some ts) = ltb (ts / 1000) (t / 1000)

pub is_older_secs-lt :
    (t : ℕ) (o : Option ℕ) {ts : ℕ} → or_invalid_state o ≡ ok ts → is_older_secs t o ≡ true → ts < t
is_older_secs-lt t none e h = cc
is_older_secs-lt t (some us) e h = ground arith

pub lt-is_older_secs :
    (t : ℕ) (o : Option ℕ) {ts : ℕ}
    → or_invalid_state o ≡ ok ts
    → ts + 1000 ≤ t
    → is_older_secs t o ≡ true
lt-is_older_secs t none e h = cc
lt-is_older_secs t (some us) e h = ground arith

unfoldable pub sqlite_timed_table :
    (P : TimedRecordApi) (missing : Error)
    → IsCodec P.codec
    → TableStore (sqlite_timed_keys P missing).keys
unfolding key_count clear_all_keys get_max_key_id delete_key
sqlite_timed_table P missing inverse = record {
  Row = TimedKeyRow;
  rows = λ s. s.keys;
  decode = λ w. P.codec.deserialize w.key_data;
  IsGood = IsTimedRow P;
  Fits = λ i r. IsStorable P r;
  row = λ i r h. timed_row P r h;
  missing = missing;
  good_decodes = λ w g. (g.0, g.1);
  row-IsGood = λ i r h. (r, inverse r h.0 h.1, h.2, h.3, refl);
  decode-row = λ i r h. inverse r h.0 h.1;
  get_row = λ s i e d. get_key-row P missing s i e d;
  get_none = λ s i e. get_key-none P missing s i e;
  save_done = λ i r s h. rw (save_key-eq P i r s h);
  save_rows = λ i r s h. rw (save_key-eq P i r s h);
  delete_done = λ i s. refl;
  delete_rows = λ i s. refl;
  clear_done = λ s. refl;
  clear_rows = λ s. refl;
  count_rows = λ s. refl;
  max_rows = λ s. refl;
}

module _ (P : TimedRecordApi) (missing : Error) (inverse : IsCodec P.codec) where
  -- The query lists the ids under which an old record is found.
  pub contains-old_ids_lem :
      (s : SqliteTimedKeyStore) (t i : ℕ)
      → IsTable (λ (w : TimedKeyRow). P.codec.deserialize w.key_data) (IsTimedRow P) s.keys
      → contains i (created_before (t / 1000) s.keys)
        ≡ holds
            (λ (r : P.KeyRecord). is_older_secs t (P.timestamp r))
            (decoded (λ (w : TimedKeyRow). P.codec.deserialize w.key_data) (lookup i s.keys))
  contains-old_ids_lem s t i v =
      contains-created_before (t / 1000) i s.keys v.0 ∙ elim (Option-cases (lookup i s.keys)) [
        | inl absent ↦ rw absent
        | inr (w, there) ↦ let (r, d, ts, e, same) = v.1 i w there in rw (there, d, e, same)
      ]

  pub timed_lem :
      (s : SqliteTimedKeyStore) (i : ℕ) {r : P.KeyRecord}
      → IsTable (λ (w : TimedKeyRow). P.codec.deserialize w.key_data) (IsTimedRow P) s.keys
      → decoded (λ (w : TimedKeyRow). P.codec.deserialize w.key_data) (lookup i s.keys) ≡ some r
      → (ts : ℕ) × (or_invalid_state (P.timestamp r) ≡ ok ts)
  timed_lem s i {r} v e =
      let (w, there, d) =
        decoded-some (λ (w : TimedKeyRow). P.codec.deserialize w.key_data) (lookup i s.keys) e in
      let (q, d', ts, time, same) = v.1 i w there in
      let known : q ≡ r = ground (arith, d, d') in (ts, rw (← known, time))

  unfoldable pub sqlite_timed_laws : TimedKeyStoreLaws (sqlite_timed_keys P missing)
  unfolding get_keys_older_than table_laws sqlite_timed_table
  sqlite_timed_laws = record {
    laws = table_laws (sqlite_timed_table P missing inverse);
    expired = λ t r. is_older_secs t (P.timestamp r);
    old_ids = λ s t. created_before (t / 1000) s.keys;
    older_than-ok = λ s t v. refl;
    contains-old_ids = λ s t i v. contains-old_ids_lem s t i v;
    timed = λ s i v e. timed_lem s i v e;
    expired-lt = λ t r e h. is_older_secs-lt t (P.timestamp r) e h;
    lt-expired = λ t r e h. lt-is_older_secs t (P.timestamp r) e h;
  }
