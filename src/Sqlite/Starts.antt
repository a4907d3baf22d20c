-- ===== src/Sqlite/Starts.antt =====
-- What the starts of the program leave in the database file: the rows of `schema_info`, and what
-- was written to `settings` and `bundle_metadata`.
use radix_relay.Prelude.{
  ℕ, suc, zero, ◌<◌, ◌^◌, ◌≡◌, refl, ap, ◌∙◌, Option, none, some, List, [], ◌∷◌, ◌++◌, length,
}
use radix_relay.Prelude.Decimal.{decimal, parse_u64-decimal}
use radix_relay.Exec.{ok}
use radix_relay.Sqlite.Storage.{
  SqliteApi, Tables, SqliteStorage, new, rows_or_created, written, migrate_to_v2, migrated,
  with_version_row, initialize_schema, get_schema_version, timestamp_of, metadata_of, BundleRow,
  get_last_message_timestamp, set_last_message_timestamp, record_published_bundle,
  get_last_published_bundle_metadata,
}

length-append_one : (rows : List ℕ) → length (rows ++ (1 ∷ [])) ≡ suc (length rows)
length-append_one [] = refl
length-append_one (v ∷ rows) = ap (λ n. suc n) (length-append_one rows)

written_created :
    {B : Type 0} (b : B) (o : Option (Option B))
    → (written b (rows_or_created none o)).1 ≡ some (some b)
written_created b none = refl
written_created b (some o) = refl

pub parsed : (t : ℕ) → t < 2 ^ 64 → timestamp_of (some (some (decimal t))) ≡ ok t
parsed t h = rw (parse_u64-decimal t h, timestamp_of)

module _ {A : SqliteApi} where
  -- `n` runs of the program, each of which opens the file and initializes it.
  abbrev pub started : ℕ → Tables A → Tables A
  unfolding initialize_schema
  started zero t = t
  started (suc n) t = (initialize_schema (new (started n t))).1.connection

  version_rows :
      (n : ℕ) (t : Tables A)
      → t.schema_info ≡ none
      → (rows : List ℕ) × ((started (suc n) t).schema_info ≡ some (2 ∷ rows)) × (length rows ≡ n)
  unfolding initialize_schema migrate_to_v2
  version_rows zero t e = ([], rw e, refl)
  version_rows (suc n) t e =
      let (rows, f, l) = version_rows n t e in
      (
        rows ++ (1 ∷ []),
        ap (λ o. some (migrated (with_version_row o))) f,
        length-append_one rows ∙ ap (λ k. suc k) l,
      )

  started_stores :
      (n : ℕ) (t : Tables A)
      → ((started n t).stores ≡ t.stores) × ((started n t).history ≡ t.history)
  unfolding initialize_schema
  started_stores zero t = (refl, refl)
  started_stores (suc n) t = started_stores n t

  -- After one start or more of a file that was new at the first, the schema has version 2, every
  -- start has added a row to `schema_info`, and what the stores and the history hold is what it was.
  pub started-version :
      (n : ℕ) (t : Tables A)
      → t.schema_info ≡ none
      → let u = started (suc n) t in
        (get_schema_version (new u) ≡ ok 2)
        × ((rows : List ℕ) × (u.schema_info ≡ some rows) × (length rows ≡ suc n))
        × (u.stores ≡ t.stores)
        × (u.history ≡ t.history)
  unfolding get_schema_version
  started-version n t e =
      let (rows, f, l) = version_rows n t e in
      let (g, h) = started_stores (suc n) t in (rw f, (2 ∷ rows, f, ap (λ k. suc k) l), g, h)

  -- A time of 64 bits and the ids of a bundle that were written to an initialized storage are read
  -- back, also by the next run of the program. Writing the time alone leaves the ids of the last
  -- bundle, or their absence, as they were, and recording a bundle alone leaves the time.
  pub settings_roundtrip :
      (s : SqliteStorage A) (t now i j k : ℕ)
      → t < 2 ^ 64
      → let u = (initialize_schema s).1 in
        let v = (record_published_bundle now i j k (set_last_message_timestamp t u).1).1 in
        let w = (initialize_schema (new v.connection)).1 in
        (get_last_message_timestamp v ≡ ok t)
        × (get_last_published_bundle_metadata v ≡ ok (some (i, j, k)))
        × (get_last_message_timestamp w ≡ ok t)
        × (get_last_published_bundle_metadata w ≡ ok (some (i, j, k)))
        × (get_last_published_bundle_metadata (set_last_message_timestamp t u).1
            ≡ get_last_published_bundle_metadata u)
        × (get_last_message_timestamp (record_published_bundle now i j k u).1
            ≡ get_last_message_timestamp u)
  unfolding initialize_schema set_last_message_timestamp record_published_bundle
      get_last_message_timestamp get_last_published_bundle_metadata
  settings_roundtrip s t now i j k h =
      let e = written_created (decimal t) s.connection.settings in
      let row : BundleRow = record {
        pre_key_id = i;
        signed_pre_key_id = j;
        kyber_pre_key_id = k;
        published_at = now;
      } in
      let f = written_created row s.connection.bundle_metadata in
      (
        ap timestamp_of e ∙ parsed t h,
        ap metadata_of f,
        ap (λ o. timestamp_of (rows_or_created none o)) e ∙ parsed t h,
        ap (λ o. metadata_of (rows_or_created none o)) f,
        refl,
        refl,
      )
