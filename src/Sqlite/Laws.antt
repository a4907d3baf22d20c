-- ===== src/Sqlite/Laws.antt =====
-- The key stores of sqlite_storage.rs as table stores, with the laws of StorageTrait.
use radix_relay.Prelude.{ℕ, ◌≡◌, refl, none, some, List, nat_eq}
use radix_relay.Prelude.Assoc.{lookup, insert}
use radix_relay.Exec.{ok, err, invalid_pre_key_id}
use radix_relay.StorageTrait.{KeyStoreLaws}
use radix_relay.StorageTrait.Tables.{TableStore, table_laws}
use radix_relay.Sqlite.{Codec, IsCodec}
use radix_relay.Sqlite.PreKeys
use radix_relay.Sqlite.PreKeys.{SqlitePreKeyStore, sqlite_pre_keys}

-- A record that can be serialized.
abbrev pub Serializes : {A : Type 0} → Codec A → A → Type 0
Serializes c a = (b : List ℕ) × (c.serialize a ≡ some b)

module _ {PreKeyRecord : Type 0} (codec : Codec PreKeyRecord) where
  pub get_pre_key-row :
      (s : SqlitePreKeyStore) (i : ℕ) {w : List ℕ} {r : PreKeyRecord}
      → lookup i s.pre_keys ≡ some w
      → codec.deserialize w ≡ some r
      → PreKeys.get_pre_key codec s i ≡ ok r
  unfolding PreKeys.get_pre_key
  get_pre_key-row s i e d = rw (e, PreKeys.get_pre_key) (rw d)

  pub get_pre_key-none :
      (s : SqlitePreKeyStore) (i : ℕ)
      → lookup i s.pre_keys ≡ none
      → PreKeys.get_pre_key codec s i ≡ err invalid_pre_key_id
  unfolding PreKeys.get_pre_key
  get_pre_key-none s i e = rw (e, PreKeys.get_pre_key)

  pub save_pre_key-eq :
      (i : ℕ) (r : PreKeyRecord) (s : SqlitePreKeyStore) (h : Serializes codec r)
      → PreKeys.save_pre_key codec i r s ≡ (ok tt, record { pre_keys = insert i h.0 s.pre_keys })
  unfolding PreKeys.save_pre_key
  save_pre_key-eq i r s (b, e) = rw e

unfoldable pub sqlite_pre_key_table :
    (PreKeyRecord : Type 0) (codec : Codec PreKeyRecord)
    → IsCodec codec
    → TableStore (sqlite_pre_keys PreKeyRecord codec)
unfolding PreKeys.pre_key_count PreKeys.clear_all_pre_keys PreKeys.get_max_pre_key_id
    PreKeys.delete_pre_key
sqlite_pre_key_table PreKeyRecord codec inverse = record {
  Row = List ℕ;
  rows = λ s. s.pre_keys;
  decode = codec.deserialize;
  IsGood = λ w. (r : PreKeyRecord) × (codec.deserialize w ≡ some r);
  Fits = λ i r. Serializes codec r;
  row = λ i r h. h.0;
  missing = invalid_pre_key_id;
  good_decodes = λ w g. g;
  row-IsGood = λ i r h. (r, inverse r h.0 h.1);
  decode-row = λ i r h. inverse r h.0 h.1;
  get_row = λ s i e d. get_pre_key-row codec s i e d;
  get_none = λ s i e. get_pre_key-none codec s i e;
  save_done = λ i r s h. rw (save_pre_key-eq codec i r s h);
  save_rows = λ i r s h. rw (save_pre_key-eq codec i r s h);
  delete_done = λ i s. refl;
  delete_rows = λ i s. refl;
  clear_done = λ s. refl;
  clear_rows = λ s. refl;
  count_rows = λ s. refl;
  max_rows = λ s. refl;
}

unfoldable pub sqlite_pre_key_laws :
    (PreKeyRecord : Type 0) (codec : Codec PreKeyRecord)
    → IsCodec codec
    → KeyStoreLaws (sqlite_pre_keys PreKeyRecord codec)
unfolding table_laws sqlite_pre_key_table
sqlite_pre_key_laws PreKeyRecord codec inverse =
    table_laws (sqlite_pre_key_table PreKeyRecord codec inverse)
