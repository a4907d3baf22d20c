-- ===== src/Bridge/Reopening.antt =====
-- What a start of the bridge finds and leaves: the schema that it checks, and the node that a later
-- run of the program opens again.
use radix_relay.Prelude.{
  ℕ, ◌≤◌, ◌≡◌, refl, ap, ◌∙◌, ◌⊎◌, inl, inr, Bool, true, false, Option, none, some, List, [], ◌∷◌,
  length, ltb, ◌==◌, nat_eq, Bool-cases, arith,
}
use radix_relay.Prelude.Decimal.{codes_eq}
use radix_relay.Exec.{Outcome, ok, err, panic, continue, pure}
use radix_relay.DbEncryption.{
  Files, System, db_key_length, memory_path, get_key_file_path, get_or_create_db_key,
}
use radix_relay.DbEncryption.Kept.{get_or_create_db_key-kept}
use radix_relay.StorageTrait.{Storage, StorageContainerLaws}
use radix_relay.StorageTrait.Peers.{PeerOps}
use radix_relay.Keys.{KeyApi, KeyApiLaws}
use radix_relay.Sqlite.Identities.{SqliteIdentityStore}
use radix_relay.Sqlite.Storage.{
  SqliteApi, SqliteContainer, Tables, SqliteStorage, initialize_schema, get_schema_version,
  first_version, migrated, migrate_to_v2, with_version_row, close,
}
use radix_relay.Sqlite.Storage as Sqlite
use radix_relay.Sqlite.Steps.{Ready}
use radix_relay.Bridge.{IdentityStore, ensure_identity, ensure_keys_exist}
use radix_relay.Bridge.Reset.{LocalLaws}
use radix_relay.Bridge.Restart.{ensure_identity-kept, ensure_keys_exist-again}
use radix_relay.Bridge.Untouched.{ensure_keys_exist-peers}
use radix_relay.Bridge.Opening.{FileCipher, Disk, start_storage, new, drop}

-- Once the schema is there, its version is 2 at least.
migrated-version :
    (o : Option (List ℕ))
    → (v : ℕ) × (first_version (some (migrated (with_version_row o))) ≡ ok v) × (2 ≤ v)
unfolding migrate_to_v2
migrated-version none = (2, refl, omega arith)
migrated-version (some []) = (2, refl, omega arith)
migrated-version (some (v ∷ vs)) = elim (Bool-cases (ltb v 2)) [
  | inl old ↦ (2, rw old, omega arith)
  | inr recent ↦ (v, rw recent, ground arith)
]

-- The result of a start: the keys are not given out.
abbrev pub done : {B : Type 0} → Outcome B → Outcome (Unit {0})
done (ok _) = ok tt
done (err e) = err e
done panic = panic

finished :
    {T B : Type 0} (r : Outcome B) (s : T) → continue r (λ (b : B). pure {S = T} tt) s ≡ (done r, s)
finished (ok b) s = refl
finished (err e) s = refl
finished panic s = refl

module _ (checks : Bool) {A : SqliteApi} (K : KeyApi (SqliteContainer A))
    (I : IdentityStore (SqliteContainer A) K) where
  -- A start is the schema, and then the keys of the stores.
  start_storage-eq :
      (rng : ℕ → K.Rng) (now : ℕ) (t : Tables A)
      → let u = (initialize_schema (Sqlite.new t)).1 in
        let (r, stores) = ensure_keys_exist checks K I rng now t.stores in
        start_storage checks K I rng now (Sqlite.new t)
        ≡ (done r, record u { connection = record u.connection { stores = stores } })
  unfolding start_storage initialize_schema get_schema_version
  start_storage-eq rng now t =
      let (v, found, recent) = migrated-version t.schema_info in
      let passes : ltb v 1 ≡ false = ground arith in rw (found, passes) (finished _ _)

  module _ (system : System) {Rng : Type 0} (fill_bytes : Rng → ℕ → List ℕ) (F : FileCipher A) where
    new-eq :
        (key_rng : Rng) (rng : ℕ → K.Rng) (now : ℕ) (path : List ℕ) (d : Disk F.DbFile)
        (files : Files) (key : List ℕ) (t : Tables A) (pair : K.IdentityKeyPair)
        (stores : Storage (SqliteContainer A))
        → system.may_create_dir path ≡ true
        → get_or_create_db_key system fill_bytes key_rng path d.key_files ≡ (ok key, files)
        → F.read d.database key ≡ some t
        → ensure_keys_exist checks K I rng now t.stores ≡ (ok pair, stores)
        → let u = (initialize_schema (Sqlite.new t)).1 in
          let s = record u { connection = record u.connection { stores = stores } } in
          new checks K I system fill_bytes F key_rng rng now path d
          ≡ (ok s, record { key_files = files; database = F.write key s.connection })
    unfolding new
    new-eq key_rng rng now path d files key t pair stores may got read ensured =
        rw (may, got, read, start_storage-eq rng now t, ensured)

module _ (checks : Bool) {A : SqliteApi} (L : StorageContainerLaws (SqliteContainer A))
    (K : KeyApi (SqliteContainer A)) (KL : KeyApiLaws (SqliteContainer A) L K)
    (I : IdentityStore (SqliteContainer A) K) (P : PeerOps SqliteIdentityStore) (LL : LocalLaws I P)
    (system : System) {Rng : Type 0} (fill_bytes : Rng → ℕ → List ℕ) (F : FileCipher A) where
  -- Take a system that lets the directory be made and the key file be opened, a generator that fills
  -- the bytes asked for, a cipher that reads with a key what was written with it, and a database file
  -- that is read with its key, in which the identity key is there or is made, and signs, and the
  -- stores are well-formed, with no pre-key or five at least. Then the bridge starts, with its
  -- storage open and with that identity key. If what happens before it is dropped changes only the
  -- history and the settings, the next run, at whatever time and with whatever random numbers, starts
  -- with the same keys, sessions and identities, and with the history as it was left.
  pub new-again :
      (key_rng later_key_rng : Rng) (rng later : ℕ → K.Rng) (now later_now : ℕ) (path : List ℕ)
      (d : Disk F.DbFile) (key : List ℕ) (t : Tables A) (pair : K.IdentityKeyPair)
      (change : Tables A → Tables A) {g h : K.Signature}
      → ((k : List ℕ) (x : Tables A) → F.read (F.write k x) k ≡ some x)
      → ((r : Rng) → length (fill_bytes r db_key_length) ≡ db_key_length)
      → ((x : Tables A) → (change x).stores ≡ x.stores)
      → (path == memory_path) ≡ false
      → system.may_create_dir path ≡ true
      → system.may_open (get_key_file_path path) ≡ true
      → (get_or_create_db_key system fill_bytes key_rng path d.key_files).0 ≡ ok key
      → F.read d.database key ≡ some t
      → (ensure_identity K I rng t.stores.identity_store).0 ≡ ok pair
      → L.pre_key_laws.Valid t.stores.pre_key_store
      → L.signed_pre_key_laws.laws.Valid t.stores.signed_pre_key_store
      → L.kyber_pre_key_laws.laws.Valid t.stores.kyber_pre_key_store
      → (5 ≤ (SqliteContainer A).pre_keys.count t.stores.pre_key_store)
        ⊎ ((j : ℕ) → L.pre_key_laws.find t.stores.pre_key_store j ≡ none)
      → (K.calculate_signature pair (K.generate (rng 3)).0 (K.generate (rng 3)).1).0 ≡ ok g
      → (K.calculate_kem_signature pair (K.generate_kem (rng 4)).0 (K.generate_kem (rng 4)).1).0
        ≡ ok h
      → let (r, first) = new checks K I system fill_bytes F key_rng rng now path d in
        (s : SqliteStorage A) × (s' : SqliteStorage A) × (r ≡ ok s)
        × Ready s
        × (I.get_identity_key_pair s.connection.stores.identity_store ≡ ok pair)
        × let left = change (drop s).1.connection in
          let d' = record first { database = F.write key left } in
          ((new checks K I system fill_bytes F later_key_rng later later_now path d').0 ≡ ok s')
          × Ready s'
          × (s'.connection.stores ≡ s.connection.stores)
          × (s'.connection.history ≡ left.history)
  unfolding drop initialize_schema close
  new-again key_rng later_key_rng rng later now later_now path d key t pair change {g} {h} read_back
        fills kept file may opens got read identity v w x start signed kem_signed =
      let files = (get_or_create_db_key system fill_bytes key_rng path d.key_files).1 in
      let got_all = ap (λ r. (r, files)) got in
      let (got_again, long, others) =
        get_or_create_db_key-kept system fill_bytes key_rng later_key_rng path d.key_files key fills
          file opens got in
      let (made, again) =
        ensure_keys_exist-again checks L K KL I P LL rng later now later_now t.stores {pair = pair}
          {g = g} {h = h} identity v w x start signed kem_signed in
      let stores = (ensure_keys_exist checks K I rng now t.stores).1 in
      let u = (initialize_schema (Sqlite.new t)).1 in
      let s = record u { connection = record u.connection { stores = stores } } in
      let left = change (drop s).1.connection in
      let first =
        new-eq checks K I system fill_bytes F key_rng rng now path d files key t pair stores may
          got_all read (ap (λ r. (r, stores)) made) in
      let same = kept (drop s).1.connection in
      let second =
        new-eq checks K I system fill_bytes F later_key_rng later later_now path
          (record { key_files = files; database = F.write key left }) files key left pair stores may
          got_again (read_back key left)
          (ap (λ y. ensure_keys_exist checks K I later later_now y) same ∙ again) in
      let u' = (initialize_schema (Sqlite.new left)).1 in
      let (sessions, identities) = ensure_keys_exist-peers checks K I rng now t.stores in
      (
        s,
        record u' { connection = record u'.connection { stores = stores } },
        ap (λ y. y.0) first,
        refl,
        ap I.get_identity_key_pair identities
            ∙ ensure_identity-kept LL rng t.stores.identity_store identity,
        (
          ap
                (λ y.
                  (new checks K I system fill_bytes F later_key_rng later later_now path
                    (record y.1 { database = F.write key left })).0)
                first
              ∙ ap (λ y. y.0) second,
          refl,
          refl,
          refl,
        ),
      )
