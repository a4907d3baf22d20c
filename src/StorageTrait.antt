-- ===== src/StorageTrait.antt =====
-- rust/signal_bridge/src/storage_trait.rs: the traits that a storage backend implements, as
-- records of operations, and what a client of a backend relies on, as records of laws.
pub mod Tables
pub mod Runs
pub mod Peers
pub mod Ops
use radix_relay.Prelude.{
  ℕ, ◌+◌, ◌≤◌, ◌<◌, ◌≡◌, ◌⊎◌, Bool, true, false, Option, none, some, List, [], ◌∷◌, ◌||◌, ◌==◌,
  nat_eq, if◌then◌else◌, is_some,
}
use radix_relay.Exec.{Exec, Outcome, Error, ok, err}

-- `PreKeyStore` with `ExtendedPreKeyStore`; the traits for signed and Kyber pre-keys have the same
-- operations. A key is saved under the number of its id type.
pub record KeyStore : Type 1 where
  pub Store : Type 0
  pub KeyRecord : Type 0
  pub get : Store → ℕ → Outcome KeyRecord
  pub save : ℕ → KeyRecord → Exec Store Unit
  pub delete : ℕ → Exec Store Unit
  pub clear_all : Exec Store Unit
  pub count : Store → ℕ
  pub max_id : Store → Outcome (Option ℕ)

-- `ExtendedSignedPreKeyStore` and `ExtendedKyberPreKeyStore` also list keys by age; `timestamp` is
-- the record's own accessor, in milliseconds since the epoch.
pub record TimedKeyStore : Type 1 where
  pub keys : KeyStore
  pub open keys use *
  pub timestamp : KeyRecord → Outcome ℕ
  pub older_than : Store → ℕ → Outcome (List ℕ)

pub record KeyStoreLaws (T : KeyStore) : Type 1 where
  -- what a well-formed store is, and which record may be saved under which id
  pub Valid : T.Store → Type 0
  pub Fits : ℕ → T.KeyRecord → Type 0
  -- the abstract view: the record under an id
  pub find : T.Store → ℕ → Option T.KeyRecord
  pub missing : Error
  pub get-found :
      (s : T.Store) (i : ℕ) {r : T.KeyRecord} → Valid s → find s i ≡ some r → T.get s i ≡ ok r
  pub get-missing : (s : T.Store) (i : ℕ) → Valid s → find s i ≡ none → T.get s i ≡ err missing
  pub save-ok :
      (i : ℕ) (r : T.KeyRecord) (s : T.Store) → Valid s → Fits i r → (T.save i r s).0 ≡ ok tt
  pub save-Valid :
      (i : ℕ) (r : T.KeyRecord) (s : T.Store) → Valid s → Fits i r → Valid (T.save i r s).1
  pub find-save :
      (i : ℕ) (r : T.KeyRecord) (s : T.Store) (j : ℕ)
      → Valid s
      → Fits i r
      → find (T.save i r s).1 j ≡ (if i == j then some r else find s j)
  pub count-save :
      (i : ℕ) (r : T.KeyRecord) (s : T.Store)
      → Valid s
      → Fits i r
      → T.count (T.save i r s).1 ≡ (if is_some (find s i) then T.count s else T.count s + 1)
  pub delete-ok : (i : ℕ) (s : T.Store) → Valid s → (T.delete i s).0 ≡ ok tt
  pub delete-Valid : (i : ℕ) (s : T.Store) → Valid s → Valid (T.delete i s).1
  pub find-delete :
      (i : ℕ) (s : T.Store) (j : ℕ)
      → Valid s
      → find (T.delete i s).1 j ≡ (if i == j then none else find s j)
  pub count-delete :
      (i : ℕ) (s : T.Store)
      → Valid s
      → T.count (T.delete i s).1 + (if is_some (find s i) then 1 else 0) ≡ T.count s
  pub clear-ok : (s : T.Store) → Valid s → (T.clear_all s).0 ≡ ok tt
  pub clear-Valid : (s : T.Store) → Valid s → Valid (T.clear_all s).1
  pub count-clear : (s : T.Store) → Valid s → T.count (T.clear_all s).1 ≡ 0
  pub max-ok :
      (s : T.Store) → Valid s → (T.max_id s ≡ ok none) ⊎ ((m : ℕ) × (T.max_id s ≡ ok (some m)))
  pub max-none : (s : T.Store) (i : ℕ) → Valid s → T.max_id s ≡ ok none → find s i ≡ none
  pub max-found :
      (s : T.Store) (m : ℕ)
      → Valid s
      → T.max_id s ≡ ok (some m)
      → (r : T.KeyRecord) × (find s m ≡ some r)
  pub max-above :
      (s : T.Store) (m i : ℕ) → Valid s → T.max_id s ≡ ok (some m) → m < i → find s i ≡ none
  pub count-found :
      (s : T.Store) (i : ℕ) {r : T.KeyRecord} → Valid s → find s i ≡ some r → 0 < T.count s
  pub count-one :
      (s : T.Store) (i j : ℕ) {r q : T.KeyRecord}
      → Valid s
      → T.count s ≤ 1
      → find s i ≡ some r
      → find s j ≡ some q
      → i ≡ j

abbrev pub contains : ℕ → List ℕ → Bool
contains i [] = false
contains i (j ∷ js) = j == i || contains i js

abbrev pub holds {ℓ} : {A : Type ℓ} → (A → Bool) → Option A → Bool
holds p none = false
holds p (some a) = p a

-- A backend may compare ages in coarser units than milliseconds: `expired` is its own test, which
-- `expired-lt` and `lt-expired` hold to the timestamps up to a second.
pub record TimedKeyStoreLaws (T : TimedKeyStore) : Type 1 where
  pub laws : KeyStoreLaws T.keys
  pub open laws use *
  pub expired : ℕ → T.KeyRecord → Bool
  pub old_ids : T.Store → ℕ → List ℕ
  pub older_than-ok : (s : T.Store) (t : ℕ) → Valid s → T.older_than s t ≡ ok (old_ids s t)
  pub contains-old_ids :
      (s : T.Store) (t i : ℕ) → Valid s → contains i (old_ids s t) ≡ holds (expired t) (find s i)
  pub timed :
      (s : T.Store) (i : ℕ) {r : T.KeyRecord}
      → Valid s
      → find s i ≡ some r
      → (ts : ℕ) × (T.timestamp r ≡ ok ts)
  pub expired-lt :
      (t : ℕ) (r : T.KeyRecord) {ts : ℕ} → T.timestamp r ≡ ok ts → expired t r ≡ true → ts < t
  pub lt-expired :
      (t : ℕ) (r : T.KeyRecord) {ts : ℕ}
      → T.timestamp r ≡ ok ts
      → ts + 1000 ≤ t
      → expired t r ≡ true

-- `SignalStorageContainer`, by the types of its five stores.
pub record StorageContainer : Type 1 where
  pub Sessions : Type 0
  pub Identities : Type 0
  pub pre_keys : KeyStore
  pub signed_pre_keys : TimedKeyStore
  pub kyber_pre_keys : TimedKeyStore

pub record StorageContainerLaws (C : StorageContainer) : Type 1 where
  pub pre_key_laws : KeyStoreLaws C.pre_keys
  pub signed_pre_key_laws : TimedKeyStoreLaws C.signed_pre_keys
  pub kyber_pre_key_laws : TimedKeyStoreLaws C.kyber_pre_keys

-- A value of a container; its accessors (`session_store()` and so on) are the fields.
pub record Storage (C : StorageContainer) : Type 0 where
  pub session_store : C.Sessions
  pub identity_store : C.Identities
  pub pre_key_store : C.pre_keys.Store
  pub signed_pre_key_store : C.signed_pre_keys.Store
  pub kyber_pre_key_store : C.kyber_pre_keys.Store

-- A method call on one of the stores.
module _ {C : StorageContainer} {A : Type 0} where
  abbrev pub on_pre_keys : Exec C.pre_keys.Store A → Exec (Storage C) A
  on_pre_keys m s = let (r, t) = m s.pre_key_store in (r, record s { pre_key_store = t })

  abbrev pub on_signed_pre_keys : Exec C.signed_pre_keys.Store A → Exec (Storage C) A
  on_signed_pre_keys m s =
      let (r, t) = m s.signed_pre_key_store in (r, record s { signed_pre_key_store = t })

  abbrev pub on_kyber_pre_keys : Exec C.kyber_pre_keys.Store A → Exec (Storage C) A
  on_kyber_pre_keys m s =
      let (r, t) = m s.kyber_pre_key_store in (r, record s { kyber_pre_key_store = t })
