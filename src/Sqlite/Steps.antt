-- ===== src/Sqlite/Steps.antt =====
-- The calls on an `SqliteStorage` as steps, and what each leaves of its handles.
use radix_relay.Prelude.{
  ℕ, ◌≡◌, refl, ◌⊎◌, inl, inr, Bool, true, false, Option, none, some, List, [], ◌∷◌,
}
use radix_relay.Exec.{Exec, panic}
use radix_relay.Memory.Address.{ProtocolAddress}
use radix_relay.StorageTrait.Ops as Ops
use radix_relay.StorageTrait.Ops.{RatchetApi}
use radix_relay.Sqlite.Ops.{
  with_handles, establish_session_from_bundle, encrypt_message, decrypt_message,
}
use radix_relay.Database.{Database}
use radix_relay.StorageTrait.{Storage}
use radix_relay.Sqlite.Sessions.{SqliteSessionStore}
use radix_relay.Sqlite.Identities.{SqliteIdentityStore}
use radix_relay.Sqlite.Storage.{
  SqliteApi, SqliteContainer, SqliteStorage, Handle, shared_connection, initialize_schema,
  set_last_message_timestamp, record_published_bundle, close, through, through_history,
  on_session_store, on_identity_store, on_pre_key_store, on_signed_pre_key_store,
  on_kyber_pre_key_store, on_message_history,
}

module _ {A : SqliteApi} where
  -- A call on a storage that may change it, other than a start.
  pub data Step : SqliteStorage A → SqliteStorage A → Type 1 where
    closed : (s : SqliteStorage A) → Step s (close s).1
    timestamp_set : (t : ℕ) (s : SqliteStorage A) → Step s (set_last_message_timestamp t s).1
    bundle_recorded :
        (now i j k : ℕ) (s : SqliteStorage A) → Step s (record_published_bundle now i j k s).1
    sessions_used :
        {B : Type 0} (m : Exec SqliteSessionStore B) (s : SqliteStorage A)
        → Step s (on_session_store m s).1
    identities_used :
        {B : Type 0} (m : Exec SqliteIdentityStore B) (s : SqliteStorage A)
        → Step s (on_identity_store m s).1
    pre_keys_used :
        {B : Type 0} (m : Exec (SqliteContainer A).pre_keys.Store B) (s : SqliteStorage A)
        → Step s (on_pre_key_store m s).1
    signed_pre_keys_used :
        {B : Type 0} (m : Exec (SqliteContainer A).signed_pre_keys.Store B) (s : SqliteStorage A)
        → Step s (on_signed_pre_key_store m s).1
    kyber_pre_keys_used :
        {B : Type 0} (m : Exec (SqliteContainer A).kyber_pre_keys.Store B) (s : SqliteStorage A)
        → Step s (on_kyber_pre_key_store m s).1
    history_used :
        {B : Type 0} (m : Exec Database B) (s : SqliteStorage A) → Step s (on_message_history m s).1
    session_established :
        (R : RatchetApi (SqliteContainer A)) (address : ProtocolAddress) (bundle : R.PreKeyBundle)
        (now : ℕ) (rng : R.Rng) (s : SqliteStorage A)
        → Step s (establish_session_from_bundle R address bundle now rng s).1
    encrypted :
        (R : RatchetApi (SqliteContainer A)) (address : ProtocolAddress) (plaintext : List ℕ)
        (now : ℕ) (rng : R.Rng) (s : SqliteStorage A)
        → Step s (encrypt_message R address plaintext now rng s).1
    decrypted :
        (R : RatchetApi (SqliteContainer A)) (address : ProtocolAddress)
        (ciphertext : R.CiphertextMessage) (rng : R.Rng) (s : SqliteStorage A)
        → Step s (decrypt_message R address ciphertext rng s).1

  -- A sequence of calls, and whether starts may be among them.
  pub data Reach : Bool → SqliteStorage A → SqliteStorage A → Type 1 where
    here : {b : Bool} (s : SqliteStorage A) → Reach b s s
    there : {b : Bool} {s t u : SqliteStorage A} → Step s t → Reach b t u → Reach b s u
    started_then :
        (s : SqliteStorage A) {u : SqliteStorage A}
        → Reach true (initialize_schema s).1 u
        → Reach true s u

  -- Whether the storage is closed, and its handles.
  abbrev pub status :
      SqliteStorage A
      → Bool
        × Option Handle
        × Option Handle
        × Option Handle
        × Option Handle
        × Option Handle
        × Option Handle
  status s = (
    s.is_closed, s.session_store, s.identity_store, s.pre_key_store, s.signed_pre_key_store,
    s.kyber_pre_key_store, s.message_history,
  )

  -- The storage is open and every store has its handle.
  abbrev pub Ready : SqliteStorage A → Type 0
  Ready s = let h = some shared_connection in status s ≡ (false, h, h, h, h, h, h)

  pub through-closed :
      {B : Type 0} (b : Bool) (h : Option Handle) (m : Exec (Storage (SqliteContainer A)) B)
      (s : SqliteStorage A)
      → b ≡ true
      → through b h m s ≡ (panic, s)
  through-closed b h m s e = rw e

  through-status :
      {B : Type 0} (b : Bool) (h : Option Handle) (m : Exec (Storage (SqliteContainer A)) B)
      (s : SqliteStorage A)
      → status (through b h m s).1 ≡ status s
  through-status true h m s = refl
  through-status false none m s = refl
  through-status false (some w) m s = refl

  pub history-stores :
      {B : Type 0} (h : Option Handle) (m : Exec Database B) (s : SqliteStorage A)
      → ((through_history h m s).1.connection.stores ≡ s.connection.stores)
        × (status (through_history h m s).1 ≡ status s)
  history-stores none m s = (refl, refl)
  history-stores (some w) m s = (refl, refl)

  with_handles-status :
      {B : Type 0} (hs : List (Option Handle)) (m : Exec (Storage (SqliteContainer A)) B)
      (s : SqliteStorage A)
      → status (with_handles hs m s).1 ≡ status s
  with_handles-status [] m s = refl
  with_handles-status (none ∷ hs) m s = refl
  with_handles-status (some h ∷ hs) m s = with_handles-status hs m s

  -- No call other than a start changes whether the storage is open, and which handles it has, but
  -- `close`.
  pub Step-status : {s u : SqliteStorage A} → Step s u → (status u ≡ status s) ⊎ (u ≡ (close s).1)
  unfolding set_last_message_timestamp record_published_bundle on_session_store on_identity_store
      on_pre_key_store on_signed_pre_key_store on_kyber_pre_key_store on_message_history
      establish_session_from_bundle encrypt_message decrypt_message
  Step-status (closed s) = inr refl
  Step-status (timestamp_set n s) = inl refl
  Step-status (bundle_recorded now i j k s) = inl refl
  Step-status (sessions_used m s) = inl (through-status s.is_closed s.session_store _ s)
  Step-status (identities_used m s) = inl (through-status s.is_closed s.identity_store _ s)
  Step-status (pre_keys_used m s) = inl (through-status s.is_closed s.pre_key_store _ s)
  Step-status (signed_pre_keys_used m s) =
      inl (through-status s.is_closed s.signed_pre_key_store _ s)
  Step-status (kyber_pre_keys_used m s) = inl (through-status s.is_closed s.kyber_pre_key_store _ s)
  Step-status (history_used m s) = inl (history-stores s.message_history m s).1
  Step-status (session_established R a b now rng s) = inl (
      with_handles-status (s.session_store ∷ s.identity_store ∷ [])
        (Ops.establish_session_from_bundle R a b now rng) s)
  Step-status (encrypted R a p now rng s) = inl (
      with_handles-status (s.session_store ∷ s.identity_store ∷ [])
        (Ops.encrypt_message R a p now rng) s)
  Step-status (decrypted R a c rng s) = inl (
      with_handles-status
        (s.session_store ∷ s.identity_store ∷ s.pre_key_store ∷ s.signed_pre_key_store
          ∷ s.kyber_pre_key_store ∷ [])
        (Ops.decrypt_message R a c rng) s)
