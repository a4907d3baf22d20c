-- ===== src/Sqlite/Lifecycle.antt =====
-- The life of an `SqliteStorage`: what a closed one still does, until a start and after it.
use radix_relay.Prelude.{
  ℕ, ◌≡◌, refl, ap, ◌∙◌, inl, inr, Bool, true, false, Option, none, List, [], ◌∷◌,
}
use radix_relay.Exec.{Exec, Outcome, ok, panic}
use radix_relay.Memory.Address.{ProtocolAddress}
use radix_relay.StorageTrait.Ops as Ops
use radix_relay.StorageTrait.Ops.{RatchetApi}
use radix_relay.Sqlite.Ops.{
  with_handles, establish_session_from_bundle, encrypt_message, decrypt_message,
}
use radix_relay.StorageTrait.{Storage}
use radix_relay.Sqlite.Sessions.{SqliteSessionStore}
use radix_relay.Sqlite.Identities.{SqliteIdentityStore}
use radix_relay.Sqlite.Storage.{
  SqliteApi, SqliteContainer, SqliteStorage, Handle, initialize_schema, set_last_message_timestamp,
  record_published_bundle, close, close_unless, through, on_session_store, on_identity_store,
  on_pre_key_store, on_signed_pre_key_store, on_kyber_pre_key_store, on_message_history,
}
use radix_relay.Sqlite.Steps.{
  Step, Reach, closed, timestamp_set, bundle_recorded, sessions_used, identities_used,
  pre_keys_used, signed_pre_keys_used, kyber_pre_keys_used, history_used, session_established,
  encrypted, decrypted, here, there, started_then, through-closed, history-stores, Step-status,
}

module _ {A : SqliteApi} where
  close-closed : (s : SqliteStorage A) → s.is_closed ≡ true → close s ≡ (ok tt, s)
  unfolding close
  close-closed s e = ap (λ b. close_unless b s) e

  Step-closed : {s u : SqliteStorage A} → Step s u → s.is_closed ≡ true → u.is_closed ≡ true
  Step-closed {s} c h = elim (Step-status c) [
    | inl same ↦ ap (λ x. x.0) same ∙ h
    | inr closing ↦ ap (λ x. x.is_closed) closing ∙ ap (λ r. r.1.is_closed) (close-closed s h) ∙ h
  ]

  steps-closed :
      {b : Bool} {s u : SqliteStorage A} → Reach b s u → s.is_closed ≡ true → u.is_closed ≡ true
  unfolding initialize_schema
  steps-closed (here s) h = h
  steps-closed (there c r) h = steps-closed r (Step-closed c h)
  steps-closed (started_then s r) h = steps-closed r h

  -- The storage is closed and has dropped the handle of the sessions, which every operation of
  -- libsignal borrows first; the stores hold `t`.
  abbrev pub IsClosedWith : Storage (SqliteContainer A) → SqliteStorage A → Type 0
  IsClosedWith t s = (s.is_closed ≡ true) × (s.session_store ≡ none) × (s.connection.stores ≡ t)

  unchanged-IsClosedWith :
      {B : Type 0} (t : Storage (SqliteContainer A)) (s : SqliteStorage A)
      (m : Exec (SqliteStorage A) B) {r : Outcome B}
      → m s ≡ (r, s)
      → IsClosedWith t s
      → IsClosedWith t (m s).1
  unchanged-IsClosedWith t s m e h = (
    ap (λ x. x.1.is_closed) e ∙ h.0,
    ap (λ x. x.1.session_store) e ∙ h.1,
    ap (λ x. x.1.connection.stores) e ∙ h.2,
  )

  -- Without the first handle nothing is run.
  no_handle :
      {B : Type 0} (h : Option Handle) (hs : List (Option Handle))
      (m : Exec (Storage (SqliteContainer A)) B) (s : SqliteStorage A)
      → h ≡ none
      → with_handles (h ∷ hs) m s ≡ (panic, s)
  no_handle h hs m s e = rw e

  Step-IsClosedWith :
      {s u : SqliteStorage A} (t : Storage (SqliteContainer A))
      → Step s u
      → IsClosedWith t s
      → IsClosedWith t u
  unfolding set_last_message_timestamp record_published_bundle on_session_store on_identity_store
      on_pre_key_store on_signed_pre_key_store on_kyber_pre_key_store on_message_history
      establish_session_from_bundle encrypt_message decrypt_message
  Step-IsClosedWith t (closed s) h = unchanged-IsClosedWith t s close (close-closed s h.0) h
  Step-IsClosedWith t (timestamp_set n s) h = h
  Step-IsClosedWith t (bundle_recorded now i j k s) h = h
  Step-IsClosedWith t (sessions_used m s) h =
      unchanged-IsClosedWith t s (on_session_store m)
        (through-closed s.is_closed s.session_store _ s h.0) h
  Step-IsClosedWith t (identities_used m s) h =
      unchanged-IsClosedWith t s (on_identity_store m)
        (through-closed s.is_closed s.identity_store _ s h.0) h
  Step-IsClosedWith t (pre_keys_used m s) h =
      unchanged-IsClosedWith t s (on_pre_key_store m)
        (through-closed s.is_closed s.pre_key_store _ s h.0) h
  Step-IsClosedWith t (signed_pre_keys_used m s) h =
      unchanged-IsClosedWith t s (on_signed_pre_key_store m)
        (through-closed s.is_closed s.signed_pre_key_store _ s h.0) h
  Step-IsClosedWith t (kyber_pre_keys_used m s) h =
      unchanged-IsClosedWith t s (on_kyber_pre_key_store m)
        (through-closed s.is_closed s.kyber_pre_key_store _ s h.0) h
  Step-IsClosedWith t (history_used m s) h =
      let (e, f) = history-stores s.message_history m s in
      (ap (λ r. r.0) f ∙ h.0, ap (λ r. r.1) f ∙ h.1, e ∙ h.2)
  Step-IsClosedWith t (session_established R a b now rng s) h =
      unchanged-IsClosedWith t s (establish_session_from_bundle R a b now rng)
        (no_handle s.session_store (s.identity_store ∷ [])
          (Ops.establish_session_from_bundle R a b now rng) s h.1)
        h
  Step-IsClosedWith t (encrypted R a p now rng s) h =
      unchanged-IsClosedWith t s (encrypt_message R a p now rng)
        (no_handle s.session_store (s.identity_store ∷ []) (Ops.encrypt_message R a p now rng) s
          h.1)
        h
  Step-IsClosedWith t (decrypted R a c rng s) h =
      unchanged-IsClosedWith t s (decrypt_message R a c rng)
        (no_handle s.session_store
          (s.identity_store ∷ s.pre_key_store ∷ s.signed_pre_key_store ∷ s.kyber_pre_key_store ∷ [])
          (Ops.decrypt_message R a c rng) s h.1)
        h

  use_panics :
      {B : Type 0} (h : Option Handle) (m : Exec (Storage (SqliteContainer A)) B)
      (s : SqliteStorage A)
      → s.is_closed ≡ true
      → (through s.is_closed h m s).0 ≡ panic
  use_panics h m s e = ap (λ r. r.0) (through-closed s.is_closed h m s e)

  steps-IsClosedWith :
      {s u : SqliteStorage A} (t : Storage (SqliteContainer A))
      → Reach false s u
      → IsClosedWith t s
      → IsClosedWith t u
  steps-IsClosedWith t (here s) h = h
  steps-IsClosedWith t (there c r) h = steps-IsClosedWith t r (Step-IsClosedWith t c h)

  close-IsClosedWith :
      (s : SqliteStorage A) → s.is_closed ≡ false → IsClosedWith s.connection.stores (close s).1
  unfolding close
  close-IsClosedWith s e =
      let f = ap (λ b. close_unless b s) e in
      (ap (λ x. x.1.is_closed) f, ap (λ x. x.1.session_store) f, ap (λ x. x.1.connection.stores) f)

  -- Once an open storage is closed it stays closed, whatever is called, starts among them, and every
  -- use of one of the five accessors panics. Until a start, no call reaches the stores of keys,
  -- sessions and identities, whose contents stay what they were, and the three operations that run
  -- libsignal panic. A start on the closed storage lets those three reach the stores again, as
  -- encrypting shows, which runs on them and keeps what it wrote.
  pub Reach-IsClosedWith :
      (s u v : SqliteStorage A) (R : RatchetApi (SqliteContainer A)) (address : ProtocolAddress)
      (bundle : R.PreKeyBundle) (plaintext : List ℕ) (ciphertext : R.CiphertextMessage) (now : ℕ)
      (rng : R.Rng)
      → s.is_closed ≡ false
      → Reach true (close s).1 u
      → Reach false (close s).1 v
      → let w = (initialize_schema u).1 in
        (u.is_closed ≡ true)
        × ((B : Type 0) (m : Exec SqliteSessionStore B) → (on_session_store m u).0 ≡ panic)
        × ((B : Type 0) (m : Exec SqliteIdentityStore B) → (on_identity_store m u).0 ≡ panic)
        × ((B : Type 0) (m : Exec (SqliteContainer A).pre_keys.Store B)
            → (on_pre_key_store m u).0 ≡ panic)
        × ((B : Type 0) (m : Exec (SqliteContainer A).signed_pre_keys.Store B)
            → (on_signed_pre_key_store m u).0 ≡ panic)
        × ((B : Type 0) (m : Exec (SqliteContainer A).kyber_pre_keys.Store B)
            → (on_kyber_pre_key_store m u).0 ≡ panic)
        × (v.connection.stores ≡ s.connection.stores)
        × (establish_session_from_bundle R address bundle now rng v ≡ (panic, v))
        × (encrypt_message R address plaintext now rng v ≡ (panic, v))
        × (decrypt_message R address ciphertext rng v ≡ (panic, v))
        × (w.is_closed ≡ true)
        × ((encrypt_message R address plaintext now rng w).0
            ≡ (Ops.encrypt_message R address plaintext now rng u.connection.stores).0)
        × ((encrypt_message R address plaintext now rng w).1.connection.stores
            ≡ (Ops.encrypt_message R address plaintext now rng u.connection.stores).1)
  unfolding on_session_store on_identity_store on_pre_key_store on_signed_pre_key_store
      on_kyber_pre_key_store initialize_schema establish_session_from_bundle encrypt_message
      decrypt_message
  Reach-IsClosedWith s u v R address bundle plaintext ciphertext now rng opened r q =
      let start = close-IsClosedWith s opened in
      let d = steps-closed r start.0 in
      let (shut, dropped, kept) = steps-IsClosedWith s.connection.stores q start in
      (
        d,
        λ B m. use_panics u.session_store _ u d,
        λ B m. use_panics u.identity_store _ u d,
        λ B m. use_panics u.pre_key_store _ u d,
        λ B m. use_panics u.signed_pre_key_store _ u d,
        λ B m. use_panics u.kyber_pre_key_store _ u d,
        kept,
        no_handle v.session_store (v.identity_store ∷ [])
            (Ops.establish_session_from_bundle R address bundle now rng) v dropped,
        no_handle v.session_store (v.identity_store ∷ [])
            (Ops.encrypt_message R address plaintext now rng) v dropped,
        no_handle v.session_store
            (v.identity_store ∷ v.pre_key_store ∷ v.signed_pre_key_store ∷ v.kyber_pre_key_store
              ∷ [])
            (Ops.decrypt_message R address ciphertext rng) v dropped,
        d,
        refl,
        refl,
      )
