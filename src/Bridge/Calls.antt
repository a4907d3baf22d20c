-- ===== src/Bridge/Calls.antt =====
-- Sequences of the calls of the bridge that change the tables of contacts and of the history.
use radix_relay.Prelude.{ℕ, ◌%◌, Option, some, List, [], ◌∷◌, String, Eq, arith}
use radix_relay.Exec.{Outcome, u64_mod, reads, lift}
use radix_relay.NostrIdentity.{IdentityApi}
use radix_relay.StorageTrait.{StorageContainer}
use radix_relay.StorageTrait.Peers.{SessionOps}
use radix_relay.History.Keeping.{Call, after_call}
use radix_relay.Contacts as Contacts
use radix_relay.Contacts.Soundness.{IsSound, assign_contact_alias-IsSound, after_call-IsSound}
use radix_relay.Bridge.Bundles.{BundleApi, or_protocol, generate_pre_key_bundle}
use radix_relay.Bridge.Peering.{
  identity_bytes, derive_nostr_keypair, add_contact_and_establish_session,
}
use radix_relay.Bridge.Messages.{
  SignalBridge, CipherApi, on_storage, on_database, encrypt_message, decrypt_message,
}
use radix_relay.Bridge.Contacting.{add_contact_from_bundle, assign_contact_alias}
use radix_relay.Bridge.Json.{JsonApi, Base64}
use radix_relay.Bridge.Events.{
  EventApi, tags_of, sign_nostr_event, announce, generate_prekey_bundle_announcement,
}
use radix_relay.Bridge.Soundness.{
  Keeps, bind-Keeps, encrypt_message-Keeps, decrypt_message-Keeps, add_bundle-Keeps,
  add_contact_and_establish_session-Keeps,
}

module _ {C : StorageContainer} {I : IdentityApi} (N : EventApi I) (J : JsonApi)
    (get_identity_key_pair : C.Identities → Outcome I.IdentityKeyPair) where
  sign_nostr_event-Keeps :
      (rng : N.Rng) (created_at kind : ℕ) (tags : List (List String)) (content : String)
      → Keeps {C = C} (sign_nostr_event N get_identity_key_pair rng created_at kind tags content)
  unfolding sign_nostr_event derive_nostr_keypair
  sign_nostr_event-Keeps rng created_at kind tags content =
      bind-Keeps (derive_nostr_keypair I get_identity_key_pair) _
        (bind-Keeps (reads (λ s. get_identity_key_pair s.storage.identity_store)) _ (λ s v. v)
          (λ pair s v. v))
        (λ keys.
          bind-Keeps (lift (tags_of N tags)) _ (λ s v. v)
            (λ nostr_tags. bind-Keeps (lift (or_protocol _)) _ (λ s v. v) (λ event s v. v)))

  module _ (P : BundleApi C) (B : Base64) where
    generate_prekey_bundle_announcement-Keeps :
        (rng : N.Rng) (project_version : String) (now : ℕ)
        → Keeps {C = C} (
            generate_prekey_bundle_announcement N J get_identity_key_pair P B rng project_version
              now)
    unfolding generate_prekey_bundle_announcement
    generate_prekey_bundle_announcement-Keeps rng version now =
        bind-Keeps (on_storage (generate_pre_key_bundle P)) _ (λ s v. v)
          (λ (bytes, i, j, k).
            bind-Keeps
              (on_database (
                Contacts.add_contact_from_bundle I (λ b. identity_bytes (P.from_bytes b)) now bytes
                  (some "self")))
              _ (add_bundle-Keeps I P bytes (some "self") now)
              (λ fp.
                bind-Keeps (announce N J get_identity_key_pair P B rng version now fp bytes) _
                  (bind-Keeps {C = C}
                    (sign_nostr_event N get_identity_key_pair rng now 30078 _ (B.encode bytes)) _
                    (sign_nostr_event-Keeps rng now 30078 _ (B.encode bytes)) (λ signed s v. v))
                  (λ text s v. v)))

-- The calls, with their arguments: the times are the readings of the clock, of 64 bits.
pub data BridgeCall (Rng : Type 0) : Type 0 where
  encrypt : String → List ℕ → ℕ → BridgeCall Rng
  decrypt : String → List ℕ → ℕ → ℕ → BridgeCall Rng
  add_contact : ℕ → List ℕ → Option String → BridgeCall Rng
  meet : List ℕ → Option String → ℕ → BridgeCall Rng
  assign_alias : ℕ → String → String → BridgeCall Rng
  announce_bundle : Rng → String → ℕ → BridgeCall Rng
  on_history : Call → BridgeCall Rng

module _ {C : StorageContainer} {I : IdentityApi} (N : EventApi I) (J : JsonApi)
    (get_identity_key_pair : C.Identities → Outcome I.IdentityKeyPair)
    (get_own_key : C.Identities → Outcome I.IdentityKey) ⦃e : Eq I.IdentityKey⦄
    (S : SessionOps C.Sessions) (E : CipherApi C I) (P : BundleApi C) (B : Base64) where
  -- The bridge after a call, whatever it returns.
  unfoldable pub after_bridge_call : BridgeCall N.Rng → SignalBridge C → SignalBridge C
  after_bridge_call (encrypt peer plaintext timestamp) s =
      (encrypt_message I S E peer plaintext (timestamp % u64_mod) s).1
  after_bridge_call (decrypt peer_hint bytes timestamp now) s =
      (decrypt_message I S E peer_hint bytes (timestamp % u64_mod) now s).1
  after_bridge_call (add_contact now bytes user_alias) s =
      (add_contact_from_bundle I P now bytes user_alias s).1
  after_bridge_call (meet bytes user_alias now) s =
      (add_contact_and_establish_session I P get_own_key bytes user_alias now s).1
  after_bridge_call (assign_alias now identifier new_alias) s =
      (assign_contact_alias S now identifier new_alias s).1
  after_bridge_call (announce_bundle rng project_version now) s =
      (generate_prekey_bundle_announcement N J get_identity_key_pair P B rng project_version now
        s).1
  after_bridge_call (on_history call) s = record s { database = after_call call s.database }

  unfoldable pub after_bridge_calls : List (BridgeCall N.Rng) → SignalBridge C → SignalBridge C
  after_bridge_calls [] s = s
  after_bridge_calls (call ∷ calls) s = after_bridge_calls calls (after_bridge_call call s)

  after_bridge_call-IsSound :
      (call : BridgeCall N.Rng) (s : SignalBridge C)
      → IsSound s.database
      → IsSound (after_bridge_call call s).database
  unfolding after_bridge_call add_contact_from_bundle assign_contact_alias
  after_bridge_call-IsSound (encrypt peer plaintext ts) s v =
      encrypt_message-Keeps I S E peer plaintext (ts % u64_mod) (omega arith) s v
  after_bridge_call-IsSound (decrypt hint bytes ts now) s v =
      decrypt_message-Keeps I S E hint bytes (ts % u64_mod) now (omega arith) s v
  after_bridge_call-IsSound (add_contact now bytes user_alias) s v =
      add_bundle-Keeps I P bytes user_alias now s v
  after_bridge_call-IsSound (meet bytes user_alias now) s v =
      add_contact_and_establish_session-Keeps I P get_own_key bytes user_alias now s v
  after_bridge_call-IsSound (assign_alias now i a) s v =
      assign_contact_alias-IsSound (S.load_session s.storage.session_store) now i a s.database v
  after_bridge_call-IsSound (announce_bundle rng version now) s v =
      generate_prekey_bundle_announcement-Keeps N J get_identity_key_pair P B rng version now s v
  after_bridge_call-IsSound (on_history call) s v = after_call-IsSound call s.database v

  -- Whatever calls that change the contacts or the history are made on a bridge, in whatever order
  -- and with whatever arguments, and whether they succeed, fail or panic: if no two contacts share a
  -- fingerprint or a Nostr key and the history is valid before, both hold after.
  pub after_bridge_calls-IsSound :
      (calls : List (BridgeCall N.Rng)) (s : SignalBridge C)
      → IsSound s.database
      → IsSound (after_bridge_calls calls s).database
  unfolding after_bridge_calls
  after_bridge_calls-IsSound [] s v = v
  after_bridge_calls-IsSound (call ∷ calls) s v =
      after_bridge_calls-IsSound calls (after_bridge_call call s)
        (after_bridge_call-IsSound call s v)
