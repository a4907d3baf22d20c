-- ===== src/Bridge/Subscribing.antt =====
-- `create_subscription_for_self` and `update_last_message_timestamp` of
-- rust/signal_bridge/src/lib.rs.
use radix_relay.Prelude.{ℕ, Option, none, some, [], ◌∷◌, String, ltb, if◌then◌else◌}
use radix_relay.Exec.{Exec, Outcome, ok, err, panic, protocol, lift, reads, ◌>>=◌}
use radix_relay.NostrIdentity.{IdentityApi}
use radix_relay.Sqlite.Identities.{SqliteIdentityStore}
use radix_relay.Sqlite.Storage.{
  SqliteApi, SqliteStorage, get_last_message_timestamp, set_last_message_timestamp,
}
use radix_relay.Bridge.Peering.{derive_nostr_keypair}
use radix_relay.Bridge.Json.{JsonApi}
use radix_relay.Bridge.Opening.{on_bridge}

-- `.map_err(|e| SignalBridgeError::Protocol(..))` of any error.
abbrev pub as_protocol {ℓ} : {B : Type ℓ} → Outcome B → Outcome B
as_protocol (ok b) = ok b
as_protocol (err _) = err protocol
as_protocol panic = panic

module _ (J : JsonApi) where
  -- `as_object_mut().unwrap().insert(..)`
  abbrev pub with_since : ℕ → J.Value → Outcome J.Value
  with_since since filter = if ltb 0 since then J.put filter "since" (J.number since) else ok filter

  abbrev pub text_or_panic : Option J.Text → Outcome J.Text
  text_or_panic none = panic
  text_or_panic (some t) = ok t

module _ {A : SqliteApi} where
  unfoldable pub update_last_message_timestamp : ℕ → Exec (SqliteStorage A) Unit
  unfolding set_last_message_timestamp
  update_last_message_timestamp timestamp s =
      let (r, s') = set_last_message_timestamp timestamp s in (as_protocol r, s')

  -- The time that is asked for, or else the last one that was stored.
  unfoldable pub since_of : ℕ → SqliteStorage A → Outcome ℕ
  unfolding get_last_message_timestamp
  since_of since_timestamp s =
      if ltb 0 since_timestamp
      then ok since_timestamp
      else as_protocol (get_last_message_timestamp s)

  module _ (I : IdentityApi) (J : JsonApi)
      (get_identity_key_pair : SqliteIdentityStore → Outcome I.IdentityKeyPair) where
    unfoldable pub create_subscription_for_self : String → ℕ → Exec (SqliteStorage A) J.Text
    unfolding derive_nostr_keypair on_bridge since_of
    create_subscription_for_self subscription_id since_timestamp = do
      keys ← on_bridge (derive_nostr_keypair I get_identity_key_pair)
      let our_pubkey = I.to_hex (I.public_key keys)
      since ← reads (since_of since_timestamp)
      filter ← lift (
          with_since J since (
            J.object (
              ("kinds", J.array (J.number 40001 ∷ []))
              ∷ ("#p", J.array (J.string our_pubkey ∷ []))
              ∷ [])))
      lift (
          text_or_panic J
            (J.to_string (J.array (J.string "REQ" ∷ J.string subscription_id ∷ filter ∷ []))))
