-- ===== src/Bridge/Ratchet.antt =====
-- The messages of the bridge over `ExtendedStorageOps`: how `encrypt_message` and `decrypt_message` of
-- rust/signal_bridge/src/lib.rs use those operations.
use radix_relay.Prelude.{ℕ, Option, List}
use radix_relay.Exec.{Exec, pure, ◌>>=◌}
use radix_relay.Memory.Address.{ProtocolAddress}
use radix_relay.NostrIdentity.{IdentityApi}
use radix_relay.StorageTrait.{StorageContainer, Storage}
use radix_relay.StorageTrait.Ops.{RatchetApi}
use radix_relay.StorageTrait.Ops as Ops
use radix_relay.Bridge.Messages.{CipherApi}

-- libsignal's messages: the two kinds that are received, as constructors of `CiphertextMessage`, and
-- its `serialize`.
pub record WireApi {C : StorageContainer} (R : RatchetApi C) (I : IdentityApi) : Type 1 where
  pub PreKeySignalMessage : Type 0
  pub SignalMessage : Type 0
  pub parse_pre_key : List ℕ → Option PreKeySignalMessage
  pub parse_signal : List ℕ → Option SignalMessage
  pub identity_key : PreKeySignalMessage → I.IdentityKey
  pub pre_key_id : PreKeySignalMessage → Option ℕ
  pub pre_key_message : PreKeySignalMessage → R.CiphertextMessage
  pub signal_message : SignalMessage → R.CiphertextMessage
  pub serialize : R.CiphertextMessage → List ℕ

module _ {C : StorageContainer} (R : RatchetApi C) {I : IdentityApi} (W : WireApi R I) (now : ℕ)
    (rng : R.Rng) where
  -- `self.storage.encrypt_message(..)`, of which the serialized message is returned.
  unfoldable pub encrypt_serialized : ProtocolAddress → List ℕ → Exec (Storage C) (List ℕ)
  unfolding Ops.encrypt_message
  encrypt_serialized address plaintext = do
    ciphertext ← Ops.encrypt_message R address plaintext now rng
    pure (W.serialize ciphertext)

  unfoldable pub ratchet_cipher : CipherApi C I
  unfolding encrypt_serialized Ops.decrypt_message
  ratchet_cipher = record {
    PreKeySignalMessage = W.PreKeySignalMessage;
    SignalMessage = W.SignalMessage;
    parse_pre_key = W.parse_pre_key;
    parse_signal = W.parse_signal;
    identity_key = W.identity_key;
    pre_key_id = W.pre_key_id;
    encrypt = encrypt_serialized;
    decrypt_pre_key =
        λ address message. Ops.decrypt_message R address (W.pre_key_message message) rng;
    decrypt_signal =
        λ address message. Ops.decrypt_message R address (W.signal_message message) rng;
  }
