-- ===== src/Tests/Meeting.antt =====
-- The bundle of one node as another one, with its own key, reads it.
use radix_relay.Prelude.{ℕ, some, [], ◌∷◌, nat_eq}
use radix_relay.Exec.{Outcome, ok}
use radix_relay.NostrIdentity.{IdentityApi}
use radix_relay.Bridge.Bundles.{SerializablePreKeyBundle}
use radix_relay.Sqlite.Identities.{SqliteIdentityStore}
use radix_relay.Tests.Peers.{identity_api}
use radix_relay.Tests.Exchange.{number_of}

abbrev pub decoding_api : IdentityApi
decoding_api = record identity_api { decode = number_of }

abbrev pub own_key : SqliteIdentityStore → Outcome ℕ
own_key s = ok 6

abbrev pub received : SerializablePreKeyBundle
received = record {
  registration_id = 9;
  device_id = 1;
  pre_key_id = some 3;
  pre_key_public = some (7 ∷ []);
  signed_pre_key_id = 1;
  signed_pre_key_public = 50 ∷ [];
  signed_pre_key_signature = [];
  identity_key = 5 ∷ [];
  kyber_pre_key_id = 4;
  kyber_pre_key_public = 60 ∷ [];
  kyber_pre_key_signature = [];
}
