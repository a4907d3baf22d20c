-- ===== src/Tests/Startup.antt =====
-- The first start on an empty storage in memory.
use radix_relay.Prelude.{◌≡◌, ◌≤◌, ◌<◌, refl, inr, true}
use radix_relay.Prelude.Assoc.{lookup}
use radix_relay.Exec.{ok}
use radix_relay.StorageTrait.{Storage}
use radix_relay.Memory.Identities.{
  get_identity_key_pair, set_local_identity_key_pair, set_local_registration_id,
}
use radix_relay.Memory.Container.{new}
use radix_relay.Memory.PreKeyLaws.{memory_pre_key_laws}
use radix_relay.Memory.TimedLaws.{memory_timed_laws, lookup-nil}
use radix_relay.Keys.{generate_identity_key_pair}
use radix_relay.Bridge.{IdentityStore, ensure_identity, ensure_keys_exist}
use radix_relay.Bridge.Startup.{ensure_keys_exist-ready}
use radix_relay.Tests.Keys.{container, container_laws, record_api, key_api, key_api_laws}

abbrev pub identity_store : IdentityStore container key_api
identity_store = record {
  get_identity_key_pair = get_identity_key_pair;
  set_local_identity_key_pair = set_local_identity_key_pair;
  set_local_registration_id = set_local_registration_id;
}

abbrev start : Storage container
start = new record_api

start-identity : (ensure_identity key_api identity_store (λ n. n) start.identity_store).0 ≡ ok 0
unfolding ensure_identity get_identity_key_pair set_local_identity_key_pair
    set_local_registration_id generate_identity_key_pair
start-identity = refl

ensure_keys_exist-ready_example :
    let (r, s') = ensure_keys_exist true key_api identity_store (λ n. n) 2000000000 start in
    (r ≡ ok 0)
    × container_laws.pre_key_laws.Valid s'.pre_key_store
    × container_laws.signed_pre_key_laws.laws.Valid s'.signed_pre_key_store
    × container_laws.kyber_pre_key_laws.laws.Valid s'.kyber_pre_key_store
    × (5 ≤ container.pre_keys.count s'.pre_key_store)
    × (0 < container.signed_pre_keys.count s'.signed_pre_key_store)
    × (0 < container.kyber_pre_keys.count s'.kyber_pre_key_store)
unfolding memory_pre_key_laws memory_timed_laws lookup
ensure_keys_exist-ready_example =
    ensure_keys_exist-ready true container_laws key_api key_api_laws identity_store (λ n. n)
      2000000000 start {pair = 0} {g = 3} {h = 4} start-identity tt
      (tt, λ i k e. absurd (lookup-nil i e)) (tt, λ i k e. absurd (lookup-nil i e))
      (inr (λ j. refl)) refl refl
