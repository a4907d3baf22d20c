-- ===== src/Tests/Upkeep.antt =====
-- Key maintenance when both newest keys are due.
use radix_relay.Prelude.{◌≡◌, ◌≤◌, refl, inr, true, false, some, [], arith}
use radix_relay.Prelude.Assoc.{lookup}
use radix_relay.Exec.{ok}
use radix_relay.StorageTrait.{Storage}
use radix_relay.KeyRotation.{needs_rotation, min_pre_key_count}
use radix_relay.Memory.Identities.{get_identity_key_pair}
use radix_relay.Memory.TimedLaws.{memory_timed_laws}
use radix_relay.Bridge.{KeyMaintenanceResult, perform_key_maintenance}
use radix_relay.Bridge.Upkeep.{HasNewest, perform_key_maintenance-upkeep}
use radix_relay.Tests.Keys.{
  container, container_laws, key_api, key_api_laws, two_keys, two_keys-Valid, two_keys-Valid_kyber,
  two_keys-max, two_keys-max_kyber, two_keys-found, two_keys-HasRoom, two_keys-HasRoom_kyber,
  two_pre_keys, two_pre_keys-Valid, two_pre_keys-max,
}
use radix_relay.Tests.Startup.{identity_store}

abbrev running : Storage container
running = record {
  session_store = record { sessions = [] };
  identity_store = record {
    identity_keys = [];
    local_identity_key_pair = some 7;
    local_registration_id = some 1;
  };
  pre_key_store = two_pre_keys;
  signed_pre_key_store = two_keys;
  kyber_pre_key_store = two_keys;
}

running-identity : identity_store.get_identity_key_pair running.identity_store ≡ ok 7
unfolding get_identity_key_pair
running-identity = refl

two_keys-HasNewest :
    HasNewest container.signed_pre_keys container_laws.signed_pre_key_laws 2600000000 1900000000
      two_keys
two_keys-HasNewest = record {
  valid = two_keys-Valid;
  newest = 2;
  k = (2, 1900000000);
  highest = two_keys-max;
  found = two_keys-found;
  time = refl;
  past = omega arith;
}

two_keys-found_kyber : container_laws.kyber_pre_key_laws.find two_keys 2 ≡ some (2, 1900000000)
unfolding memory_timed_laws lookup
two_keys-found_kyber = refl

two_keys-HasNewest_kyber :
    HasNewest container.kyber_pre_keys container_laws.kyber_pre_key_laws 2600000000 1900000000
      two_keys
two_keys-HasNewest_kyber = record {
  valid = two_keys-Valid_kyber;
  newest = 2;
  k = (2, 1900000000);
  highest = two_keys-max_kyber;
  found = two_keys-found_kyber;
  time = refl;
  past = omega arith;
}

perform_key_maintenance-upkeep_example :
    let (r, s') = perform_key_maintenance true key_api identity_store (λ n. n) 2600000000 running in
    (result : KeyMaintenanceResult) × (r ≡ ok result)
    × ((needs_rotation true container.signed_pre_keys 2600000000 s'.signed_pre_key_store).0
        ≡ ok false)
    × ((needs_rotation true container.kyber_pre_keys 2600000000 s'.kyber_pre_key_store).0
        ≡ ok false)
    × (min_pre_key_count ≤ container.pre_keys.count s'.pre_key_store)
perform_key_maintenance-upkeep_example =
    perform_key_maintenance-upkeep true container_laws key_api key_api_laws identity_store (λ n. n)
      2600000000 1900000000 1900000000 running (some 2) {pair = 7} {g = 0} {h = 1} running-identity
      two_keys-HasNewest two_keys-HasRoom (inr (omega arith)) two_keys-HasNewest_kyber
      two_keys-HasRoom_kyber (inr (omega arith)) two_pre_keys-Valid two_pre_keys-max (omega arith)
      refl refl (omega arith)
