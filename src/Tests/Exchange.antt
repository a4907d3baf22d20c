-- ===== src/Tests/Exchange.antt =====
-- A bundle from one SQLite storage to another, with a small encoding in the place of bincode.
use radix_relay.Prelude.{
  ℕ, ◌<◌, ◌≡◌, refl, ◌∙◌, sym, Bool, true, false, Option, none, some, List, [], ◌∷◌, ◌==◌,
  if◌then◌else◌, nat_eq, string_eq, arith,
}
use radix_relay.Prelude.Assoc.{lookup}
use radix_relay.Prelude.MaxKey.{max_key}
use radix_relay.Exec.{ok}
use radix_relay.StorageTrait.{Storage}
use radix_relay.Bridge.Bundles.{
  SerializablePreKeyBundle, BundleParts, BundleApi, current_bundle, generate_pre_key_bundle,
}
use radix_relay.Bridge.Exchange.{BundleLaws}
use radix_relay.Sqlite.PreKeys.{get_pre_key, get_max_pre_key_id}
use radix_relay.Sqlite.TimedKeys.{get_key, get_max_key_id}
use radix_relay.Sqlite.Storage.{SqliteContainer}
use radix_relay.Tests.Files.{sqlite_api, no_stores}

-- A list, ended by 0, with a 1 before each element.
abbrev enc : List ℕ → List ℕ → List ℕ
enc [] rest = 0 ∷ rest
enc (x ∷ xs) rest = 1 ∷ x ∷ enc xs rest

abbrev with_list : {R : Type 0} → List ℕ → (List ℕ → List ℕ → Option R) → Option R
with_list [] k = none
with_list (m ∷ []) k = if m == 0 then k [] [] else none
with_list (m ∷ x ∷ rest) k =
    let more = with_list rest (λ xs left. k (x ∷ xs) left) in
    if m == 0 then k [] (x ∷ rest) else more

with_list-enc :
    {R : Type 0} (xs rest : List ℕ) (k : List ℕ → List ℕ → Option R)
    → with_list (enc xs rest) k ≡ k xs rest
with_list-enc [] [] k = refl
with_list-enc [] (x ∷ rest) k = refl
with_list-enc (x ∷ xs) rest k = with_list-enc xs rest (λ ys left. k (x ∷ ys) left)

abbrev from_id : Option ℕ → List ℕ
from_id none = []
from_id (some i) = i ∷ []

abbrev to_id : List ℕ → Option ℕ
to_id [] = none
to_id (i ∷ is) = some i

to_id-from_id : (o : Option ℕ) → to_id (from_id o) ≡ o
to_id-from_id none = refl
to_id-from_id (some i) = refl

abbrev from_public : Option (List ℕ) → List ℕ
from_public none = []
from_public (some b) = 1 ∷ b

abbrev to_public : List ℕ → Option (List ℕ)
to_public [] = none
to_public (m ∷ b) = some b

to_public-from_public : (o : Option (List ℕ)) → to_public (from_public o) ≡ o
to_public-from_public none = refl
to_public-from_public (some b) = refl

abbrev pub written : SerializablePreKeyBundle → List ℕ
written b =
    b.registration_id
    ∷ b.device_id
    ∷ b.signed_pre_key_id
    ∷ b.kyber_pre_key_id
    ∷ enc (from_id b.pre_key_id) (
        enc (from_public b.pre_key_public) (
          enc b.signed_pre_key_public (
            enc b.signed_pre_key_signature (
              enc b.identity_key (enc b.kyber_pre_key_public (enc b.kyber_pre_key_signature []))))))

abbrev read_rest : ℕ → ℕ → ℕ → ℕ → List ℕ → Option SerializablePreKeyBundle
read_rest r d s k bytes = with_list bytes (λ id l. with_list l (λ pk m. with_list m (λ sp n.
    with_list n (λ sg o. with_list o (λ ik p. with_list p (λ kp q. with_list q (λ kg t.
      some (record {
        registration_id = r;
        device_id = d;
        pre_key_id = to_id id;
        pre_key_public = to_public pk;
        signed_pre_key_id = s;
        signed_pre_key_public = sp;
        signed_pre_key_signature = sg;
        identity_key = ik;
        kyber_pre_key_id = k;
        kyber_pre_key_public = kp;
        kyber_pre_key_signature = kg;
      }))))))))

abbrev pub read : List ℕ → Option SerializablePreKeyBundle
read [] = none
read (r ∷ []) = none
read (r ∷ d ∷ []) = none
read (r ∷ d ∷ s ∷ []) = none
read (r ∷ d ∷ s ∷ k ∷ bytes) = read_rest r d s k bytes

pub read-written : (b : SerializablePreKeyBundle) → read (written b) ≡ some b
read-written b =
    with_list-enc (from_id b.pre_key_id) _ _
    ∙ with_list-enc (from_public b.pre_key_public) _ _
    ∙ with_list-enc b.signed_pre_key_public _ _
    ∙ with_list-enc b.signed_pre_key_signature _ _
    ∙ with_list-enc b.identity_key _ _
    ∙ with_list-enc b.kyber_pre_key_public _ _
    ∙ with_list-enc b.kyber_pre_key_signature _ _
    ∙ rw (to_id-from_id b.pre_key_id, to_public-from_public b.pre_key_public)

abbrev device_from : ℕ → Option Bool
device_from n = if n == 1 then some true else if n == 2 then some false else none

abbrev device_number : Bool → ℕ
device_number true = 1
device_number false = 2

device-back : (d : Bool) → device_from (device_number d) ≡ some d
device-back true = refl
device-back false = refl

device-small : (d : Bool) → device_number d < 256
device-small true = omega arith
device-small false = omega arith

abbrev pub number_of : List ℕ → Option ℕ
number_of [] = none
number_of (n ∷ ns) = some n

abbrev pub bundle_api : BundleApi (SqliteContainer sqlite_api)
bundle_api = record {
  DeviceId = Bool;
  PublicKey = ℕ;
  KemPublicKey = ℕ;
  IdentityKey = ℕ;
  PreKeyBundle = BundleParts Bool ℕ ℕ ℕ;
  new_device = device_from;
  device_number = device_number;
  serialize_public = λ k. k ∷ [];
  deserialize_public = number_of;
  serialize_kem = λ k. k ∷ [];
  deserialize_kem = number_of;
  serialize_identity = λ k. k ∷ [];
  decode_identity = number_of;
  new_bundle = λ p. ok p;
  parts = λ p. ok p;
  get_identity_key = λ s. ok 5;
  get_local_registration_id = λ s. ok 9;
  pre_key_public = λ r. ok r.1;
  signed_id = λ r. ok r.0;
  signed_public = λ r. ok r.1;
  signed_signature = λ r. ok [];
  kyber_public = λ r. ok r.1;
  kyber_signature = λ r. ok [];
  to_bytes = λ b. some (written b);
  from_bytes = read;
  establish_session_from_bundle = λ a b s. (ok tt, s);
}

pub bundle_laws : BundleLaws bundle_api
bundle_laws = record {
  new_device-number = device-back;
  number_small = device-small;
  public_back = λ k. refl;
  kem_back = λ k. refl;
  identity_back = λ k. refl;
  new-parts = λ b p e. sym e;
  bytes_back = λ b bytes e. let f : written b ≡ bytes = cc in rw (← f) (read-written b);
  bytes_not_empty = λ b e. cc;
}

abbrev pub stocked : Storage (SqliteContainer sqlite_api)
stocked = record no_stores {
  pre_key_store = record { pre_keys = (2, 2 ∷ 6 ∷ []) ∷ (3, 3 ∷ 7 ∷ []) ∷ [] };
  signed_pre_key_store = record {
    keys =
        (
          1,
          record {
            key_data = 1 ∷ 50 ∷ [];
            signature = [];
            created_at = 0;
            expires_at = 0;
            is_current = false;
          },
        )
        ∷ [];
  };
  kyber_pre_key_store = record {
    keys =
        (
          4,
          record {
            key_data = 4 ∷ 60 ∷ [];
            signature = [];
            created_at = 0;
            expires_at = 0;
            is_current = false;
          },
        )
        ∷ [];
  };
}

abbrev pub sent : List ℕ
sent =
    9
    ∷ 1
    ∷ 1
    ∷ 4
    ∷ enc (3 ∷ [])
        (enc (1 ∷ 7 ∷ []) (enc (50 ∷ []) (enc [] (enc (5 ∷ []) (enc (60 ∷ []) (enc [] []))))))

pub generated : (generate_pre_key_bundle bundle_api stocked).0 ≡ ok (sent, 3, 1, 4)
unfolding generate_pre_key_bundle current_bundle get_pre_key get_max_pre_key_id get_key
    get_max_key_id max_key lookup
generated = refl
