-- ===== src/Bridge/Events.antt =====
-- The Nostr events of the bridge: `sign_nostr_event`, `generate_prekey_bundle_announcement` and
-- `generate_empty_bundle_announcement` of rust/signal_bridge/src/lib.rs. The types of the nostr
-- crate are parameters; `now` is the clock in seconds.
use radix_relay.Prelude.{ℕ, ◌%◌, ◌^◌, Option, none, some, List, [], ◌∷◌, String}
use radix_relay.Prelude.Numerals.{to_text}
use radix_relay.Exec.{Exec, Outcome, ok, panic, pure, lift, ◌>>=◌}
use radix_relay.NostrIdentity.{IdentityApi, then_outcome}
use radix_relay.StorageTrait.{StorageContainer}
use radix_relay.Contacts.{add_contact_from_bundle}
use radix_relay.Bridge.Messages.{SignalBridge, on_storage, on_database}
use radix_relay.Bridge.Bundles.{BundleApi, or_protocol, or_serialization, generate_pre_key_bundle}
use radix_relay.Bridge.Peering.{identity_bytes, derive_nostr_keypair}
use radix_relay.Bridge.Json.{JsonApi, Base64}

-- `nostr::Tag`, and the event that `EventBuilder` makes of a kind of 16 bits, a content, tags and a
-- time, with the generator that the signature draws from.
pub record EventApi (I : IdentityApi) : Type 1 where
  pub Rng : Type 0
  pub Tag : Type 0
  pub Event : Type 0
  pub parse_tag : List String → Option Tag
  pub to_event : Rng → ℕ → String → List Tag → ℕ → I.Keys → Option Event
  pub event_id : Event → String
  pub signature : Event → String

pub record BundleInfo (Text : Type 0) : Type 0 where
  pub announcement_json : Text
  pub pre_key_id : ℕ
  pub signed_pre_key_id : ℕ
  pub kyber_pre_key_id : ℕ

module _ {I : IdentityApi} (N : EventApi I) where
  -- `.unwrap_or_else(|_| Tag::parse(&["unknown"]).unwrap())`
  abbrev pub tag_or_unknown : Option N.Tag → Outcome N.Tag
  tag_or_unknown (some tag) = ok tag
  tag_or_unknown none = elim (N.parse_tag ("unknown" ∷ [])) [ some tag ↦ ok tag | none ↦ panic ]

  unfoldable pub tag_of : List String → Outcome N.Tag
  tag_of [] = tag_or_unknown (N.parse_tag ("" ∷ []))
  tag_of (name ∷ values) = tag_or_unknown (N.parse_tag (name ∷ values))

  unfoldable pub tags_of : List (List String) → Outcome (List N.Tag)
  unfolding tag_of
  tags_of [] = ok []
  tags_of (tag ∷ tags) =
      then_outcome (tag_of tag) (λ t. then_outcome (tags_of tags) (λ ts. ok (t ∷ ts)))

module _ {C : StorageContainer} {I : IdentityApi} (N : EventApi I)
    (get_identity_key_pair : C.Identities → Outcome I.IdentityKeyPair) where
  -- The public key, the event's id and its signature.
  unfoldable pub sign_nostr_event :
      N.Rng → ℕ → ℕ → List (List String) → String → Exec (SignalBridge C) (String × String × String)
  unfolding derive_nostr_keypair
  sign_nostr_event rng created_at kind tags content = do
    keys ← derive_nostr_keypair I get_identity_key_pair
    nostr_tags ← lift (tags_of N tags)
    event ← lift (or_protocol (N.to_event rng (kind % 2 ^ 16) content nostr_tags created_at keys))
    pure (I.to_hex (I.public_key keys), N.event_id event, N.signature event)

-- The JSON of a signed event, whose tags are written once more.
module _ (J : JsonApi) where
  abbrev pub tag_value : String → String → J.Value
  tag_value name value = J.array (J.string name ∷ J.string value ∷ [])

  abbrev pub event_value : String × String × String → ℕ → ℕ → J.Value → String → J.Value
  event_value (pubkey, event_id, signature) created_at kind tags content = J.object (
      ("id", J.string event_id)
      ∷ ("pubkey", J.string pubkey)
      ∷ ("created_at", J.number created_at)
      ∷ ("kind", J.number kind)
      ∷ ("tags", tags)
      ∷ ("content", J.string content)
      ∷ ("sig", J.string signature)
      ∷ [])

  abbrev pub bundle_tag_values : String → String → ℕ → J.Value
  bundle_tag_values rdx_fingerprint project_version timestamp = J.array (
      tag_value "d" "radix_prekey_bundle_v1"
      ∷ tag_value "rdx" rdx_fingerprint
      ∷ tag_value "radix_version" project_version
      ∷ tag_value "bundle_timestamp" (to_text timestamp)
      ∷ [])

  abbrev pub empty_bundle_tag_values : String → J.Value
  empty_bundle_tag_values project_version =
      J.array
        (tag_value "d" "radix_prekey_bundle_v1" ∷ tag_value "radix_version" project_version ∷ [])

-- The tags that are signed.
abbrev pub bundle_tags : String → String → ℕ → List (List String)
bundle_tags rdx_fingerprint project_version timestamp =
    ("d" ∷ "radix_prekey_bundle_v1" ∷ [])
    ∷ ("rdx" ∷ rdx_fingerprint ∷ [])
    ∷ ("radix_version" ∷ project_version ∷ [])
    ∷ ("bundle_timestamp" ∷ to_text timestamp ∷ [])
    ∷ []

abbrev pub empty_bundle_tags : String → List (List String)
empty_bundle_tags project_version =
    ("d" ∷ "radix_prekey_bundle_v1" ∷ []) ∷ ("radix_version" ∷ project_version ∷ []) ∷ []

module _ {C : StorageContainer} {I : IdentityApi} (N : EventApi I) (J : JsonApi)
    (get_identity_key_pair : C.Identities → Outcome I.IdentityKeyPair) where
  unfoldable pub generate_empty_bundle_announcement :
      N.Rng → String → ℕ → Exec (SignalBridge C) J.Text
  unfolding sign_nostr_event
  generate_empty_bundle_announcement rng project_version now = do
    let tags = empty_bundle_tags project_version
    signed ← sign_nostr_event N get_identity_key_pair rng now 30078 tags ""
    lift (
        or_serialization (
          J.to_string
            (event_value J signed now 30078 (empty_bundle_tag_values J project_version) "")))

  module _ (P : BundleApi C) (B : Base64) where
    abbrev pub announce : N.Rng → String → ℕ → String → List ℕ → Exec (SignalBridge C) J.Text
    announce rng project_version timestamp rdx_fingerprint bundle_bytes = do
      let bundle_base64 = B.encode bundle_bytes
      let tags = bundle_tags rdx_fingerprint project_version timestamp
      signed ← sign_nostr_event N get_identity_key_pair rng timestamp 30078 tags bundle_base64
      lift (
          or_serialization (
            J.to_string (
              event_value J signed timestamp 30078
                (bundle_tag_values J rdx_fingerprint project_version timestamp) bundle_base64)))

    unfoldable pub generate_prekey_bundle_announcement :
        N.Rng → String → ℕ → Exec (SignalBridge C) (BundleInfo J.Text)
    unfolding sign_nostr_event
    generate_prekey_bundle_announcement rng project_version now = do
      (bundle_bytes, pre_key_id, signed_pre_key_id, kyber_pre_key_id) ←
          on_storage (generate_pre_key_bundle P)
      rdx_fingerprint ← on_database (
          add_contact_from_bundle I (λ b. identity_bytes (P.from_bytes b)) now bundle_bytes
            (some "self"))
      announcement_json ← announce rng project_version now rdx_fingerprint bundle_bytes
      pure (record {
        announcement_json = announcement_json;
        pre_key_id = pre_key_id;
        signed_pre_key_id = signed_pre_key_id;
        kyber_pre_key_id = kyber_pre_key_id;
      })
