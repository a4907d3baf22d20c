-- ===== src/Ffi/Delivery.antt =====
-- A message that a peer addresses to this node, beside the subscription that this node makes.
use radix_relay.Prelude.{
  ℕ, ◌<◌, ◌≤◌, ◌^◌, ◌≡◌, ap, Option, some, List, [], ◌∷◌, String, string_eq, ◌⊎◌,
}
use radix_relay.Exec.{ok}
use radix_relay.Sqlite.Storage.{
  SqliteApi, SqliteStorage, get_last_message_timestamp, set_last_message_timestamp,
}
use radix_relay.Sqlite.Starts.{parsed}
use radix_relay.Bridge.Json.{JsonApi, JsonLaws}
use radix_relay.Bridge.Events.{tags_of}
use radix_relay.Bridge.Subscribing.{as_protocol, since_of, update_last_message_timestamp}
use radix_relay.Bridge.Subscribing as Subscribing
use radix_relay.Ffi.Nostr as Nostr

-- A value is listed, as `read` reads it.
abbrev Listed : {V B : Type 0} → (V → Option B) → B → List V → Type 0
Listed read b [] = ⊥
Listed read b (v ∷ vs) = (read v ≡ some b) ⊎ Listed read b vs

abbrev TagListed : String → String → List (List String) → Type 0
TagListed name value [] = ⊥
TagListed name value (tag ∷ tags) = (tag ≡ name ∷ value ∷ []) ⊎ TagListed name value tags

-- A filter of NIP-01 accepts an event: its kind is listed under `kinds`, one of its `p` tags under
-- `#p`, and it is not older than `since`, if there is one.
pub record Accepts (J : JsonApi) (filter event : J.Value) : Type 0 where
  pub kind : ℕ
  pub kinds : List J.Value
  pub has_kind : J.as_u64 (J.get event "kind") ≡ some kind
  pub has_kinds : J.as_array (J.get filter "kinds") ≡ some kinds
  pub kind_listed : Listed J.as_u64 kind kinds
  pub key : String
  pub keys : List J.Value
  pub tags : List J.Value
  pub has_tags : J.as_array (J.get event "tags") ≡ some tags
  pub has_keys : J.as_array (J.get filter "#p") ≡ some keys
  pub tagged : TagListed "p" key (Nostr.tags_of J tags)
  pub key_listed : Listed J.as_str key keys
  pub at : ℕ
  pub created : J.as_u64 (J.get event "created_at") ≡ some at
  pub recent :
      (J.get filter "since" ≡ J.null)
      ⊎ ((since : ℕ) × (J.as_u64 (J.get filter "since") ≡ some since) × (since ≤ at))

module _ {J : JsonApi} (L : JsonLaws J) where
  abbrev filter_fields : String → List (String × J.Value)
  filter_fields key =
      ("kinds", J.array (J.number 40001 ∷ [])) ∷ ("#p", J.array (J.string key ∷ [])) ∷ []

-- The last time that was stored is the one that is asked for, if no other is.
pub since_of-updated :
    {A : SqliteApi} (t : ℕ) (u : SqliteStorage A) {o : Option (List ℕ)}
    → t < 2 ^ 64
    → u.connection.settings ≡ some o
    → since_of 0 (update_last_message_timestamp t u).1 ≡ ok t
unfolding since_of update_last_message_timestamp set_last_message_timestamp
    get_last_message_timestamp
since_of-updated t u small there = rw there (ap as_protocol (parsed t small))
