-- ===== src/Ffi/Records.antt =====
-- The enums and records of the module `ffi` in rust/signal_bridge/src/lib.rs, and how those of the
-- other modules are converted to them.
use radix_relay.Prelude.{ℕ, ◌≡◌, refl, Bool, Option, none, some, List, String}
use radix_relay.Sql.{pos}
use radix_relay.History.Types as Types
use radix_relay.Contacts as Contacts

pub data MessageDirection : Type 0 where
  incoming outgoing : MessageDirection

pub data MessageType : Type 0 where
  text bundle_announcement system : MessageType

pub data DeliveryStatus : Type 0 where
  pending sent delivered failed : DeliveryStatus

pub record ContactInfo : Type 0 where
  pub rdx_fingerprint : String
  pub nostr_pubkey : String
  pub user_alias : String
  pub has_active_session : Bool

pub record PreKeyBundleWithMetadata : Type 0 where
  pub bundle_bytes : List ℕ
  pub pre_key_id : ℕ
  pub signed_pre_key_id : ℕ
  pub kyber_pre_key_id : ℕ

pub record StoredMessage : Type 0 where
  pub id : ℕ
  pub conversation_id : ℕ
  pub direction : MessageDirection
  pub timestamp : ℕ
  pub message_type : MessageType
  pub content : String
  pub delivery_status : DeliveryStatus
  pub was_prekey_message : Bool
  pub session_established : Bool

pub record Conversation : Type 0 where
  pub id : ℕ
  pub rdx_fingerprint : String
  pub last_message_timestamp : ℕ
  pub unread_count : ℕ
  pub archived : Bool

-- The numbers that C++ sees, of `#[repr(u8)]`.
abbrev pub direction_number : MessageDirection → ℕ
direction_number incoming = 0
direction_number outgoing = 1

abbrev pub type_number : MessageType → ℕ
type_number text = 0
type_number bundle_announcement = 1
type_number system = 2

abbrev pub status_number : DeliveryStatus → ℕ
status_number pending = 0
status_number sent = 1
status_number delivered = 2
status_number failed = 3

unfoldable pub direction_out : Types.MessageDirection → MessageDirection
direction_out Types.incoming = incoming
direction_out Types.outgoing = outgoing

unfoldable pub type_out : Types.MessageType → MessageType
type_out Types.text = text
type_out Types.bundle_announcement = bundle_announcement
type_out Types.system = system

unfoldable pub status_out : Types.DeliveryStatus → DeliveryStatus
status_out Types.pending = pending
status_out Types.sent = sent
status_out Types.delivered = delivered
status_out Types.failed = failed

-- Each enum reaches C++ under the number by which the tables store it.
pub numbers-agree :
    ((d : Types.MessageDirection)
      → pos (direction_number (direction_out d)) ≡ Types.direction_code d)
    × ((t : Types.MessageType) → pos (type_number (type_out t)) ≡ Types.type_code t)
    × ((s : Types.DeliveryStatus) → pos (status_number (status_out s)) ≡ Types.status_code s)
unfolding direction_out type_out status_out
numbers-agree = (
  elim [ Types.incoming ↦ refl | Types.outgoing ↦ refl ],
  elim [ Types.text ↦ refl | Types.bundle_announcement ↦ refl | Types.system ↦ refl ],
  elim [ Types.pending ↦ refl | Types.sent ↦ refl | Types.delivered ↦ refl | Types.failed ↦ refl ],
)

unfoldable pub message_out : Types.StoredMessage → StoredMessage
unfolding direction_out type_out status_out
message_out m = record {
  id = m.id;
  conversation_id = m.conversation_id;
  direction = direction_out m.direction;
  timestamp = m.timestamp;
  message_type = type_out m.message_type;
  content = m.content;
  delivery_status = status_out m.delivery_status;
  was_prekey_message = m.was_prekey_message;
  session_established = m.session_established;
}

unfoldable pub conversation_out : Types.Conversation → Conversation
conversation_out c = record {
  id = c.id;
  rdx_fingerprint = c.rdx_fingerprint;
  last_message_timestamp = c.last_message_timestamp;
  unread_count = c.unread_count;
  archived = c.archived;
}

-- `user_alias.unwrap_or_default()`
abbrev pub alias_or_empty : Option String → String
alias_or_empty none = ""
alias_or_empty (some a) = a

unfoldable pub contact_out : Contacts.ContactInfo → ContactInfo
contact_out c = record {
  rdx_fingerprint = c.rdx_fingerprint;
  nostr_pubkey = c.nostr_pubkey;
  user_alias = alias_or_empty c.user_alias;
  has_active_session = c.has_active_session;
}
