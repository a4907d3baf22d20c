-- ===== src/History/Types.antt =====
-- The enums and records of message_history.rs, and their encoding in integer columns.
use radix_relay.Prelude.{ℕ, ◌≡◌, refl, Bool, String, if◌then◌else◌, ◌==◌, nat_eq}
use radix_relay.Sql.{ℤ, pos, negsuc}

pub data MessageDirection : Type 0 where
  incoming outgoing : MessageDirection

pub data MessageType : Type 0 where
  text bundle_announcement system : MessageType

pub data DeliveryStatus : Type 0 where
  pending sent delivered failed : DeliveryStatus

-- `direction as i64`, and so on.
abbrev pub direction_code : MessageDirection → ℤ
direction_code incoming = pos 0
direction_code outgoing = pos 1

abbrev pub type_code : MessageType → ℤ
type_code text = pos 0
type_code bundle_announcement = pos 1
type_code system = pos 2

abbrev pub status_code : DeliveryStatus → ℤ
status_code pending = pos 0
status_code sent = pos 1
status_code delivered = pos 2
status_code failed = pos 3

-- `From<i64>`: any other value is the first one.
unfoldable pub direction_from : ℤ → MessageDirection
direction_from (pos n) = if n == 0 then incoming else if n == 1 then outgoing else incoming
direction_from (negsuc n) = incoming

unfoldable pub type_from : ℤ → MessageType
type_from (pos n) =
    if n == 0 then text else if n == 1 then bundle_announcement else if n == 2 then system else text
type_from (negsuc n) = text

unfoldable pub status_from : ℤ → DeliveryStatus
status_from (pos n) =
    if n == 0
    then pending
    else if n == 1
    then sent
    else if n == 2
    then delivered
    else if n == 3
    then failed
    else pending
status_from (negsuc n) = pending

-- Each enum read back from the column that it was written to is itself.
pub codes_roundtrip :
    ((d : MessageDirection) → direction_from (direction_code d) ≡ d)
    × ((t : MessageType) → type_from (type_code t) ≡ t)
    × ((s : DeliveryStatus) → status_from (status_code s) ≡ s)
unfolding direction_from type_from status_from
codes_roundtrip = (
  elim [ incoming ↦ refl | outgoing ↦ refl ],
  elim [ text ↦ refl | bundle_announcement ↦ refl | system ↦ refl ],
  elim [ pending ↦ refl | sent ↦ refl | delivered ↦ refl | failed ↦ refl ],
)

pub record StoredMessage : Type 0 where
  pub id : ℕ
  pub conversation_id : ℕ
  pub direction : MessageDirection
  pub timestamp : ℕ
  pub message_type : MessageType
  pub content : String
  pub delivery_status : DeliveryStatus
  pub was_prekey_message : Bool
  pub session_established : Bool

pub record Conversation : Type 0 where
  pub id : ℕ
  pub rdx_fingerprint : String
  pub last_message_timestamp : ℕ
  pub unread_count : ℕ
  pub archived : Bool
