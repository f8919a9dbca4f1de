-- ===== src/Delivery.antt =====
-- Delivery statuses: deliveryStatusRank, shouldUpdateDeliveryStatus and UpdateDeliveryStatus of
-- internal/service/message_service.go, with the statements of internal/database/database.go that
-- they run on the table message_mappings. The lookup hashes of the IDs stand for the IDs.
pub mod Order
mod Tests
use whatsignal.Base.{
  ℕ, Bool, true, false, ◌&&◌, ◌||◌, List, [], ◌∷◌, Option, none, some, any, leb, if◌then◌else◌,
}
use whatsignal.Base.Text.{Text, codes, same}

-- The columns that a delivery status is found by and stored in.
pub record Mapping : Type 0 where
  pub whatsapp_id : Text
  pub signal_id : Text
  pub status : Text

-- One more than deliveryStatusRank, which is -1 for an unknown status.
unfoldable pub delivery_status_rank : Text → ℕ
unfolding same
delivery_status_rank status =
    if same status (codes "pending")
    then 1
    else if same status (codes "received")
    then 2
    else if same status (codes "sent")
    then 2
    else if same status (codes "delivered")
    then 3
    else if same status (codes "read")
    then 4
    else if same status (codes "failed")
    then 5
    else 0

-- shouldUpdateDeliveryStatus
unfoldable pub should_update : Text → Text → Bool
unfolding delivery_status_rank
should_update current next = leb (delivery_status_rank current) (delivery_status_rank next)

-- GetMessageMappingByWhatsAppID
unfoldable pub mapping_by_whatsapp_id : Text → List Mapping → Option Mapping
unfolding same
mapping_by_whatsapp_id id [] = none
mapping_by_whatsapp_id id (m ∷ ms) =
    if same m.whatsapp_id id then some m else mapping_by_whatsapp_id id ms

-- UPDATE message_mappings SET delivery_status = ? WHERE the column is the ID
unfoldable pub set_status : (Mapping → Text) → Text → Text → List Mapping → List Mapping
unfolding same
set_status column id status [] = []
set_status column id status (m ∷ ms) =
    (if same (column m) id then record m { status = status } else m)
    ∷ set_status column id status ms

-- Whether the statement affects a row.
unfoldable pub affects : (Mapping → Text) → Text → List Mapping → Bool
unfolding same
affects column id ms = any (λ m. same (column m) id) ms

pub data UpdateError : Type 0 where
  read_failed write_failed no_message_found : UpdateError

-- Database.UpdateDeliveryStatus: by WhatsApp ID, then by Signal ID
unfoldable pub set_delivery_status : Text → Text → List Mapping → List Mapping × Option UpdateError
unfolding set_status affects
set_delivery_status id status ms =
    if affects (λ m. m.whatsapp_id) id ms
    then (set_status (λ m. m.whatsapp_id) id status ms, none)
    else if affects (λ m. m.signal_id) id ms
    then (set_status (λ m. m.signal_id) id status ms, none)
    else (ms, some no_message_found)

abbrev pub is_outdated : Option Mapping → Text → Bool
is_outdated none status = false
is_outdated (some m) status = if should_update m.status status then false else true

-- UpdateDeliveryStatus; the flags say whether the database can be read and written
unfoldable pub update_delivery_status :
    Bool → Bool → Text → Text → List Mapping → List Mapping × Option UpdateError
unfolding mapping_by_whatsapp_id set_delivery_status should_update
update_delivery_status reads writes id status ms =
    if reads
    then if is_outdated (mapping_by_whatsapp_id id ms) status
      then (ms, none)
      else if writes
      then set_delivery_status id status ms
      else (ms, some write_failed)
    else (ms, some read_failed)
