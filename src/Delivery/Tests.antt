-- ===== src/Delivery/Tests.antt =====
-- Two mappings, and updates that arrive out of order.
use whatsignal.Base.{◌≡◌, refl, true, List, [], ◌∷◌, some}
use whatsignal.Base.Text.{Text, codes, same}
use whatsignal.Delivery.{
  Mapping, delivery_status_rank, update_delivery_status, mapping_by_whatsapp_id, should_update,
  set_delivery_status, set_status, affects, no_message_found,
}
use whatsignal.Delivery.Order.{rank_of, update_all, highest, rank_of-update_all}

abbrev mappings : List Mapping
mappings =
    record { whatsapp_id = codes "w1"; signal_id = codes "s1"; status = codes "sent" }
    ∷ record { whatsapp_id = codes "w2"; signal_id = codes "s2"; status = codes "pending" }
    ∷ []

abbrev updates : List (Text × Text)
updates =
    (codes "w1", codes "read") ∷ (codes "w2", codes "sent") ∷ (codes "w1", codes "delivered") ∷ []

rank_of-update_all_example :
    rank_of (codes "w1") (update_all updates mappings)
    ≡ highest (rank_of (codes "w1") mappings) (codes "w1") updates
unfolding same
rank_of-update_all_example = rank_of-update_all updates mappings (codes "w1") refl

read_stays : rank_of (codes "w1") (update_all updates mappings) ≡ 4
unfolding same delivery_status_rank update_delivery_status mapping_by_whatsapp_id should_update
    set_delivery_status set_status affects
read_stays = refl

unknown :
    (update_delivery_status true true (codes "w3") (codes "read") mappings).1
    ≡ some no_message_found
unfolding same update_delivery_status mapping_by_whatsapp_id should_update set_delivery_status
    affects
unknown = refl
