-- ===== src/Masking/Tests.antt =====
-- Concrete masks.
use whatsignal.Base.{◌≡◌, refl}
use whatsignal.Base.Text.{codes, contains}
use whatsignal.Masking.{
  split, join, mask_string, mask_phone_number, mask_all_but_four, mask_chat_parts, mask_chat_id,
  mask_session_parts, mask_session_rest, mask_session_name, mask_field,
}

phone_masked : mask_phone_number (codes "+1234567890") ≡ codes "+******7890"
unfolding mask_phone_number
phone_masked = refl

-- Six stars, where the comment of the function shows four.
chat_masked : mask_chat_id (codes "1234567890@c.us") ≡ codes "******7890@c.us"
unfolding mask_chat_id mask_chat_parts mask_all_but_four contains split join
chat_masked = refl

session_masked :
    mask_session_name (codes "primary-session-user123") ≡ codes "primary-*******-****123"
unfolding mask_session_name mask_session_parts mask_session_rest mask_string contains split
session_masked = refl

-- The key "sender", which HandleWhatsAppMessageWithSession logs a phone number under, is not masked.
sender_shown : mask_field (codes "sender") (codes "15551234567") ≡ codes "15551234567"
unfolding mask_field
sender_shown = refl
