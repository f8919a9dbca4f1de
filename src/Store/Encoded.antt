-- ===== src/Store/Encoded.antt =====
-- Rows that hold a mapping, and the tests of the queries on them.
use whatsignal.Base.{ℕ, refl, ap, ◌∙◌, leb}
use whatsignal.Base.Text.{Text, same}
use whatsignal.Mappings.{MessageMapping}
use whatsignal.Store.{Crypto, Nonces, Row, lookup_hash, encrypt_for_lookup, encode_mapping}
use whatsignal.Store.Cipher.{
  IsSound, AreNonces, decrypt-encrypt, decrypt-encrypt_for_lookup, same-lookup_hash,
  decrypt_media-encrypt_media,
}
use whatsignal.Store.Rows.{Stores, Agree}

module _ (c : Crypto) (sound : IsSound c) (salt : Text) where
  pub encode_mapping-Stores :
      (n : Nonces) (m : MessageMapping) → AreNonces n → Stores c (encode_mapping c n m) m
  unfolding encode_mapping
  encode_mapping-Stores n m h = record {
    chat = decrypt-encrypt c sound n.for_chat m.chat_id h.chat;
    whatsapp = decrypt-encrypt c sound n.for_whatsapp m.whatsapp_id h.whatsapp;
    signal = decrypt-encrypt c sound n.for_signal m.signal_id h.signal;
    media = decrypt_media-encrypt_media c sound n.for_media m.media_path h.media;
    chat_hashed = refl;
    whatsapp_hashed = refl;
    signal_hashed = refl;
    same_signal_timestamp = refl;
    same_forwarded_at = refl;
    same_status = refl;
    same_session = refl;
    same_media_type = refl;
    same_created_at = refl;
  }

  pub set_signal-Stores :
      (id status : Text) (at : ℕ) (r : Row) (m : MessageMapping)
      → Stores c r m
      → Stores c
          (record r {
            signal_cipher = encrypt_for_lookup c salt id;
            signal_hash = lookup_hash c id;
            signal_timestamp = at;
            status = status;
          })
          (record m { signal_id = id; signal_timestamp = at; status = status })
  set_signal-Stores id status at r m s = record {
    chat = s.chat;
    whatsapp = s.whatsapp;
    signal = decrypt-encrypt_for_lookup c sound salt id;
    media = s.media;
    chat_hashed = s.chat_hashed;
    whatsapp_hashed = s.whatsapp_hashed;
    signal_hashed = refl;
    same_signal_timestamp = refl;
    same_forwarded_at = s.same_forwarded_at;
    same_status = refl;
    same_session = s.same_session;
    same_media_type = s.same_media_type;
    same_created_at = s.same_created_at;
  }

  pub set_status-Stores :
      (status : Text) (r : Row) (m : MessageMapping)
      → Stores c r m
      → Stores c (record r { status = status }) (record m { status = status })
  set_status-Stores status r m s = record {
    chat = s.chat;
    whatsapp = s.whatsapp;
    signal = s.signal;
    media = s.media;
    chat_hashed = s.chat_hashed;
    whatsapp_hashed = s.whatsapp_hashed;
    signal_hashed = s.signal_hashed;
    same_signal_timestamp = s.same_signal_timestamp;
    same_forwarded_at = s.same_forwarded_at;
    same_status = refl;
    same_session = s.same_session;
    same_media_type = s.same_media_type;
    same_created_at = s.same_created_at;
  }

  -- The tests of the queries.
  pub whatsapp-Agree :
      (id : Text)
      → Agree c (λ r. same r.whatsapp_hash (lookup_hash c id)) (λ m. same m.whatsapp_id id)
  whatsapp-Agree id r m s =
      ap (λ h. same h (lookup_hash c id)) s.whatsapp_hashed
      ∙ same-lookup_hash c sound m.whatsapp_id id

  pub signal-Agree :
      (id : Text) → Agree c (λ r. same r.signal_hash (lookup_hash c id)) (λ m. same m.signal_id id)
  signal-Agree id r m s =
      ap (λ h. same h (lookup_hash c id)) s.signal_hashed ∙ same-lookup_hash c sound m.signal_id id

  pub session-Agree :
      (session : Text) → Agree c (λ r. same r.session session) (λ m. same m.session session)
  session-Agree session r m s = ap (λ h. same h session) s.same_session

  pub chat-Agree :
      (chat : Text)
      → Agree c (λ r. same r.chat_hash (lookup_hash c chat)) (λ m. same m.chat_id chat)
  chat-Agree chat r m s =
      ap (λ h. same h (lookup_hash c chat)) s.chat_hashed ∙ same-lookup_hash c sound m.chat_id chat

  pub created-Agree :
      (cutoff : ℕ) → Agree c (λ r. leb cutoff r.created_at) (λ m. leb cutoff m.created_at)
  created-Agree cutoff r m s = ap (leb cutoff) s.same_created_at
