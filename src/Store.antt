-- ===== src/Store.antt =====
-- internal/database/encryption.go, and the operations of internal/database/database.go on the
-- encrypted table message_mappings. AES-GCM, base64, HMAC-SHA-256 with its hex form, SHA-256 and
-- PBKDF2 of Go's libraries are parameters; the nonces that crypto/rand gives are arguments. The
-- statements are taken to run: their failures are in Delivery, Dispatch and Bridge.
pub mod Cipher
pub mod Rows
pub mod Encoded
pub mod Refinement
mod Tests
use whatsignal.Base.{
  ℕ, zero, suc, Bool, true, false, not, ◌&&◌, List, [], ◌∷◌, ◌++◌, Option, none, some, any, keep,
  take, drop, length, ltb, leb, if◌then◌else◌,
}
use whatsignal.Base.Text.{Text, same, is_empty}
use whatsignal.Mappings.{
  MessageMapping, find, change, newest_first, first, StoreError, session_required,
  message_not_found, undecipherable, Action, save, set_signal_id, set_status, delete_before,
  by_whatsapp_id, by_signal_id, by_either_id, latest, latest_group, has_history, Answer, done,
  refused, found, exists, is_group, search_limit, chat_of_sender,
}

-- What the code calls of Go's cryptography, with its keys applied.
pub record Crypto : Type 0 where
  pub seal : Text → Text → Text
  pub open_sealed : Text → Text → Option Text
  pub encode : Text → Text
  pub decode : Text → Option Text
  pub mac : Text → Text
  pub digest : Text → Text

infixl 5 ◌>>=◌
abbrev pub ◌>>=◌ {ℓ κ} : {A : Type ℓ} {B : Type κ} → Option A → (A → Option B) → Option B
none >>= f = none
some a >>= f = f a

-- models.NonceSize
abbrev pub nonce_size : ℕ
nonce_size = 12

-- The nonces that one call of SaveMessageMapping draws.
pub record Nonces : Type 0 where
  pub for_chat : Text
  pub for_whatsapp : Text
  pub for_signal : Text
  pub for_media : Text

-- A row: the encrypted columns, the plain ones, and the lookup hashes.
pub record Row : Type 0 where
  pub chat_cipher : Text
  pub whatsapp_cipher : Text
  pub signal_cipher : Text
  pub signal_timestamp : ℕ
  pub forwarded_at : ℕ
  pub status : Text
  pub media_cipher : Option Text
  pub session : Text
  pub media_type : Text
  pub chat_hash : Text
  pub whatsapp_hash : Text
  pub signal_hash : Text
  pub created_at : ℕ

abbrev pub or_select : Answer → Answer → Answer
or_select (found none) second = second
or_select first_answer second = first_answer

-- SelectRecentMessageMappingsBySessionQuery without its limit
abbrev pub recent : Text → List Row → List Row
recent session rows = newest_first (λ r. r.forwarded_at) (keep (λ r. same r.session session) rows)

module _ (c : Crypto) where
  -- Encrypt, EncryptIfEnabled
  unfoldable pub encrypt : Text → Text → Text
  encrypt nonce plaintext =
      if is_empty plaintext then plaintext else c.encode (nonce ++ c.seal nonce plaintext)

  abbrev pub open_bytes : Text → Option Text
  open_bytes bytes =
      if ltb (length bytes) nonce_size
      then none
      else c.open_sealed (take nonce_size bytes) (drop nonce_size bytes)

  -- Decrypt, DecryptIfEnabled, DecryptAuto
  unfoldable pub decrypt : Text → Option Text
  decrypt ciphertext =
      if is_empty ciphertext
      then some ciphertext
      else c.decode ciphertext >>= λ bytes. open_bytes bytes

  -- LookupHash
  unfoldable pub lookup_hash : Text → Text
  lookup_hash plaintext = c.mac plaintext

  -- EncryptForLookup, EncryptForLookupIfEnabled
  unfoldable pub encrypt_for_lookup : Text → Text → Text
  unfolding encrypt
  encrypt_for_lookup lookup_salt plaintext =
      encrypt (take nonce_size (c.digest (plaintext ++ lookup_salt))) plaintext

  abbrev pub encrypt_media : Text → Option Text → Option Text
  encrypt_media nonce none = none
  encrypt_media nonce (some path) = some (encrypt nonce path)

  abbrev pub decrypt_media : Option Text → Option (Option Text)
  decrypt_media none = some none
  decrypt_media (some cipher) = decrypt cipher >>= λ path. some (some path)

  -- The row that saveMessageMappingInternal inserts.
  unfoldable pub encode_mapping : Nonces → MessageMapping → Row
  unfolding encrypt lookup_hash
  encode_mapping n m = record {
    chat_cipher = encrypt n.for_chat m.chat_id;
    whatsapp_cipher = encrypt n.for_whatsapp m.whatsapp_id;
    signal_cipher = encrypt n.for_signal m.signal_id;
    signal_timestamp = m.signal_timestamp;
    forwarded_at = m.forwarded_at;
    status = m.status;
    media_cipher = encrypt_media n.for_media m.media_path;
    session = m.session;
    media_type = m.media_type;
    chat_hash = lookup_hash m.chat_id;
    whatsapp_hash = lookup_hash m.whatsapp_id;
    signal_hash = lookup_hash m.signal_id;
    created_at = m.created_at;
  }

  -- The decryption of a row that was scanned.
  unfoldable pub decode_row : Row → Option MessageMapping
  unfolding decrypt
  decode_row r = decrypt r.chat_cipher >>= λ chat_id. decrypt r.whatsapp_cipher >>= λ whatsapp_id.
      decrypt r.signal_cipher >>= λ signal_id. decrypt_media r.media_cipher >>= λ media_path.
      some (record {
        chat_id = chat_id;
        whatsapp_id = whatsapp_id;
        signal_id = signal_id;
        signal_timestamp = r.signal_timestamp;
        forwarded_at = r.forwarded_at;
        status = r.status;
        media_path = media_path;
        session = r.session;
        media_type = r.media_type;
        created_at = r.created_at;
      })

  -- The end of a query for one row.
  abbrev pub deciphered : Option MessageMapping → Answer
  deciphered none = refused undecipherable
  deciphered (some m) = found (some m)

  abbrev pub scanned : Option Row → Answer
  scanned none = found none
  scanned (some r) = deciphered (decode_row r)

  -- GetMessageMappingByWhatsAppID
  unfoldable pub select_whatsapp : Text → List Row → Answer
  unfolding lookup_hash decode_row same
  select_whatsapp id rows = scanned (find (λ r. same r.whatsapp_hash (lookup_hash id)) rows)

  -- GetMessageMappingBySignalID
  unfoldable pub select_signal : Text → List Row → Answer
  unfolding lookup_hash decode_row same
  select_signal id rows = scanned (find (λ r. same r.signal_hash (lookup_hash id)) rows)

  -- GetMessageMapping
  unfoldable pub select_either : Text → List Row → Answer
  unfolding select_whatsapp select_signal
  select_either id rows = or_select (select_whatsapp id rows) (select_signal id rows)

  -- UpdateSignalIDByWhatsAppID
  unfoldable pub update_signal_id : Text → Text → Text → ℕ → Text → List Row → List Row
  unfolding lookup_hash encrypt_for_lookup same
  update_signal_id lookup_salt id signal_id at status rows =
      change (λ r. same r.whatsapp_hash (lookup_hash id))
        (λ r. record r {
          signal_cipher = encrypt_for_lookup lookup_salt signal_id;
          signal_hash = lookup_hash signal_id;
          signal_timestamp = at;
          status = status;
        })
        rows

  -- UpdateDeliveryStatus, by UpdateDeliveryStatusByWhatsAppID and UpdateDeliveryStatusBySignalID
  unfoldable pub update_status : Text → Text → List Row → List Row × Answer
  unfolding lookup_hash same
  update_status id status rows =
      let hash = lookup_hash id in
      if any (λ r. same r.whatsapp_hash hash) rows
      then (change (λ r. same r.whatsapp_hash hash) (λ r. record r { status = status }) rows, done)
      else if any (λ r. same r.signal_hash hash) rows
      then (change (λ r. same r.signal_hash hash) (λ r. record r { status = status }) rows, done)
      else (rows, refused message_not_found)

  -- GetLatestMessageMappingBySession
  unfoldable pub select_latest : Text → List Row → Answer
  unfolding decode_row same
  select_latest session rows = scanned (first (recent session rows))

  -- The loop of GetLatestGroupMessageMappingBySession; each row is decrypted before its test.
  abbrev pub group_or : Option MessageMapping → Answer → Answer
  group_or none rest = refused undecipherable
  group_or (some m) rest = if is_group m.chat_id then found (some m) else rest

  unfoldable pub scan_groups : List Row → Answer
  unfolding decode_row
  scan_groups [] = found none
  scan_groups (r ∷ rows) = group_or (decode_row r) (scan_groups rows)

  unfoldable pub select_latest_group : Text → ℕ → List Row → Answer
  unfolding scan_groups same
  select_latest_group session limit rows =
      scan_groups (take (search_limit limit) (recent session rows))

  -- One call, with the nonces that it draws if it saves.
  unfoldable pub run_call : Text → Action × Nonces → List Row → List Row × Answer
  unfolding encode_mapping update_signal_id update_status select_whatsapp select_signal
      select_either select_latest select_latest_group lookup_hash chat_of_sender same
  run_call salt (save m, n) rows =
      if is_empty m.session
      then (rows, refused session_required)
      else (rows ++ encode_mapping n m ∷ [], done)
  run_call salt (set_signal_id id signal_id at status, n) rows =
      (update_signal_id salt id signal_id at status rows, done)
  run_call salt (set_status id status, n) rows = update_status id status rows
  run_call salt (delete_before cutoff, n) rows = (keep (λ r. leb cutoff r.created_at) rows, done)
  run_call salt (by_whatsapp_id id, n) rows = (rows, select_whatsapp id rows)
  run_call salt (by_signal_id id, n) rows = (rows, select_signal id rows)
  run_call salt (by_either_id id, n) rows = (rows, select_either id rows)
  run_call salt (latest session, n) rows =
      if is_empty session
      then (rows, refused session_required)
      else (rows, select_latest session rows)
  run_call salt (latest_group session limit, n) rows =
      if is_empty session
      then (rows, refused session_required)
      else (rows, select_latest_group session limit rows)
  run_call salt (has_history session sender, n) rows =
      if is_empty session
      then (rows, refused session_required)
      else let hash = lookup_hash (chat_of_sender sender) in
        (rows, exists (any (λ r. same r.session session && same r.chat_hash hash) rows))
