-- ===== src/Store/Cipher.antt =====
-- The columns of a row: encryption, and the lookup hashes of IDs.
use whatsignal.Base.{
  ℕ, zero, suc, ◌≤◌, ◌≡◌, refl, ap, false, [], ◌∷◌, ◌++◌, Option, none, some, take, drop, length,
  length-take, length-append, arith, ltb, not_lt→ltb,
}
use whatsignal.Base.Text.{Text, same, same_iff, is_empty}
use whatsignal.Store.{
  Crypto, nonce_size, Nonces, encrypt, decrypt, lookup_hash, encrypt_for_lookup, open_bytes,
  encrypt_media, decrypt_media,
}

-- What Go documents of its cryptography; that no two IDs have the same HMAC is the usual assumption.
pub record IsSound (c : Crypto) : Type 0 where
  pub open-seal :
      (nonce plaintext : Text) → c.open_sealed nonce (c.seal nonce plaintext) ≡ some plaintext
  pub decode-encode : (bytes : Text) → c.decode (c.encode bytes) ≡ some bytes
  pub encode_nonempty : (b : ℕ) (bytes : Text) → is_empty (c.encode (b ∷ bytes)) ≡ false
  pub mac_injective : (a b : Text) → c.mac a ≡ c.mac b → a ≡ b
  pub digest_size : (bytes : Text) → nonce_size ≤ length (c.digest bytes)

pub record AreNonces (n : Nonces) : Type 0 where
  pub chat : length n.for_chat ≡ nonce_size
  pub whatsapp : length n.for_whatsapp ≡ nonce_size
  pub signal : length n.for_signal ≡ nonce_size
  pub media : length n.for_media ≡ nonce_size

take-append : (n : ℕ) (xs ys : Text) → length xs ≡ n → take n (xs ++ ys) ≡ xs
take-append zero [] ys h = refl
take-append zero (x ∷ xs) ys h = absurd (omega arith)
take-append (suc n) [] ys h = absurd (omega arith)
take-append (suc n) (x ∷ xs) ys h = ap (λ t. x ∷ t) (take-append n xs ys (omega arith))

drop-append : (n : ℕ) (xs ys : Text) → length xs ≡ n → drop n (xs ++ ys) ≡ ys
drop-append zero [] ys h = refl
drop-append zero (x ∷ xs) ys h = absurd (omega arith)
drop-append (suc n) [] ys h = absurd (omega arith)
drop-append (suc n) (x ∷ xs) ys h = drop-append n xs ys (omega arith)

module _ (c : Crypto) (sound : IsSound c) where
  open_bytes-append :
      (nonce p : Text) → length nonce ≡ nonce_size → open_bytes c (nonce ++ c.seal nonce p) ≡ some p
  open_bytes-append nonce p h =
      let long : ltb (length (nonce ++ c.seal nonce p)) nonce_size ≡ false =
        not_lt→ltb _ _ (omega (arith, length-append {0} nonce (c.seal nonce p))) in
      rw
        (
          long,
          take-append nonce_size nonce (c.seal nonce p) h,
          drop-append nonce_size nonce (c.seal nonce p) h,
        )
        (sound.open-seal nonce p)

  pub decrypt-encrypt :
      (nonce p : Text) → length nonce ≡ nonce_size → decrypt c (encrypt c nonce p) ≡ some p
  unfolding decrypt encrypt
  decrypt-encrypt nonce [] h = refl
  decrypt-encrypt [] (x ∷ p) h = absurd (omega arith)
  decrypt-encrypt (b ∷ nonce) (x ∷ p) h =
      let bytes = nonce ++ c.seal (b ∷ nonce) (x ∷ p) in
      rw (sound.encode_nonempty b bytes, sound.decode-encode (b ∷ bytes))
        (open_bytes-append (b ∷ nonce) (x ∷ p) h)

  pub decrypt-encrypt_for_lookup :
      (salt p : Text) → decrypt c (encrypt_for_lookup c salt p) ≡ some p
  unfolding encrypt_for_lookup
  decrypt-encrypt_for_lookup salt p = decrypt-encrypt (take nonce_size (c.digest (p ++ salt))) p (
      omega
        (arith, length-take {0} nonce_size (c.digest (p ++ salt)), sound.digest_size (p ++ salt)))

  pub same-lookup_hash : (a b : Text) → same (lookup_hash c a) (lookup_hash c b) ≡ same a b
  unfolding lookup_hash
  same-lookup_hash a b =
      ground
        (arith, same_iff a b, same_iff (c.mac a) (c.mac b), sound.mac_injective a b, same_mac a b)
    where
      same_mac : (a b : Text) → a ≡ b → c.mac a ≡ c.mac b
      same_mac a b e = ap c.mac e

  pub decrypt_media-encrypt_media :
      (nonce : Text) (path : Option Text)
      → length nonce ≡ nonce_size
      → decrypt_media c (encrypt_media c nonce path) ≡ some path
  decrypt_media-encrypt_media nonce none h = refl
  decrypt_media-encrypt_media nonce (some path) h = rw (decrypt-encrypt nonce path h)
