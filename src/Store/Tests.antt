-- ===== src/Store/Tests.antt =====
-- Runs of the message store at concrete inputs, with a cipher that only frames its input.
use whatsignal.Base.{◌≡◌, refl, List, [], ◌∷◌, map, Option, none, some, replicate, arith}
use whatsignal.Base.Text.{Text, codes, same}
use whatsignal.Mappings.{
  MessageMapping, Action, save, set_signal_id, set_status, delete_before, by_whatsapp_id,
  by_signal_id, latest_group, done, found, answers, step,
}
use whatsignal.Store.{
  Crypto, Nonces, encrypt, decrypt, lookup_hash, encrypt_for_lookup, encode_mapping, decode_row,
  run_call,
}
use whatsignal.Store.Cipher.{IsSound, AreNonces}
use whatsignal.Store.Refinement.{DrawNonces, answers-run_call}

abbrev framed : Text → Option Text
framed [] = none
framed (x ∷ bytes) = some bytes

abbrev plain : Crypto
plain = record {
  seal = λ nonce p. p;
  open_sealed = λ nonce p. some p;
  encode = λ bytes. 0 ∷ bytes;
  decode = framed;
  mac = λ p. p;
  digest = λ p. replicate 32 7;
}

plain-IsSound : IsSound plain
plain-IsSound = record {
  open-seal = λ nonce p. refl;
  decode-encode = λ bytes. refl;
  encode_nonempty = λ b bytes. refl;
  mac_injective = λ a b e. e;
  digest_size = λ p. omega arith;
}

abbrev twelve : Nonces
twelve = record {
  for_chat = replicate 12 1;
  for_whatsapp = replicate 12 2;
  for_signal = replicate 12 3;
  for_media = replicate 12 4;
}

twelve-AreNonces : AreNonces twelve
twelve-AreNonces = record { chat = refl; whatsapp = refl; signal = refl; media = refl }

abbrev family : MessageMapping
family = record {
  chat_id = codes "555@g.us";
  whatsapp_id = codes "true_555@g.us_A1";
  signal_id = codes "pending:A1";
  signal_timestamp = 100;
  forwarded_at = 100;
  status = codes "sent";
  media_path = some (codes "cache/a.png");
  session = codes "default";
  media_type = codes "image";
  created_at = 100;
}

abbrev calls : List (Action × Nonces)
calls =
    (save family, twelve)
    ∷ (set_signal_id family.whatsapp_id (codes "1700000000000") 200 (codes "delivered"), twelve)
    ∷ (by_signal_id (codes "1700000000000"), twelve)
    ∷ (latest_group (codes "default") 0, twelve)
    ∷ (set_status (codes "unknown") (codes "read"), twelve)
    ∷ (delete_before 101, twelve)
    ∷ (by_whatsapp_id family.whatsapp_id, twelve)
    ∷ []

calls-DrawNonces : DrawNonces calls
calls-DrawNonces = let n = twelve-AreNonces in (n, (n, (n, (n, (n, (n, (n, tt)))))))

answers-run_call_example :
    answers (run_call plain (codes "salt")) calls [] ≡ answers step (map (λ call. call.0) calls) []
answers-run_call_example =
    answers-run_call plain (codes "salt") calls plain-IsSound calls-DrawNonces

encrypted_lookup :
    answers
      (run_call plain (codes "salt"))
      ((save family, twelve)
        ∷ (set_signal_id family.whatsapp_id (codes "17") 200 (codes "delivered"), twelve)
        ∷ (by_signal_id (codes "17"), twelve)
        ∷ (by_signal_id (codes "pending:A1"), twelve)
        ∷ [])
      []
    ≡ done
      ∷ done
      ∷ found (
          some (record family {
            signal_id = codes "17";
            signal_timestamp = 200;
            status = codes "delivered";
          }))
      ∷ found none
      ∷ []
unfolding answers run_call encrypt decrypt lookup_hash encrypt_for_lookup encode_mapping decode_row
    same
encrypted_lookup = refl
