-- ===== src/Webhook/Tests.antt =====
-- Webhooks with the secret "key", and for hashes functions that only put a mark before the body.
use whatsignal.Base.{
  ◌≡◌, ◌≢◌, ◌↔◌, refl, true, false, [], ◌∷◌, ◌++◌, some, none, if◌then◌else◌, arith,
}
use whatsignal.Base.Text.{Text, codes, same, to_lower}
use whatsignal.Base.Dict.{lookup, insert}
use whatsignal.Webhook.{
  Int64, plus, minus, Request, ok, parse_int, waha_header, timestamp_header, verify,
  check_and_store, webhook_replay_key, ReplayCache, parse_digits, out_of_skew, expire, is_held,
}
use whatsignal.Webhook.Fresh.{Fresh}
use whatsignal.Webhook.Signature.{verify-waha_iff, verify-scheme_iff}
use whatsignal.Webhook.Replay.{accepted_since, Run, begin, receive, check_and_store_lem}

abbrev short : Text → Text → Text
short key body = b's' ∷ key ++ body

abbrev long : Text → Text → Text
long key body = b'l' ∷ key ++ body

abbrev secret : Text
secret = codes "key"

-- A WAHA webhook of 1970-01-01 00:00:02.
abbrev waha_request : Request
waha_request = record {
  body = some (codes "hi");
  header = λ name.
      if same name waha_header
      then codes "lkeyhi"
      else if same name timestamp_header
      then codes "2000"
      else [];
}

abbrev other_request : Request
other_request = record { body = some (codes "hi"); header = λ name. codes "SHA256=skeyhi" }

verify-waha_iff_example :
    (verify short long 2_000_000_500 1_000 false secret waha_header waha_request ≡ ok (codes "hi"))
    ↔ ((waha_request.body ≡ some (codes "hi"))
        × (waha_request.header waha_header ≡ long secret (codes "hi"))
        × (waha_request.header waha_header ≢ [])
        × (ts : Int64) × (parse_int (waha_request.header timestamp_header) ≡ some ts)
        × Fresh 2_000_000_500 1_000 ts)
verify-waha_iff_example =
    verify-waha_iff short long 2_000_000_500 1_000 false secret waha_request (codes "hi")
      (λ e. cc e)

verify-scheme_iff_example :
    (verify short long 0 1_000 true secret (codes "X-Sig") other_request ≡ ok (codes "hi")) ↔ (
      (other_request.body ≡ some (codes "hi"))
      × (scheme : Text) × (to_lower scheme ≡ codes "sha256")
      × (other_request.header (codes "X-Sig") ≡ scheme ++ b'=' ∷ short secret (codes "hi")))
verify-scheme_iff_example =
    verify-scheme_iff short long 0 1_000 true secret (codes "X-Sig") other_request (codes "hi")
      (λ e. cc e) (λ e. cc e)

waha_accepted :
    verify short long 2_000_000_500 1_000 false secret waha_header waha_request ≡ ok (codes "hi")
unfolding same
waha_accepted =
    (verify-waha_iff short long 2_000_000_500 1_000 false secret waha_request (codes "hi")
        (λ e. cc e)).1
      (
        refl,
        refl,
        (λ e. cc e),
        plus 2_000,
        unfold parse_int parse_digits in refl,
        (omega arith, omega arith),
      )

too_late : out_of_skew 2_000_001_001 1_000 (plus 2_000) ≡ true
unfolding out_of_skew
too_late = refl

numbers :
    (parse_int (codes "-12") ≡ some (minus 12))
    × (parse_int (codes "+7") ≡ some (plus 7))
    × (parse_int (codes "1_0") ≡ none)
    × (parse_int (codes "9223372036854775808") ≡ none)
    × (parse_int (codes "-9223372036854775808") ≡ some (minus 9_223_372_036_854_775_808))
    × (parse_int (codes "-") ≡ none)
unfolding parse_int parse_digits
numbers = (refl, refl, refl, refl, refl, refl)

abbrev hash : Text → Text
hash body = b'h' ∷ body

-- The webhook "hi" of timestamp "1" was accepted at 10, with a ttl of 100.
abbrev stored : ReplayCache
stored = (codes "hhi:1", 110) ∷ []

stored-Run : Run hash 100 ((10, codes "hhi:1") ∷ []) 10 stored
unfolding check_and_store webhook_replay_key expire is_held lookup insert
stored-Run = receive 10 (codes "hi") (codes "1") (begin 0) (omega arith)

check_and_store_lem_example :
    (check_and_store hash 60 100 (codes "hi") (codes "1") stored).1
    ≡ accepted_since 60 100
        (webhook_replay_key hash (codes "hi") (codes "1"))
        ((10, codes "hhi:1") ∷ [])
check_and_store_lem_example =
    check_and_store_lem hash 100 ((10, codes "hhi:1") ∷ []) 10 stored 60 (codes "hi") (codes "1")
      stored-Run (omega arith)

replayed :
    ((check_and_store hash 60 100 (codes "hi") (codes "1") stored).1 ≡ true)
    × ((check_and_store hash 110 100 (codes "hi") (codes "1") stored).1 ≡ false)
unfolding check_and_store webhook_replay_key expire is_held lookup insert
replayed = (refl, refl)
