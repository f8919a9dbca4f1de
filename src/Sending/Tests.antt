-- ===== src/Sending/Tests.antt =====
-- A session that has to be restarted before the third send goes through.
use whatsignal.Base.{
  ◌≤◌, ◌≡◌, ◌≢◌, ◌⊎◌, refl, false, [], ◌∷◌, none, some, ltb, if◌then◌else◌, arith,
}
use whatsignal.Base.Text.{codes, same, contains, has_prefix, to_lower, trim_prefix}
use whatsignal.Retry.{World, predicate_loop, retry_with_predicate}
use whatsignal.Retry.Classifier.{
  Error, mentions, lowered, is_retryable_whatsapp_error, is_legacy_transient_error,
}
use whatsignal.Sending.{
  should_restart, after_send, recovery, send_message, AllowedTypes, send_method,
  has_allowed_extension, send_image, send_document,
}
use whatsignal.Sending.Restarts.{asked, send_message_lem}

abbrev not_ready : Error
not_ready = record {
  text = codes "status 422: restart the session";
  is_canceled = false;
  is_deadline_exceeded = false;
  app_retryable = none;
}

abbrev starting_up : World Error
starting_up = record {
  call = λ n. if ltb n 3 then some not_ready else none;
  done_before = λ n. false;
  done_waiting = λ n. false;
  ctx_err = not_ready;
}

send_message_lem_example :
    ((send_message starting_up 5 false (codes "hi")).sends ≤ 5)
    × (((send_message starting_up 5 false (codes "hi")).error ≢ none)
        ⊎ (starting_up.call (send_message starting_up 5 false (codes "hi")).sends ≡ none))
    × ((send_message starting_up 5 false (codes "hi")).restarts ≡ (
        if asked starting_up.call (send_message starting_up 5 false (codes "hi")).sends
        then 1
        else 0))
send_message_lem_example = send_message_lem starting_up 5 false (codes "hi") refl (omega arith)

restarted_once :
    ((send_message starting_up 5 false (codes "hi")).sends ≡ 3)
    × ((send_message starting_up 5 false (codes "hi")).restarts ≡ 1)
unfolding send_message retry_with_predicate predicate_loop recovery after_send should_restart
    is_retryable_whatsapp_error is_legacy_transient_error mentions lowered contains has_prefix
    to_lower
restarted_once = (refl, refl)

abbrev types : AllowedTypes
types = record { image = codes ".PNG" ∷ codes "jpg" ∷ []; video = []; voice = [] }

methods :
    (send_method (λ path. codes ".png") types (codes "a.png" ∷ []) ≡ send_image)
    × (send_method (λ path. codes ".txt") types (codes "a.txt" ∷ []) ≡ send_document)
unfolding send_method has_allowed_extension same to_lower trim_prefix has_prefix
methods = (refl, refl)
