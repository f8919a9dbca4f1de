-- ===== src/Dispatch/PollTests.antt =====
-- A poll of two messages for one channel: the first is forwarded, the second is not.
use whatsignal.Base.{
  ℕ, ◌≡◌, refl, Bool, true, false, ◌&&◌, ◌||◌, not, List, [], ◌∷◌, Option, none, some, any, ◌==◌,
  if◌then◌else◌,
}
use whatsignal.Base.Text.{Text, codes, same}
use whatsignal.Channels.{ChannelManager, get_all_signal_destinations, get_signal_destination}
use whatsignal.Base.Dict.{lookup}
use whatsignal.Bridge.Resolving.{SignalMessage}
use whatsignal.Dispatch.{
  PendingMessage, has_key, delete_pending, increment_retry_count, choose_destination, choose_among,
  attempts, settle, work,
}
use whatsignal.Dispatch.Workers.{holds}
use whatsignal.Dispatch.Polling.{
  Assigned, assign, insert_or_ignore, save_each, persist, pending_rows, begin_poll, Fortune, Worker,
  start_workers, run_worker, Finishes, waited, ends,
}
use whatsignal.Dispatch.Polled.{is_message, encodes, removes, holds-begin_poll}

abbrev manager : ChannelManager
manager = record {
  channels = (codes "home", codes "+111") ∷ [];
  reverse = (codes "+111", codes "home") ∷ [];
  ordered_names = codes "home" ∷ [];
}

abbrev message : Text → SignalMessage
message id = record {
  timestamp = 1;
  sender = codes "+999";
  message_id = id;
  message = codes "hello";
  attachments = [];
  quoted = none;
  reaction = none;
  deletion = none;
  receipt = none;
}

abbrev messages : List SignalMessage
messages = message (codes "a") ∷ message (codes "b") ∷ []

abbrev no_history : Text → Text → Option Bool
no_history session sender = none

abbrev encode : SignalMessage → Option Text
encode m = some m.message_id

-- The first worker forwards its message on its second attempt, the second worker never does.
abbrev fortunes : ℕ → Fortune
fortunes n = record { succeeds = λ k. n == 0 && k == 2; cancels = λ k. false; writes = true }

abbrev row : Text → ℕ → PendingMessage
row id retries = record {
  message_id = id;
  destination = codes "+111";
  raw_json = id;
  retry_count = retries;
}

abbrev assigned : List Assigned
assigned = assign no_history manager messages

abbrev worker : Text → ℕ → Worker
worker id n = record {
  assigned = record { msg = message id; destination = codes "+111" };
  fortune = fortunes n;
}

-- The second worker ends first.
finished :
    Finishes
      (begin_poll encode true assigned []).persisted
      (start_workers fortunes 0 assigned)
      (begin_poll encode true assigned []).rows
      (row (codes "b") 1 ∷ [])
unfolding begin_poll persist save_each insert_or_ignore pending_rows start_workers run_worker work
    attempts settle delete_pending increment_retry_count has_key same assign choose_destination
    choose_among get_all_signal_destinations get_signal_destination lookup
finished =
    ends (worker (codes "a") 0 ∷ []) (worker (codes "b") 1) [] refl
      (ends [] (worker (codes "a") 0) [] refl (waited refl refl))

holds-begin_poll_example :
    let p = begin_poll encode true assigned [] in
    let ws = start_workers fortunes 0 assigned in
    holds (codes "b") (codes "+111") (row (codes "b") 1 ∷ []) ≡ (
      if p.persisted
      then (holds (codes "b") (codes "+111") []
          || any (λ a. is_message (codes "b") (codes "+111") a && encodes encode a) assigned)
        && not (any (removes (codes "b") (codes "+111")) ws)
      else holds (codes "b") (codes "+111") [])
holds-begin_poll_example =
    holds-begin_poll encode no_history manager messages true fortunes [] (row (codes "b") 1 ∷ [])
      (codes "b") (codes "+111") finished
