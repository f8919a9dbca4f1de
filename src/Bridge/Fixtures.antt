-- ===== src/Bridge/Fixtures.antt =====
-- Inputs that the tests of several modules share: services with one channel, a world in which
-- sends fail or succeed, and a message that is forwarded.
use whatsignal.Base.{ℕ, refl, [], ◌∷◌, Option, none, some, true, false}
use whatsignal.Base.Text.{Text, codes, same}
use whatsignal.Base.Dict.{lookup}
use whatsignal.Channels.{ChannelManager, get_signal_destination}
use whatsignal.Retry.{World, retry_with_predicate, predicate_loop}
use whatsignal.Retry.Classifier.{Error}
use whatsignal.Mappings.{find_either, find_whatsapp, find_signal}
use whatsignal.Mappings.Lookups.{is_mapped}
use whatsignal.Bridge.{Services, State, SignalResponse, Conditions, save_mapping}
use whatsignal.Bridge.Forwarding.{
  Incoming, handle_whatsapp, media_attachments, forward, finish_forward, record_sent,
}
use whatsignal.Bridge.Forwarded.{IsFresh, IsForwarded}

abbrev pub phone : Text
phone = codes "+15550001111"

abbrev pub manager : ChannelManager
manager = record {
  channels = (codes "default", phone) ∷ [];
  reverse = (phone, codes "default") ∷ [];
  ordered_names = codes "default" ∷ [];
}

abbrev pub services : Services
services = record {
  channels = manager;
  contact_display_name = none;
  group_name = none;
  process_media = λ path. some path;
  contact_by_name = λ name. some none;
  allowed_types = record { image = codes "png" ∷ []; video = []; voice = [] };
  ext = λ path. codes ".png";
  trim_space = λ t. t;
  decimal = λ n. codes "1700000000000";
  default_session = codes "default";
  max_attempts = 2;
}

abbrev pub temporary : Error
temporary = record {
  text = codes "timeout";
  is_canceled = false;
  is_deadline_exceeded = false;
  app_retryable = some true;
}

abbrev pub world : (ℕ → Option Error) → World Error
world call = record {
  call = call;
  done_before = λ n. false;
  done_waiting = λ n. false;
  ctx_err = temporary;
}

abbrev pub sent_as : SignalResponse
sent_as = record { message_id = codes "1700000000000"; timestamp = 1700000000000 }

abbrev pub conditions : (ℕ → Option Error) → Conditions
conditions call = record {
  now = 5;
  reads = λ n. true;
  saves = λ n. true;
  updates = true;
  client_works = true;
  restarts = true;
  sends = world call;
  signal_response = some sent_as;
  whatsapp_response = some (codes "true_555@c.us_B2");
}

-- Every send fails, or every send succeeds.
abbrev pub down : Conditions
down = conditions (λ n. some temporary)

abbrev pub up : Conditions
up = conditions (λ n. none)

abbrev pub hello : Incoming
hello = record {
  session = codes "default";
  chat_id = codes "555@c.us";
  msg_id = codes "A1";
  sender = codes "555@c.us";
  sender_display_name = codes "Ann";
  content = codes "hi";
  media_path = [];
}

abbrev pub start : State
start = record { mappings = []; last_fallback = []; effects = [] }

pub hello-IsFresh : IsFresh hello sent_as []
unfolding same find_either find_whatsapp find_signal is_mapped
hello-IsFresh = record { not_mapped = refl; not_found = refl; other_id = refl; not_pending = refl }

pub hello-IsForwarded : IsForwarded services up hello [] sent_as start
unfolding handle_whatsapp forward finish_forward record_sent media_attachments
    get_signal_destination lookup same retry_with_predicate predicate_loop save_mapping
hello-IsForwarded = record {
  saved = refl;
  has_session = refl;
  answered = refl;
  media = refl;
  no_error = refl;
}
