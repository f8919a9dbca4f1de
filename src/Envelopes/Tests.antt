-- ===== src/Envelopes/Tests.antt =====
-- Envelopes at concrete inputs.
use whatsignal.Base.{◌≡◌, refl, [], ◌∷◌, ◌++◌, none, some, false}
use whatsignal.Base.Text.{codes, same, has_prefix}
use whatsignal.Base.Dict.{lookup}
use whatsignal.Channels.{get_whatsapp_session, ok}
use whatsignal.Bridge.{react}
use whatsignal.Bridge.Forwarding.{handle_whatsapp}
use whatsignal.Bridge.Resolving.{Reaction}
use whatsignal.Bridge.Handlers.{handle_signal}
use whatsignal.Bridge.Fixtures.{
  phone, services, up, hello, sent_as, start, hello-IsFresh, hello-IsForwarded,
}
use whatsignal.Envelopes.{
  Quotes, DataMessage, SentMessage, Envelope, is_blank, sent_quote, data_quote, convert_data,
  convert_sent, convert, convert_all,
}
use whatsignal.Envelopes.Reactions.{handle_signal-convert_data}

abbrev heart : Reaction
heart = record { emoji = codes "<3"; target_timestamp = 1700000000000; is_remove = false }

abbrev unquoted : Quotes
unquoted = record { quote = none; quote_message = none; quoted_message = none }

abbrev hearted : DataMessage
hearted = record {
  message = [];
  attachments = [];
  quotes = unquoted;
  reaction = some heart;
  remote_delete = none;
}

abbrev envelope : Envelope
envelope = record {
  account = phone;
  source = codes "+15550002222";
  timestamp = 1700000005000;
  data_message = some hearted;
  sent_message = none;
  receipt = none;
}

in_session : get_whatsapp_session phone services.channels ≡ ok (codes "default")
unfolding get_whatsapp_session lookup same
in_session = refl

no_group : has_prefix envelope.source (codes "group.") ≡ false
unfolding has_prefix
no_group = refl

handle_signal-convert_data_example :
    (handle_signal services up
      (convert_data services.decimal (λ a. a) envelope hearted)
      phone
      (handle_whatsapp services up hello start).0).0.effects
    ≡ (handle_whatsapp services up hello start).0.effects
      ++ react (codes "555@c.us") (codes "A1") (codes "<3") (codes "default") ∷ []
handle_signal-convert_data_example =
    handle_signal-convert_data services (λ a. a) up up hello [] sent_as envelope hearted heart
      (codes "default") phone start hello-IsFresh hello-IsForwarded in_session no_group refl refl
      refl

-- A sent message without content, and a receipt for two messages.
abbrev blank : SentMessage
blank = record {
  timestamp = 7;
  message = [];
  attachments = [];
  quotes = unquoted;
  nested_quotes = none;
  reaction = none;
  remote_delete = none;
  group_id = none;
}

skips_blank :
    convert_all
      (λ n. [])
      (λ a. a)
      (record envelope { data_message = none; sent_message = some blank } ∷ [])
    ≡ []
unfolding convert_all convert convert_sent is_blank sent_quote data_quote
skips_blank = refl
