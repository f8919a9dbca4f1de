-- ===== src/Envelopes.antt =====
-- The conversion of what signal-cli delivers: ConvertRestMessages of pkg/signal/client.go, which
-- the polls and the WebSocket share, with the types of pkg/signal/types/models.go. The decimal form
-- of a number, and the paths at which attachments are found or saved, are parameters; timestamps
-- are not negative. A receipt that cannot be parsed is `none`, as one that is missing.
pub mod Reactions
mod Tests
use whatsignal.Base.{
  ℕ, Bool, true, false, not, ◌&&◌, List, [], ◌∷◌, ◌++◌, Option, none, some, map, if◌then◌else◌,
}
use whatsignal.Base.Text.{Text, codes, is_empty}
use whatsignal.Bridge.Resolving.{Quote, Reaction, Deletion, Receipt, SignalMessage}

pub record RestQuote : Type 0 where
  pub id : ℕ
  pub text : Text

-- The three fields in which signal-cli puts a quote.
pub record Quotes : Type 0 where
  pub quote : Option RestQuote
  pub quote_message : Option RestQuote
  pub quoted_message : Option RestQuote

pub record DataMessage : Type 0 where
  pub message : Text
  pub attachments : List Text
  pub quotes : Quotes
  pub reaction : Option Reaction
  pub remote_delete : Option ℕ

pub record SentMessage : Type 0 where
  pub timestamp : ℕ
  pub message : Text
  pub attachments : List Text
  pub quotes : Quotes
  pub nested_quotes : Option Quotes
  pub reaction : Option Reaction
  pub remote_delete : Option ℕ
  pub group_id : Option Text

pub record RestReceipt : Type 0 where
  pub when : ℕ
  pub is_delivery : Bool
  pub is_read : Bool
  pub is_viewed : Bool
  pub timestamps : List ℕ

-- RestMessage; the sync message of an envelope is its sent message.
pub record Envelope : Type 0 where
  pub account : Text
  pub source : Text
  pub timestamp : ℕ
  pub data_message : Option DataMessage
  pub sent_message : Option SentMessage
  pub receipt : Option RestReceipt

abbrev pub first_of {ℓ} : {A : Type ℓ} → Option A → Option A → Option A
first_of none o = o
first_of (some a) o = some a

-- RestDataMessage.GetQuote
unfoldable pub data_quote : Quotes → Option RestQuote
data_quote q = first_of q.quote (first_of q.quote_message q.quoted_message)

abbrev nested_quote : Option Quotes → Option RestQuote
nested_quote none = none
nested_quote (some q) = data_quote q

-- RestSentMessage.GetQuote
unfoldable pub sent_quote : SentMessage → Option RestQuote
unfolding data_quote
sent_quote m = first_of (data_quote m.quotes) (nested_quote m.nested_quotes)

abbrev pub or_emoji : Text → Option Reaction → Text
or_emoji message none = message
or_emoji [] (some r) = r.emoji
or_emoji (b ∷ bs) (some r) = b ∷ bs

abbrev pub is_none {ℓ} : {A : Type ℓ} → Option A → Bool
is_none none = true
is_none (some a) = false

abbrev pub no_items {ℓ} : {A : Type ℓ} → List A → Bool
no_items [] = true
no_items (a ∷ rest) = false

-- The truly empty messages, which are skipped.
unfoldable pub is_blank : SentMessage → Bool
unfolding sent_quote
is_blank m =
    is_empty m.message
    && no_items m.attachments
    && is_none m.reaction
    && is_none m.remote_delete
    && is_none (sent_quote m)

module _ (decimal : ℕ → Text) (paths : List Text → List Text) where
  -- quotedMessageFromRestQuote
  unfoldable pub quote_of : Option RestQuote → Option Quote
  quote_of none = none
  quote_of (some q) = some (record { id = decimal q.id; text = q.text })

  unfoldable pub deletion_of : Option ℕ → Option Deletion
  deletion_of none = none
  deletion_of (some timestamp) =
      some (record { target_message_id = decimal timestamp; target_timestamp = timestamp })

  -- convertDataMessageToSignalMessage
  unfoldable pub convert_data : Envelope → DataMessage → SignalMessage
  unfolding quote_of deletion_of data_quote
  convert_data e m = record {
    timestamp = e.timestamp;
    sender = e.source;
    message_id = decimal e.timestamp;
    message = or_emoji m.message m.reaction;
    attachments = paths m.attachments;
    quoted = quote_of (data_quote m.quotes);
    reaction = m.reaction;
    deletion = deletion_of m.remote_delete;
    receipt = none;
  }

  abbrev sender_of : Envelope → Option Text → Text
  sender_of e none = if is_empty e.source then e.account else e.source
  sender_of e (some []) = if is_empty e.source then e.account else e.source
  sender_of e (some (b ∷ group)) = codes "group." ++ b ∷ group

  -- convertSyncMessageToSignalMessage
  unfoldable pub convert_sent : Envelope → SentMessage → Option SignalMessage
  unfolding quote_of deletion_of sent_quote is_blank
  convert_sent e m =
      if is_blank m
      then none
      else some (record {
        timestamp = m.timestamp;
        sender = sender_of e m.group_id;
        message_id = decimal m.timestamp;
        message = or_emoji m.message m.reaction;
        attachments = paths m.attachments;
        quoted = quote_of (sent_quote m);
        reaction = m.reaction;
        deletion = deletion_of m.remote_delete;
        receipt = none;
      })

  unfoldable pub receipt_message : Envelope → RestReceipt → ℕ → SignalMessage
  receipt_message e r target = record {
    timestamp = e.timestamp;
    sender = e.source;
    message_id = decimal e.timestamp;
    message = [];
    attachments = [];
    quoted = none;
    reaction = none;
    deletion = none;
    receipt = some (record {
      target_timestamp = target;
      is_delivery = r.is_delivery;
      is_read = r.is_read;
      is_viewed = r.is_viewed;
    });
  }

  -- convertReceiptMessageToSignalMessages
  unfoldable pub convert_receipt : Envelope → RestReceipt → List SignalMessage
  unfolding receipt_message
  convert_receipt e r =
      let targets = if no_items r.timestamps then r.when ∷ [] else r.timestamps in
      map (receipt_message e r) targets

  -- A data message whose quote is missing takes that of the sent message beside it.
  abbrev pub with_quote : SignalMessage → Option SentMessage → SignalMessage
  with_quote m none = m
  with_quote m (some sent) = record m { quoted = first_of m.quoted (quote_of (sent_quote sent)) }

  abbrev pub listed {ℓ} : {A : Type ℓ} → Option A → List A
  listed none = []
  listed (some a) = a ∷ []

  unfoldable pub convert : Envelope → List SignalMessage
  unfolding convert_data convert_sent convert_receipt
  convert e = elim e.data_message [
    | some m ↦ with_quote (convert_data e m) e.sent_message ∷ []
    | none ↦ elim e.sent_message [
      | some sent ↦ listed (convert_sent e sent)
      | none ↦ elim e.receipt [ none ↦ [] | some r ↦ convert_receipt e r ]
    ]
  ]

  -- ConvertRestMessages
  unfoldable pub convert_all : List Envelope → List SignalMessage
  unfolding convert
  convert_all [] = []
  convert_all (e ∷ rest) = convert e ++ convert_all rest
