-- ===== src/Chat/Rows.antt =====
-- src/wecom_ai_gateway/models.py: the rows that the processing of a message reads and writes.
-- Inbound and outbound rows of the table `messages` are kept apart, since no query of this part
-- reads an outbound row. Of `metadata_json` the entries that the code reads are columns.
use multi_channel_ai_gateway.Base.{
  none, String, Bool, true, false, Option, some, List, ◌==◌, update_where,
}
use multi_channel_ai_gateway.Models.{MessageStatus}

pub record ChatMessage : Type 0 where
  pub id : String
  pub conversation_id : Option String
  pub user_id : Option String
  pub channel : String
  pub external_message_id : Option String
  pub open_kfid : Option String
  pub instance_id : Option String
  pub content : Option String
  pub media : List String
  pub status : MessageStatus
  pub merged_into : Option String
  pub reply_dispatch : Option String
  pub error : Option String

-- What goes out: a text, one of the media of the message, or the picture of a QR code.
pub data Body : Type 0 where
  words medium : String → Body
  qr_image : Body

pub record Outbound : Type 0 where
  pub conversation_id : Option String
  pub user_id : Option String
  pub channel : String
  pub account_id : String
  pub external_message_id : String
  pub body : Body
  pub reply_to : Option String

pub record Identity : Type 0 where
  pub user_id : Option String
  pub channel : String
  pub account_id : String
  pub external_id_encrypted : String

-- A call of a channel's client, whatever came of it.
pub record Send : Type 0 where
  pub message_id : String
  pub channel : String
  pub account_id : String
  pub external_id : String
  pub body : Body

-- The rows as committed, and the calls that the process has made so far.
pub record ChatDb : Type 0 where
  pub messages : List ChatMessage
  pub outbound : List Outbound
  pub identities : List Identity
  pub sends : List Send

abbrev pub has_message_id : String → ChatMessage → Bool
has_message_id id m = m.id == id

abbrev pub save_chat : ChatMessage → ChatDb → ChatDb
save_chat m db = record db { messages = update_where (has_message_id m.id) (λ _. m) db.messages }

abbrev pub is_queued : MessageStatus → Bool
is_queued MessageStatus.queued = true
is_queued _ = false

abbrev pub is_in_process : MessageStatus → Bool
is_in_process MessageStatus.processing = true
is_in_process _ = false

abbrev pub is_sent : MessageStatus → Bool
is_sent MessageStatus.sent = true
is_sent _ = false

abbrev pub may_process : MessageStatus → Bool
may_process MessageStatus.queued = true
may_process MessageStatus.failed = true
may_process MessageStatus.processing = true
may_process _ = false

-- `column == value`: where the value is None, the query asks for NULL.
abbrev pub same_value : Option String → Option String → Bool
same_value none none = true
same_value (some a) (some b) = a == b
same_value _ _ = false
