-- ===== src/Chat/Calls.antt =====
-- src/wecom_ai_gateway/services.py: the calls of a channel's client that deliver a reply.
-- What comes of each call is given from outside.
use Prim.Native.String.{◌++◌ as cat}
use multi_channel_ai_gateway.Base.{
  ℕ, suc, String, Bool, ◌&&◌, Option, none, some, List, [], ◌∷◌, ◌++◌, ◌==◌, if◌then◌else◌, map,
  find, or_else,
}
use multi_channel_ai_gateway.Models.{MessageStatus}
use multi_channel_ai_gateway.Chat.Rows.{
  ChatMessage, Body, qr_image, Outbound, Identity, Send, ChatDb, save_chat, same_value,
}

-- The identifier that a call returns, the error that it raises, or the end of the process.
pub data CallOutcome : Type 0 where
  delivered raised : String → CallOutcome
  killed : CallOutcome

-- How a run ends; after `crashed` the rows are as last committed.
pub data Ended : Type 0 where
  finished : Ended
  failed : String → Ended
  crashed : Ended

pub record ChatEnv : Type 0 where
  pub wecom_open_kfid : String
  pub decrypt_secret : String → String
  pub redact_error : String → String
  pub message_chunk_chars : ℕ

abbrev non_empty : Option String → Option String
non_empty none = none
non_empty (some s) = if s == "" then none else some s

-- `account_id`, where an empty one is `none`.
unfoldable pub account_of_row : ChatEnv → ChatMessage → Option String
account_of_row env row =
    if row.channel == "wecom_kf"
    then non_empty (some (or_else (non_empty row.open_kfid) env.wecom_open_kfid))
    else non_empty row.instance_id

abbrev identity_is : ChatMessage → String → Identity → Bool
identity_is row account i =
    same_value i.user_id row.user_id && ((i.channel == row.channel) && (i.account_id == account))

unfoldable pub identity_for : ChatMessage → Option String → ChatDb → Option Identity
identity_for row none db = none
identity_for row (some account) db = find (identity_is row account) db.identities

-- The calls that were made, how they ended, and what they returned.
pub record Sent : Type 0 where
  pub made : List Send
  pub ended : Ended
  pub returned : List (Send × String)

abbrev pub one_sent : Send → Sent → String → Sent
one_sent x rest id = record {
  made = x ∷ rest.made;
  ended = rest.ended;
  returned = (x, id) ∷ rest.returned;
}

unfoldable pub after_call : Send → CallOutcome → Sent → Sent
after_call x (delivered id) rest = one_sent x rest id
after_call x (raised e) rest = record { made = x ∷ []; ended = failed e; returned = [] }
after_call x killed rest = record { made = x ∷ []; ended = crashed; returned = [] }

unfoldable pub send_all : (ℕ → CallOutcome) → ℕ → List Send → Sent
send_all outcomes n [] = record { made = []; ended = finished; returned = [] }
send_all outcomes n (x ∷ xs) = after_call x (outcomes n) (send_all outcomes (suc n) xs)

abbrev local_id : String → Body → String
local_id id qr_image = cat (cat "local:" id) ":media"
local_id id _ = cat "local:" id

-- The outbound row of a call, with the text that is stored for it.
abbrev pub outbound_of : ChatMessage → (Body → Body) → Send × String → Outbound
outbound_of row stored (x, id) = record {
  conversation_id = row.conversation_id;
  user_id = row.user_id;
  channel = row.channel;
  account_id = x.account_id;
  external_message_id = if id == "" then local_id row.id x.body else id;
  body = stored x.body;
  reply_to = row.external_message_id;
}

abbrev pub log_sends : List Send → ChatDb → ChatDb
log_sends made db = record db { sends = db.sends ++ made }

unfoldable pub settle_ended :
    ChatMessage → Option String → (Body → Body) → Sent → ChatDb → Ended → ChatDb × Ended
settle_ended row dispatch stored sent db finished = (
  save_chat (record row { status = MessageStatus.sent; error = none; reply_dispatch = dispatch })
      (record db {
        sends = db.sends ++ sent.made;
        outbound = db.outbound ++ map (outbound_of row stored) sent.returned;
      }),
  finished,
)
settle_ended row dispatch stored sent db (failed e) = (log_sends sent.made db, failed e)
settle_ended row dispatch stored sent db crashed = (log_sends sent.made db, crashed)

-- The commit after the last call, or nothing if a call has failed.
unfoldable pub settle_sent :
    ChatMessage → Option String → (Body → Body) → Sent → ChatDb → ChatDb × Ended
settle_sent row dispatch stored sent db = settle_ended row dispatch stored sent db sent.ended
