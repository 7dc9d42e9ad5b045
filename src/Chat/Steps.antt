-- ===== src/Chat/Steps.antt =====
-- What happens to the messages of services.py over time, in any order.
-- Two runs for messages never overlap: worker.py holds a lock for each message, and what a run
-- reads of other messages is what the last run has committed.
use multi_channel_ai_gateway.Base.{
  String, Bool, true, false, not, ◌&&◌, Option, none, List, ◌≡◌, ◌==◌, update_where, count_where,
  insert_row,
}
use multi_channel_ai_gateway.Models.{MessageStatus}
use multi_channel_ai_gateway.Chat.Rows.{ChatMessage, ChatDb, has_message_id, is_sent}
use multi_channel_ai_gateway.Chat.Calls.{ChatEnv}
use multi_channel_ai_gateway.Chat.Process.{Run, process_message}
use multi_channel_ai_gateway.Chat.Careful.{sent_for}

unfoldable pub is_dead_message : MessageStatus → Bool
is_dead_message MessageStatus.dead = true
is_dead_message _ = false

-- `fail_task` of tasks.py at the last attempt, for a message whose reply is not out.
unfoldable pub bury_chat : String → Option String → List ChatMessage → List ChatMessage
bury_chat id e messages =
    update_where (λ m. has_message_id id m && not (is_sent m.status))
      (λ m. record m { status = MessageStatus.dead; error = e }) messages

-- `replay_task` of tasks.py.
unfoldable pub revive_chat : String → List ChatMessage → List ChatMessage
unfolding is_dead_message
revive_chat id messages =
    update_where (λ m. has_message_id id m && is_dead_message m.status)
      (λ m. record m { status = MessageStatus.failed; error = none }) messages

-- A new message has an identifier for which nothing has been sent.
pub data Step (env : ChatEnv) : ChatDb → ChatDb → Type 0 where
  processed :
      (db : ChatDb) (run : Run) (id : String)
      → (id == "") ≡ false
      → Step env db (process_message env run id db).0
  buried :
      (db : ChatDb) (id : String) (e : Option String)
      → Step env db (record db { messages = bury_chat id e db.messages })
  revived :
      (db : ChatDb) (id : String)
      → Step env db (record db { messages = revive_chat id db.messages })
  received :
      (db : ChatDb) (m : ChatMessage)
      → count_where (sent_for m.id) db.sends ≡ 0
      → Step env db (record db { messages = insert_row m db.messages })

pub data Reach (env : ChatEnv) (start : ChatDb) : ChatDb → Type 0 where
  here : Reach env start start
  next : {db db' : ChatDb} → Reach env start db → Step env db db' → Reach env start db'
