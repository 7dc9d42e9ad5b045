-- ===== src/Chat/Process.antt =====
-- src/wecom_ai_gateway/services.py: `process_message`.
-- What the parts of the program that are not modelled here return in one run (the commands and the
-- model) is given from outside; each of them may raise.
use multi_channel_ai_gateway.Base.{
  ℕ, String, Bool, true, false, Option, none, some, ◌==◌, if◌then◌else◌, find, or_else,
}
use multi_channel_ai_gateway.Base.Text.{starts_with, contains}
use multi_channel_ai_gateway.Models.{MessageStatus}
use multi_channel_ai_gateway.Policy.Decision.{CommandDecision}
use multi_channel_ai_gateway.Chat.Rows.{
  ChatMessage, ChatDb, save_chat, has_message_id, is_sent, may_process,
}
use multi_channel_ai_gateway.Chat.Merge.{merge_pending_messages, restore_merged_messages}
use multi_channel_ai_gateway.Chat.Calls.{CallOutcome, Ended, finished, failed, crashed, ChatEnv}
use multi_channel_ai_gateway.Chat.Deliver.{deliver_reply, deliver_qr, deliver_answer}

-- What a call inside the program returned; `none` is None, or a command that is not handled.
pub data Attempt {ℓ} (A : Type ℓ) : Type ℓ where
  gave : Option A → Attempt A
  threw : String → Attempt A

-- The results of one run. `qr` comes with whether it has a picture, `decision` is that of policy.py, and `maintenance` the message of that mode where
-- it is on.
pub record Run : Type 0 where
  pub account : Attempt String
  pub bind : Attempt String
  pub qr : Attempt (String × Bool)
  pub decision : CommandDecision
  pub command : Attempt String
  pub maintenance : Option String
  pub model : Attempt String
  pub outcomes : ℕ → CallOutcome

unfoldable pub model_answer : ChatEnv → Run → ChatMessage → Attempt String → ChatDb → ChatDb × Ended
model_answer env run row (threw e) db = (db, failed e)
model_answer env run row (gave none) db = deliver_answer env run.outcomes row "" db
model_answer env run row (gave (some answer)) db = deliver_answer env run.outcomes row answer db

-- The answer of the maintenance mode, or that of the model for all messages that wait.
unfoldable pub free_answer : ChatEnv → Run → ChatMessage → Option String → ChatDb → ChatDb × Ended
free_answer env run row (some notice) db = deliver_answer env run.outcomes row notice db
free_answer env run row none db =
    model_answer env run row run.model
      (record db { messages = merge_pending_messages row 10 (λ m. m) db.messages })

unfoldable pub command_answer :
    ChatEnv → Run → ChatMessage → Attempt String → ChatDb → ChatDb × Ended
command_answer env run row (threw e) db = (db, failed e)
command_answer env run row (gave none) db = free_answer env run row run.maintenance db
command_answer env run row (gave (some reply)) db = deliver_answer env run.outcomes row reply db

unfoldable pub slash_answer : ChatEnv → Run → ChatMessage → ChatDb → ChatDb × Ended
slash_answer env run row db =
    if run.decision.allowed
    then command_answer env run row run.command db
    else if run.decision.silent_block
    then if run.decision.blocked_strategy == "ignore"
      then (save_chat (record row { status = MessageStatus.ignored; error = none }) db, finished)
      else free_answer env run row run.maintenance db
    else deliver_answer env run.outcomes row "该指令在当前模式下不可用。" db

unfoldable pub text_answer : ChatEnv → Run → ChatMessage → ChatDb → ChatDb × Ended
text_answer env run row db =
    if starts_with (or_else row.content "") "/"
    then slash_answer env run row db
    else command_answer env run row run.command db

unfoldable pub qr_answer :
    ChatEnv → Run → ChatMessage → Attempt (String × Bool) → ChatDb → ChatDb × Ended
qr_answer env run row (threw e) db = (db, failed e)
qr_answer env run row (gave none) db = text_answer env run row db
qr_answer env run row (gave (some (text, image))) db = deliver_qr env run.outcomes row text image db

unfoldable pub bind_answer : ChatEnv → Run → ChatMessage → Attempt String → ChatDb → ChatDb × Ended
bind_answer env run row (threw e) db = (db, failed e)
bind_answer env run row (gave none) db = qr_answer env run row run.qr db
bind_answer env run row (gave (some reply)) db = deliver_reply env run.outcomes row reply reply db

-- A link is sent but not stored.
unfoldable pub stored_content : String → String
stored_content reply =
    if contains reply "#activate="
    then "[账号激活链接已发送]"
    else if contains reply "#reset="
    then "[密码重置链接已发送]"
    else reply

unfoldable pub account_answer :
    ChatEnv → Run → ChatMessage → Attempt String → ChatDb → ChatDb × Ended
unfolding stored_content
account_answer env run row (threw e) db = (db, failed e)
account_answer env run row (gave none) db = bind_answer env run row run.bind db
account_answer env run row (gave (some reply)) db =
    deliver_reply env run.outcomes row reply (stored_content reply) db

-- The body of the `try` block.
unfoldable pub answer_message : ChatEnv → Run → ChatMessage → ChatDb → ChatDb × Ended
answer_message env run row db = account_answer env run row run.account db

-- The handler: the error is kept unless the reply has been sent, and merged messages wait again.
unfoldable pub note_failure : ChatEnv → String → Option ChatMessage → ChatDb → ChatDb
note_failure env e none db = db
note_failure env e (some row) db =
    if is_sent row.status
    then db
    else save_chat (record row { status = MessageStatus.failed; error = some (env.redact_error e) })
        db

unfoldable pub settle_failure : ChatEnv → String → ChatDb × Ended → ChatDb × Ended
settle_failure env id (db, finished) = (db, finished)
settle_failure env id (db, crashed) = (db, crashed)
settle_failure env id (db, failed e) =
    let noted = note_failure env e (find (has_message_id id) db.messages) db in
    (record noted { messages = restore_merged_messages id noted.messages }, failed e)

abbrev pub merged_value : Option String → Bool
merged_value none = false
merged_value (some id) = if id == "" then false else true

-- `metadata.get("merged_into")`
abbrev pub is_merged : ChatMessage → Bool
is_merged row = merged_value row.merged_into

abbrev pub taken_up : ChatMessage → ChatMessage
taken_up row = record row { status = MessageStatus.processing }

unfoldable pub process_row : ChatEnv → Run → ChatMessage → ChatDb → ChatDb × Ended
process_row env run row db =
    if is_merged row
    then (save_chat (record row { status = MessageStatus.sent; error = none }) db, finished)
    else settle_failure env row.id
        (answer_message env run (taken_up row) (save_chat (taken_up row) db))

unfoldable pub process_found : ChatEnv → Run → Option ChatMessage → ChatDb → ChatDb × Ended
process_found env run none db = (db, finished)
process_found env run (some row) db =
    if may_process row.status then process_row env run row db else (db, finished)

unfoldable pub process_message : ChatEnv → Run → String → ChatDb → ChatDb × Ended
process_message env run id db = process_found env run (find (has_message_id id) db.messages) db
