-- ===== src/Chat/Answered.antt =====
-- Answering a message in `process_message` of services.py, whatever its commands and the model give.
use multi_channel_ai_gateway.Base.{
  String, Bool, false, Option, none, some, ◌≡◌, refl, ◌==◌, inl, if◌then◌else◌, or_else,
}
use multi_channel_ai_gateway.Base.Text.{starts_with}
use multi_channel_ai_gateway.Models.{MessageStatus}
use multi_channel_ai_gateway.Chat.Rows.{ChatMessage, ChatDb, save_chat, is_sent}
use multi_channel_ai_gateway.Chat.Merge.{merge_pending_messages}
use multi_channel_ai_gateway.Chat.Calls.{Ended, finished, failed, ChatEnv}
use multi_channel_ai_gateway.Chat.Deliver.{deliver_answer}
use multi_channel_ai_gateway.Chat.Process.{
  Attempt, gave, threw, Run, model_answer, free_answer, command_answer, slash_answer, text_answer,
  stored_content, qr_answer, bind_answer, account_answer, answer_message,
}
use multi_channel_ai_gateway.Chat.Fence.{save-Fence, merge_pending-Fence}
use multi_channel_ai_gateway.Chat.Careful.{Careful, if-Careful, same-Careful}
use multi_channel_ai_gateway.Chat.Answers.{
  deliver_reply-Careful, deliver_qr-Careful, deliver_answer-Careful,
}

module _ (env : ChatEnv) (run : Run) (row : ChatMessage) (named : (row.id == "") ≡ false)
    (unsent : is_sent row.status ≡ false) where
  -- The merge changes other rows before the model's answer is delivered.
  merged-Careful :
      (db : ChatDb) (r : ChatDb × Ended)
      → Careful row (record db { messages = merge_pending_messages row 10 (λ m. m) db.messages }) r
      → Careful row db r
  merged-Careful db r c = record {
    keeps = λ id own all. c.keeps id own (merge_pending-Fence id row 10 db.messages named all);
    quiet = c.quiet;
    raises = c.raises;
    others = c.others;
  }

  model_answer-Careful :
      (answer : Attempt String) (db : ChatDb) → Careful row db (model_answer env run row answer db)
  unfolding model_answer
  model_answer-Careful (threw e) db = same-Careful row db (failed e)
  model_answer-Careful (gave none) db = deliver_answer-Careful env run.outcomes row db ""
  model_answer-Careful (gave (some t)) db = deliver_answer-Careful env run.outcomes row db t

  free_answer-Careful :
      (notice : Option String) (db : ChatDb) → Careful row db (free_answer env run row notice db)
  unfolding free_answer
  free_answer-Careful (some t) db = deliver_answer-Careful env run.outcomes row db t
  free_answer-Careful none db =
      let merged = record db { messages = merge_pending_messages row 10 (λ m. m) db.messages } in
      merged-Careful db (model_answer env run row run.model merged)
        (model_answer-Careful run.model merged)

  command_answer-Careful :
      (reply : Attempt String) (db : ChatDb) → Careful row db (command_answer env run row reply db)
  unfolding command_answer
  command_answer-Careful (threw e) db = same-Careful row db (failed e)
  command_answer-Careful (gave none) db = free_answer-Careful run.maintenance db
  command_answer-Careful (gave (some t)) db = deliver_answer-Careful env run.outcomes row db t

  ignored-Careful :
      (db : ChatDb)
      → Careful row db
          (save_chat (record row { status = MessageStatus.ignored; error = none }) db, finished)
  ignored-Careful db = record {
    keeps = λ id own all.
        save-Fence id (record row { status = MessageStatus.ignored; error = none }) db
          (λ p. rw unsent at (own p)) all;
    quiet = λ h. refl;
    raises = inl refl;
    others = λ id h. refl;
  }

  slash_answer-Careful : (db : ChatDb) → Careful row db (slash_answer env run row db)
  unfolding slash_answer
  slash_answer-Careful db =
      let blocked = deliver_answer env run.outcomes row "该指令在当前模式下不可用。" db in
      let free = free_answer env run row run.maintenance db in
      let ignore : ChatDb × Ended =
        (save_chat (record row { status = MessageStatus.ignored; error = none }) db, finished) in
      let strategy = run.decision.blocked_strategy == "ignore" in
      if-Careful row db run.decision.allowed (command_answer env run row run.command db)
        (if run.decision.silent_block then if strategy then ignore else free else blocked)
        (command_answer-Careful run.command db)
        (if-Careful row db run.decision.silent_block (if strategy then ignore else free) blocked
          (if-Careful row db strategy ignore free (ignored-Careful db)
            (free_answer-Careful run.maintenance db))
          (deliver_answer-Careful env run.outcomes row db "该指令在当前模式下不可用。"))

  text_answer-Careful : (db : ChatDb) → Careful row db (text_answer env run row db)
  unfolding text_answer
  text_answer-Careful db =
      if-Careful row db (starts_with (or_else row.content "") "/") (slash_answer env run row db)
        (command_answer env run row run.command db) (slash_answer-Careful db)
        (command_answer-Careful run.command db)

  qr_answer-Careful :
      (qr : Attempt (String × Bool)) (db : ChatDb) → Careful row db (qr_answer env run row qr db)
  unfolding qr_answer
  qr_answer-Careful (threw e) db = same-Careful row db (failed e)
  qr_answer-Careful (gave none) db = text_answer-Careful db
  qr_answer-Careful (gave (some (t, image))) db = deliver_qr-Careful env run.outcomes row db t image

  bind_answer-Careful :
      (reply : Attempt String) (db : ChatDb) → Careful row db (bind_answer env run row reply db)
  unfolding bind_answer
  bind_answer-Careful (threw e) db = same-Careful row db (failed e)
  bind_answer-Careful (gave none) db = qr_answer-Careful run.qr db
  bind_answer-Careful (gave (some t)) db = deliver_reply-Careful env run.outcomes row db t t

  account_answer-Careful :
      (reply : Attempt String) (db : ChatDb) → Careful row db (account_answer env run row reply db)
  unfolding account_answer
  account_answer-Careful (threw e) db = same-Careful row db (failed e)
  account_answer-Careful (gave none) db = bind_answer-Careful run.bind db
  account_answer-Careful (gave (some t)) db =
      deliver_reply-Careful env run.outcomes row db t (stored_content t)

  pub answer_message-Careful : (db : ChatDb) → Careful row db (answer_message env run row db)
  unfolding answer_message
  answer_message-Careful db = account_answer-Careful run.account db
