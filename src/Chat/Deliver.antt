-- ===== src/Chat/Deliver.antt =====
-- src/wecom_ai_gateway/services.py: sending a reply behind its fence, `_deliver_reply`, the QR code
-- branch and the last part of `process_message`. The code for WeCom and that for the other channels
-- differ in the client and in where the account stands.
use multi_channel_ai_gateway.Base.{
  ℕ, String, Bool, ◌&&◌, Option, none, some, List, [], ◌∷◌, ◌++◌, ◌==◌, is_just, if◌then◌else◌, leb,
  map,
}
use multi_channel_ai_gateway.Base.Text.{text_length, strip}
use multi_channel_ai_gateway.Chat.Rows.{
  ChatMessage, Body, words, medium, qr_image, Identity, Send, ChatDb, save_chat,
}
use multi_channel_ai_gateway.Chat.Split.{split_reply}
use multi_channel_ai_gateway.Chat.Merge.{release_merged_messages}
use multi_channel_ai_gateway.Chat.Calls.{
  ChatEnv, Ended, CallOutcome, Sent, account_of_row, crashed, delivered, failed, finished,
  identity_for, killed, raised, send_all, settle_sent,
}

abbrev pub is_started : ChatMessage → Bool
is_started row = is_just row.reply_dispatch "started"

abbrev pub fenced : ChatMessage → ChatMessage
fenced row = record row { reply_dispatch = some "started" }

abbrev pub unknown_dispatch : Ended
unknown_dispatch = failed "回复投递状态未知，已停止自动重发以避免重复消息"

abbrev pub no_identity : Ended
no_identity = failed "找不到与入站渠道实例匹配的用户身份"

abbrev pub send_of : ChatEnv → ChatMessage → Identity → Body → Send
send_of env row i body = record {
  message_id = row.id;
  channel = row.channel;
  account_id = i.account_id;
  external_id = env.decrypt_secret i.external_id_encrypted;
  body = body;
}

abbrev pub stored_as : String → Body → Body
stored_as stored_content body = words stored_content

-- The fence stays at `started` in the row: the code changes the dictionary in place after the first
-- commit, and assigns the same object, which the session does not write again.
unfoldable pub deliver_to :
    ChatEnv
    → (ℕ → CallOutcome)
    → ChatMessage
    → String
    → String
    → Option Identity
    → ChatDb
    → ChatDb × Ended
deliver_to env outcomes row content stored_content none db = (db, no_identity)
deliver_to env outcomes row content stored_content (some i) db =
    settle_sent row row.reply_dispatch (stored_as stored_content)
      (send_all outcomes 0 (send_of env row i (words content) ∷ [])) db

-- `_deliver_reply`
unfoldable pub deliver_reply :
    ChatEnv → (ℕ → CallOutcome) → ChatMessage → String → String → ChatDb → ChatDb × Ended
deliver_reply env outcomes row content stored_content db =
    if is_started row
    then (db, unknown_dispatch)
    else deliver_to env outcomes (fenced row) content stored_content
        (identity_for row (account_of_row env row) db) (save_chat (fenced row) db)

-- The picture follows the text on WeCom. An error of that call is only logged.
unfoldable pub with_image : Send → CallOutcome → Sent → Sent
with_image x (delivered id) sent = record {
  made = sent.made ++ x ∷ [];
  ended = finished;
  returned = sent.returned ++ (x, id) ∷ [];
}
with_image x (raised e) sent = record sent { made = sent.made ++ x ∷ [] }
with_image x killed sent = record sent { made = sent.made ++ x ∷ []; ended = crashed }

unfoldable pub text_ended : Bool → Send → CallOutcome → Sent → Ended → Sent
text_ended image x outcome sent finished = if image then with_image x outcome sent else sent
text_ended image x outcome sent (failed e) = sent
text_ended image x outcome sent crashed = sent

unfoldable pub after_text : Bool → Send → CallOutcome → Sent → Sent
after_text image x outcome sent = text_ended image x outcome sent sent.ended

abbrev pub as_sent : Body → Body
as_sent body = body

unfoldable pub qr_to :
    ChatEnv
    → (ℕ → CallOutcome)
    → ChatMessage
    → String
    → Bool
    → Option Identity
    → ChatDb
    → ChatDb × Ended
qr_to env outcomes row content image none db = (db, no_identity)
qr_to env outcomes row content image (some i) db =
    settle_sent row row.reply_dispatch as_sent
      (after_text (image && (row.channel == "wecom_kf")) (send_of env row i qr_image) (outcomes 1)
        (send_all outcomes 0 (send_of env row i (words content) ∷ [])))
      db

-- The branch of `/qr clawbot`, which leaves the fence at `started`.
unfoldable pub deliver_qr :
    ChatEnv → (ℕ → CallOutcome) → ChatMessage → String → Bool → ChatDb → ChatDb × Ended
deliver_qr env outcomes row content image db =
    if is_started row
    then (db, unknown_dispatch)
    else qr_to env outcomes (fenced row) content image
        (identity_for row (account_of_row env row) db) (save_chat (fenced row) db)

-- The messages that were merged into this one are released after its own commit.
unfoldable pub released : ChatMessage → ChatDb × Ended → ChatDb × Ended
released row (db, finished) =
    (record db { messages = release_merged_messages row db.messages }, finished)
released row (db, failed e) = (db, failed e)
released row (db, crashed) = (db, crashed)

unfoldable pub chunks_to :
    ChatEnv
    → (ℕ → CallOutcome)
    → ChatMessage
    → Identity
    → Option (List String)
    → ChatDb
    → ChatDb × Ended
chunks_to env outcomes row i none db = (db, crashed)
chunks_to env outcomes row i (some chunks) db = released row (
    settle_sent row row.reply_dispatch as_sent
      (send_all outcomes 0 (
        map (λ c. send_of env row i (words c)) chunks
        ++ map (λ m. send_of env row i (medium m)) row.media))
      db)

-- A reply is split only if it is longer than a chunk; a split that does not end is a crash.
abbrev pub chunks_of : ChatEnv → String → Option (List String)
chunks_of env answer =
    if leb (text_length answer) env.message_chunk_chars
    then some (answer ∷ [])
    else split_reply answer env.message_chunk_chars

unfoldable pub answer_to :
    ChatEnv → (ℕ → CallOutcome) → ChatMessage → String → Option Identity → ChatDb → ChatDb × Ended
answer_to env outcomes row answer none db = (db, no_identity)
answer_to env outcomes row answer (some i) db =
    if answer == ""
    then (db, failed "未生成可发送的回复内容，将按任务策略重试")
    else if is_started row
    then (db, unknown_dispatch)
    else chunks_to env outcomes (fenced row) i (chunks_of env answer) (save_chat (fenced row) db)

unfoldable pub deliver_from :
    ChatEnv → (ℕ → CallOutcome) → ChatMessage → String → Option String → ChatDb → ChatDb × Ended
deliver_from env outcomes row answer none db = (db, failed "入站消息缺少渠道实例标识")
deliver_from env outcomes row answer (some account) db =
    answer_to env outcomes row (strip answer) (identity_for row (some account) db) db

-- The last part of `process_message`, from the account to the release of merged messages.
unfoldable pub deliver_answer :
    ChatEnv → (ℕ → CallOutcome) → ChatMessage → String → ChatDb → ChatDb × Ended
deliver_answer env outcomes row answer db =
    deliver_from env outcomes row answer (account_of_row env row) db
