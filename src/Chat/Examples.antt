-- ===== src/Chat/Examples.antt =====
-- Runs of the processing of messages.
use multi_channel_ai_gateway.Base.{
  ℕ, zero, suc, String, true, false, none, some, List, [], ◌∷◌, ◌≡◌, refl, arith, All, count_where,
  find, update_where, select_where,
}
use multi_channel_ai_gateway.Base.Text.{
  text_length, strip, lstrip, rstrip, take_chars, drop_chars, starts_with,
}
use multi_channel_ai_gateway.Models.{MessageStatus}
use multi_channel_ai_gateway.Chat.Rows.{ChatMessage, ChatDb}
use multi_channel_ai_gateway.Chat.Split.{
  split_reply, split_long, split_loop, cut_at, chunk_at, rfind,
}
use multi_channel_ai_gateway.Chat.Merge.{
  restore_merged_messages, merge_pending_messages, mark_merged, claim_siblings, sibling_ids,
  listed_id, release_merged_messages,
}
use multi_channel_ai_gateway.Chat.Pieces.{Fits, split_reply-Fits}
use multi_channel_ai_gateway.Chat.Calls.{
  CallOutcome, delivered, raised, ChatEnv, account_of_row, identity_for, settle_sent, settle_ended,
  send_all, after_call,
}
use multi_channel_ai_gateway.Chat.Deliver.{
  deliver_answer, deliver_from, answer_to, chunks_to, released,
}
use multi_channel_ai_gateway.Chat.Process.{
  Attempt, gave, Run, process_message, process_found, process_row, answer_message, account_answer,
  bind_answer, qr_answer, text_answer, slash_answer, command_answer, free_answer, model_answer,
  settle_failure, note_failure,
}
use multi_channel_ai_gateway.Chat.Careful.{sent_for}
use multi_channel_ai_gateway.Chat.Steps.{processed, here, next}
use multi_channel_ai_gateway.Chat.Once.{process_message-once}

abbrev env : ChatEnv
env = record {
  wecom_open_kfid = "kf1";
  decrypt_secret = λ s. s;
  redact_error = λ s. s;
  message_chunk_chars = 4;
}

abbrev message : String → String → ChatMessage
message id content = record {
  id = id;
  conversation_id = some "c1";
  user_id = some "u1";
  channel = "wechat_clawbot";
  external_message_id = some id;
  open_kfid = none;
  instance_id = some "i1";
  content = some content;
  media = [];
  status = MessageStatus.queued;
  merged_into = none;
  reply_dispatch = none;
  error = none;
}

abbrev chat : ChatDb
chat = record {
  messages = message "m1" "hello" ∷ message "m2" "are you there" ∷ [];
  outbound = [];
  identities =
      record {
        user_id = some "u1";
        channel = "wechat_clawbot";
        account_id = "i1";
        external_id_encrypted = "wx1";
      }
      ∷ [];
  sends = [];
}

abbrev answering : Attempt String → (ℕ → CallOutcome) → Run
answering model outcomes = record {
  account = gave none;
  bind = gave none;
  qr = gave none;
  decision = record {
    allowed = true;
    silent_block = false;
    blocked_strategy = "redirect_to_ai";
    source = "default";
  };
  command = gave none;
  maintenance = none;
  model = model;
  outcomes = outcomes;
}

-- The second call raises: one piece of the reply is out.
second_fails : ℕ → CallOutcome
second_fails zero = delivered "x1"
second_fails (suc n) = raised "timeout"

half_sent : ChatDb
half_sent = (process_message env (answering (gave (some "one. two.")) second_fails) "m1" chat).0

split_reply-Fits_example :
    (pieces : List String) × (split_reply "one. two." 4 ≡ some pieces) × All (Fits 4) pieces
split_reply-Fits_example = split_reply-Fits "one. two." 4 (omega arith)

two_calls : count_where (sent_for "m1") half_sent.sends ≡ 2
unfolding half_sent second_fails process_message process_found process_row answer_message
    account_answer bind_answer qr_answer text_answer slash_answer command_answer free_answer
    model_answer find update_where settle_failure note_failure restore_merged_messages
    merge_pending_messages mark_merged claim_siblings sibling_ids listed_id select_where
    deliver_answer deliver_from account_of_row answer_to identity_for chunks_to split_reply
    split_long split_loop cut_at chunk_at strip lstrip rstrip text_length take_chars drop_chars
    starts_with rfind settle_sent settle_ended send_all after_call released release_merged_messages
    count_where
two_calls = refl

process_message-once_example :
    (process_message env
      (answering (gave (some "three")) (λ n. delivered "x2"))
      "m1"
      half_sent).0.sends
    ≡ half_sent.sends
unfolding half_sent
process_message-once_example =
    process_message-once env (answering (gave (some "three")) (λ n. delivered "x2")) "m1" chat
      half_sent refl refl
      (next here (processed chat (answering (gave (some "one. two.")) second_fails) "m1" refl))
      (λ e. absurd (omega (arith, e, two_calls)))
