-- ===== src/Chat/OneRun.antt =====
-- One run of `process_message` of services.py, with the handler of its errors.
use multi_channel_ai_gateway.Base.{
  String, true, false, Option, none, some, ◌≡◌, refl, ap, ◌∙◌, ◌==◌, ◌⊎◌, inl, inr, Bool-cases,
  find, find-All, count_where,
}
use multi_channel_ai_gateway.Models.{MessageStatus}
use multi_channel_ai_gateway.Chat.Rows.{
  ChatMessage, ChatDb, save_chat, has_message_id, is_sent, may_process,
}
use multi_channel_ai_gateway.Chat.Calls.{Ended, finished, failed, crashed, ChatEnv}
use multi_channel_ai_gateway.Chat.Deliver.{is_started}
use multi_channel_ai_gateway.Chat.Process.{
  Run, answer_message, note_failure, settle_failure, taken_up,
}
use multi_channel_ai_gateway.Chat.Fence.{FencedAs, Fence, save-Fence, restore-Fence}
use multi_channel_ai_gateway.Chat.Careful.{Careful, sent_for}
use multi_channel_ai_gateway.Chat.Answered.{answer_message-Careful}

-- A message either has had no call made for it, or stands behind its fence.
abbrev pub Safe : String → ChatDb → Type 0
Safe id db = (count_where (sent_for id) db.sends ≡ 0) ⊎ Fence id db.messages

note-Fence :
    (env : ChatEnv) (id e : String) (found : Option ChatMessage) (db : ChatDb)
    → ((row : ChatMessage) → found ≡ some row → FencedAs id row)
    → Fence id db.messages
    → Fence id (note_failure env e found db).messages
unfolding note_failure
note-Fence env id e none db own h = h
note-Fence env id e (some row) db own h = elim (Bool-cases (is_sent row.status)) [
  | inl y ↦ rw y h
  | inr f ↦ rw f (
      save-Fence id
        (record row { status = MessageStatus.failed; error = some (env.redact_error e) }) db
        (λ p. rw f at (own row refl p)) h)
]

note-sends :
    (env : ChatEnv) (e : String) (found : Option ChatMessage) (db : ChatDb)
    → (note_failure env e found db).sends ≡ db.sends
unfolding note_failure
note-sends env e none db = refl
note-sends env e (some row) db = elim (Bool-cases (is_sent row.status)) [
  | inl y ↦ rw y refl
  | inr f ↦ rw f refl
]

settle-Fence :
    (env : ChatEnv) (id j : String) (r : ChatDb × Ended)
    → (j == "") ≡ false
    → Fence id r.0.messages
    → Fence id (settle_failure env j r).0.messages
unfolding settle_failure
settle-Fence env id j (db, finished) named h = h
settle-Fence env id j (db, crashed) named h = h
settle-Fence env id j (db, failed e) named h =
    restore-Fence id j (note_failure env e (find (has_message_id j) db.messages) db).messages named
      (note-Fence env id e (find (has_message_id j) db.messages) db
        (λ row found. find-All (FencedAs id) (has_message_id j) db.messages h found) h)

settle-sends :
    (env : ChatEnv) (j : String) (r : ChatDb × Ended) → (settle_failure env j r).0.sends ≡ r.0.sends
unfolding settle_failure
settle-sends env j (db, finished) = refl
settle-sends env j (db, crashed) = refl
settle-sends env j (db, failed e) = note-sends env e (find (has_message_id j) db.messages) db

pub unsent_of-may_process : (s : MessageStatus) → may_process s ≡ true → is_sent s ≡ false
unsent_of-may_process MessageStatus.queued h = refl
unsent_of-may_process MessageStatus.failed h = refl
unsent_of-may_process MessageStatus.processing h = refl
unsent_of-may_process MessageStatus.sent h = absurd (cc h)
unsent_of-may_process MessageStatus.received h = refl
unsent_of-may_process MessageStatus.ignored h = refl
unsent_of-may_process MessageStatus.dead h = refl

pub taken_up-FencedAs :
    (id : String) (row : ChatMessage)
    → is_sent row.status ≡ false
    → FencedAs id row
    → FencedAs id (taken_up row)
taken_up-FencedAs id row unsent own p = rw unsent at (own p)

-- One run for the message of `row`, which is neither merged nor sent.
module _ (env : ChatEnv) (run : Run) (row : ChatMessage) (db : ChatDb)
    (named : (row.id == "") ≡ false) (unsent : is_sent row.status ≡ false) where
  abbrev answered : ChatDb × Ended
  answered = answer_message env run (taken_up row) (save_chat (taken_up row) db)

  careful : Careful (taken_up row) (save_chat (taken_up row) db) answered
  careful = answer_message-Careful env run (taken_up row) named refl (save_chat (taken_up row) db)

  pub run-Fence :
      (id : String)
      → FencedAs id row
      → Fence id db.messages
      → Fence id (settle_failure env row.id answered).0.messages
  run-Fence id own h = settle-Fence env id row.id answered named (
      careful.keeps id (taken_up-FencedAs id row unsent own)
        (save-Fence id (taken_up row) db (taken_up-FencedAs id row unsent own) h))

  pub run-count :
      (id : String)
      → (row.id == id) ≡ false
      → count_where (sent_for id) (settle_failure env row.id answered).0.sends
        ≡ count_where (sent_for id) db.sends
  run-count id differ =
      ap (count_where (sent_for id)) (settle-sends env row.id answered) ∙ careful.others id differ

  pub run-own :
      Safe row.id (settle_failure env row.id answered).0
      ⊎ ((settle_failure env row.id answered).0.sends ≡ db.sends)
  run-own = elim careful.raises [
    | inl same ↦ inr (settle-sends env row.id answered ∙ same)
    | inr fence ↦ inl (inr (settle-Fence env row.id row.id answered named fence))
  ]

  pub run-quiet : is_started row ≡ true → (settle_failure env row.id answered).0.sends ≡ db.sends
  run-quiet started = settle-sends env row.id answered ∙ careful.quiet started
