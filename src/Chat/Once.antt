-- ===== src/Chat/Once.antt =====
-- A reply of services.py is tried in one run at most.
use multi_channel_ai_gateway.Base.{
  String, Bool, true, false, not, ◌&&◌, ◌||◌, Option, none, some, List, [], ◌∷◌, ◌≡◌, ◌≢◌, refl,
  sym, ap, ◌∙◌, ◌==◌, ==-eq, ◌⊎◌, inl, inr, Bool-cases, All-append, All-update, find, find-All,
  find_sound, count_where, insert_row,
}
use mathlib.Core.Path.{subst}
use multi_channel_ai_gateway.Models.{MessageStatus}
use multi_channel_ai_gateway.Chat.Rows.{
  ChatMessage, ChatDb, save_chat, has_message_id, is_sent, may_process,
}
use multi_channel_ai_gateway.Chat.Calls.{ChatEnv}
use multi_channel_ai_gateway.Chat.Deliver.{is_started}
use multi_channel_ai_gateway.Chat.Process.{
  Run, answer_message, settle_failure, is_merged, taken_up, process_row, process_found,
  process_message,
}
use multi_channel_ai_gateway.Chat.Fence.{FencedAs, Fence, save-Fence, or_middle, and-right}
use multi_channel_ai_gateway.Chat.OneRun.{
  Safe, unsent_of-may_process, run-Fence, run-count, run-own, run-quiet,
}
use multi_channel_ai_gateway.Chat.Careful.{sent_for}
use multi_channel_ai_gateway.Chat.Steps.{
  is_dead_message, Step, processed, buried, revived, received, Reach, here, next, bury_chat,
  revive_chat,
}

-- The row of a merged message is written as sent, so that it is not answered by itself.
merged-Fence :
    (id : String) (row : ChatMessage) (db : ChatDb)
    → Fence id db.messages
    → Fence id (save_chat (record row { status = MessageStatus.sent; error = none }) db).messages
merged-Fence id row db h =
    save-Fence id (record row { status = MessageStatus.sent; error = none }) db
      (λ p. or_middle (is_started row) (is_merged row)) h

row-Safe :
    (env : ChatEnv) (run : Run) (id : String) (row : ChatMessage) (db : ChatDb)
    → (row.id == "") ≡ false
    → may_process row.status ≡ true
    → (Fence id db.messages → FencedAs id row)
    → Safe id db
    → Safe id (process_row env run row db).0
unfolding process_row
row-Safe env run id row db named may own safe = elim (Bool-cases (is_merged row)) [
  | inl y ↦ rw y (by_safe safe)
  | inr f ↦ rw f (alone (Bool-cases (row.id == id)) safe)
]
  where
    unsent : is_sent row.status ≡ false
    unsent = unsent_of-may_process row.status may

    by_safe :
        Safe id db
        → Safe id (save_chat (record row { status = MessageStatus.sent; error = none }) db)
    by_safe (inl zero) = inl zero
    by_safe (inr fence) = inr (merged-Fence id row db fence)

    after : ChatDb
    after =
        (settle_failure env row.id
          (answer_message env run (taken_up row) (save_chat (taken_up row) db))).0

    alone : ((row.id == id) ≡ true) ⊎ ((row.id == id) ≡ false) → Safe id db → Safe id after
    alone c (inr fence) = inr (run-Fence env run row db named unsent id (own fence) fence)
    alone (inr f) (inl zero) = inl (run-count env run row db named unsent id f ∙ zero)
    alone (inl y) (inl zero) = elim (run-own env run row db named unsent) [
      | inl safe' ↦ subst (λ i. Safe i after) (==-eq row.id id y) safe'
      | inr same ↦ inl (ap (count_where (sent_for id)) same ∙ zero)
    ]

found-Safe :
    (env : ChatEnv) (run : Run) (id j : String) (found : Option ChatMessage) (db : ChatDb)
    → (j == "") ≡ false
    → find (has_message_id j) db.messages ≡ found
    → Safe id db
    → Safe id (process_found env run found db).0
unfolding process_found
found-Safe env run id j none db named e safe = safe
found-Safe env run id j (some row) db named e safe = elim (Bool-cases (may_process row.status)) [
  | inr f ↦ rw f safe
  | inl y ↦
      let same : row.id ≡ j = ==-eq row.id j (find_sound (has_message_id j) db.messages e) in
      let named' = subst (λ i. (i == "") ≡ false) (sym same) named in
      rw y (
        row-Safe env run id row db named' y
          (λ fence. find-All (FencedAs id) (has_message_id j) db.messages fence e) safe)
]

bury-Fence :
    (id j : String) (e : Option String) (messages : List ChatMessage)
    → Fence id messages
    → Fence id (bury_chat j e messages)
unfolding bury_chat
bury-Fence id j e messages h =
    All-update (FencedAs id) (λ m. has_message_id j m && not (is_sent m.status))
      (λ m. record m { status = MessageStatus.dead; error = e }) messages
      (λ a p old own.
        not_sent (has_message_id j a) (is_sent a.status) (is_started a) (is_merged a) p (old own))
      h
  where
    not_sent :
        (mine s d g : Bool)
        → (mine && not s) ≡ true
        → (d || (s || g)) ≡ true
        → (d || (false || g)) ≡ true
    not_sent mine false d g p old = old
    not_sent mine true d g p old = absurd (cc (and-right mine false p))

revive-Fence :
    (id j : String) (messages : List ChatMessage)
    → Fence id messages
    → Fence id (revive_chat j messages)
unfolding revive_chat
revive-Fence id j messages h =
    All-update (FencedAs id) (λ m. has_message_id j m && is_dead_message m.status)
      (λ m. record m { status = MessageStatus.failed; error = none }) messages
      (λ a p old own.
        dead_unsent a.status (is_started a) (is_merged a)
          (and-right (has_message_id j a) (is_dead_message a.status) p) (old own))
      h
  where
    dead_unsent :
        (s : MessageStatus) (d g : Bool)
        → is_dead_message s ≡ true
        → (d || (is_sent s || g)) ≡ true
        → (d || (false || g)) ≡ true
    dead_unsent MessageStatus.dead d g p old = old
    dead_unsent MessageStatus.queued d g p old = absurd (cc p)
    dead_unsent _ d g p old = absurd (cc p)

receive-Fence :
    (id : String) (m : ChatMessage) (db : ChatDb)
    → count_where (sent_for m.id) db.sends ≡ 0
    → Safe id db
    → Safe id (record db { messages = insert_row m db.messages })
receive-Fence id m db fresh (inl zero) = inl zero
receive-Fence id m db fresh (inr fence) = elim (Bool-cases (m.id == id)) [
  | inl y ↦ inl (subst (λ i. count_where (sent_for i) db.sends ≡ 0) (==-eq m.id id y) fresh)
  | inr f ↦
      inr (All-append (FencedAs id) db.messages (m ∷ []) fence ((λ p. absurd (cc (p, f))), tt))
]

Step-Safe :
    (env : ChatEnv) (id : String) {db db' : ChatDb} → Step env db db' → Safe id db → Safe id db'
unfolding process_message
Step-Safe env id (processed db run j named) safe =
    found-Safe env run id j (find (has_message_id j) db.messages) db named refl safe
Step-Safe env id (buried db j e) (inl zero) = inl zero
Step-Safe env id (buried db j e) (inr fence) = inr (bury-Fence id j e db.messages fence)
Step-Safe env id (revived db j) (inl zero) = inl zero
Step-Safe env id (revived db j) (inr fence) = inr (revive-Fence id j db.messages fence)
Step-Safe env id (received db m fresh) safe = receive-Fence id m db fresh safe

Reach-Safe :
    (env : ChatEnv) (id : String) {start db : ChatDb}
    → Reach env start db
    → Safe id start
    → Safe id db
Reach-Safe env id here safe = safe
Reach-Safe env id (next r st) safe = Step-Safe env id st (Reach-Safe env id r safe)

still_started : (s d g : Bool) → s ≡ false → g ≡ false → (d || (s || g)) ≡ true → d ≡ true
still_started s true g hs hg h = refl
still_started true false g hs hg h = absurd (cc hs)
still_started false false true hs hg h = absurd (cc hg)
still_started false false false hs hg h = absurd (cc h)

found-quiet :
    (env : ChatEnv) (run : Run) (id : String) (found : Option ChatMessage) (db : ChatDb)
    → (id == "") ≡ false
    → find (has_message_id id) db.messages ≡ found
    → Fence id db.messages
    → (process_found env run found db).0.sends ≡ db.sends
unfolding process_found process_row
found-quiet env run id none db named e fence = refl
found-quiet env run id (some row) db named e fence = elim (Bool-cases (may_process row.status)) [
  | inr f ↦ rw f refl
  | inl y ↦ elim (Bool-cases (is_merged row)) [
    | inl m ↦ rw (y, m) refl
    | inr alone ↦
        let mine = find_sound (has_message_id id) db.messages e in
        let same : row.id ≡ id = ==-eq row.id id mine in
        let named' = subst (λ i. (i == "") ≡ false) (sym same) named in
        let fenced_row = find-All (FencedAs id) (has_message_id id) db.messages fence e mine in
        let unsent = unsent_of-may_process row.status y in
        rw (y, alone)
          (run-quiet env run row db named' unsent (
            still_started (is_sent row.status) (is_started row) (is_merged row) unsent alone
              fenced_row))
  ]
]

-- Once a call has been made to deliver the reply to a message, no later run for that message makes
-- another one. That holds after any sequence of runs for any messages, whatever the commands, the
-- model and the calls gave and wherever a run crashed in a call, and of messages that arrive, go
-- dead before their reply is out, and are replayed, if it starts before any call was made.
pub process_message-once :
    (env : ChatEnv) (run : Run) (id : String) (start db : ChatDb)
    → (id == "") ≡ false
    → start.sends ≡ []
    → Reach env start db
    → count_where (sent_for id) db.sends ≢ 0
    → (process_message env run id db).0.sends ≡ db.sends
unfolding process_message count_where
process_message-once env run id start db named fresh r some_call =
    elim (Reach-Safe env id r (inl (rw fresh refl))) [
      | inl zero ↦ absurd (some_call zero)
      | inr fence ↦
          found-quiet env run id (find (has_message_id id) db.messages) db named refl fence
    ]
