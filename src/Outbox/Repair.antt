-- ===== src/Outbox/Repair.antt =====
-- src/wecom_ai_gateway/tasks.py: replaying a dead task, and tasks for orphaned messages.
use multi_channel_ai_gateway.Base.{
  ℕ, String, Bool, true, false, ◌&&◌, not, Option, none, some, List, [], ◌∷◌, ◌==◌, if◌then◌else◌,
  find, select_where, take, is_some, length, nat_eq,
}
use multi_channel_ai_gateway.Models.{
  Time, OutboxStatus, MessageStatus, payload_get, OutboxTask, Message, is_dead,
}
use multi_channel_ai_gateway.Outbox.Tasks.{
  Db, has_id, has_key, save_task, save_message, notify_worker, message_key, add_message_task,
}
use multi_channel_ai_gateway.Outbox.Finish.{message_of}

unfoldable pub revived : Time → OutboxTask → OutboxTask
revived now task = record task {
  status = OutboxStatus.pending;
  attempts = 0;
  available_at = now;
  locked_at = none;
  lease_token = none;
  last_error = none;
}

abbrev pub message_is_dead : MessageStatus → Bool
message_is_dead MessageStatus.dead = true
message_is_dead _ = false

revive_message : Option Message → Db → Db
revive_message none db = db
revive_message (some message) db =
    if message_is_dead message.status
    then record db {
      messages =
          save_message (record message { status = MessageStatus.failed; error = none }) db.messages;
    }
    else db

replay_found : Time → Option OutboxTask → Db → Db × Bool
unfolding revived revive_message notify_worker
replay_found now none db = (db, false)
replay_found now (some task) db =
    if is_dead task.status
    then (
      let saved = record db { tasks = save_task (revived now task) db.tasks } in
          notify_worker (
            if task.task_type == "message"
            then revive_message (message_of (payload_get "message_id" task.payload) saved.messages)
                saved
            else saved),
      true,
    )
    else (db, false)

unfoldable pub replay_task : Time → String → Db → Db × Bool
unfolding replay_found
replay_task now task_id db = replay_found now (find (has_id task_id) db.tasks) db

abbrev pub awaits_task : MessageStatus → Bool
awaits_task MessageStatus.queued = true
awaits_task MessageStatus.failed = true
awaits_task _ = false

-- The outer join: a message that waits for a task and has none under its key.
unfoldable pub is_orphan : List OutboxTask → Message → Bool
is_orphan tasks m = awaits_task m.status && not (is_some (find (has_key (message_key m.id)) tasks))

-- `new_id` gives the ids of the rows that the loop makes.
unfoldable pub add_message_tasks : (String → String) → Time → List Message → Db → Db
unfolding add_message_task
add_message_tasks new_id now [] db = db
add_message_tasks new_id now (m ∷ ms) db =
    add_message_tasks new_id now ms (add_message_task (new_id m.id) now m.id db).0

unfoldable pub reconcile_message_tasks : (String → String) → Time → ℕ → Db → Db × ℕ
unfolding is_orphan add_message_tasks notify_worker
reconcile_message_tasks new_id now limit db =
    let orphans = take limit (select_where (is_orphan db.tasks) db.messages) in
    let db' = add_message_tasks new_id now orphans db in
    (if nat_eq (length orphans) 0 then db' else notify_worker db', length orphans)
