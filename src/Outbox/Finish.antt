-- ===== src/Outbox/Finish.antt =====
-- src/wecom_ai_gateway/tasks.py: completing and failing a task that is being processed.
use Prim.Native.Nat.{min}
use Prim.Native.String.{◌++◌ as cat}
use multi_channel_ai_gateway.Base.{
  ℕ, ◌+◌, ◌-◌, ◌*◌, ◌^◌, String, Bool, true, false, ◌&&◌, Option, none, some, List, [], ◌∷◌, ◌++◌,
  ◌==◌, leb, if◌then◌else◌, find,
}
use multi_channel_ai_gateway.Models.{
  Time, OutboxStatus, MessageStatus, payload_get, OutboxTask, Message, is_processing,
}
use multi_channel_ai_gateway.Outbox.Tasks.{
  TaskSettings, Alert, Db, has_id, message_has_id, save_task, save_message, notify_worker, add_task,
}
use multi_channel_ai_gateway.Outbox.Lease.{held_by}

-- The `conditions` of both functions; without a lease token the status alone decides.
unfoldable pub may_finish : String → Option String → OutboxTask → Bool
unfolding held_by
may_finish task_id none t = has_id task_id t && is_processing t.status
may_finish task_id (some token) t = held_by task_id token t

unfoldable pub completed : Time → OutboxTask → OutboxTask
completed now task =
    let released = record task { locked_at = none; lease_token = none; last_error = none } in
    if (task.task_type == "sync") && task.rerun_requested
    then record released {
      status = OutboxStatus.pending;
      available_at = now;
      rerun_requested = false;
    }
    else record released { status = OutboxStatus.done }

complete_found : Time → Option OutboxTask → Db → Db × Bool
unfolding completed
complete_found now none db = (db, false)
complete_found now (some task) db =
    (record db { tasks = save_task (completed now task) db.tasks }, true)

unfoldable pub complete_task : Time → String → Option String → Db → Db × Bool
unfolding complete_found may_finish
complete_task now task_id lease_token db =
    complete_found now (find (may_finish task_id lease_token) db.tasks) db

unfoldable pub retry_delay : TaskSettings → ℕ → ℕ
retry_delay cfg attempts = min (cfg.retry_base_seconds * 2 ^ (attempts - 1)) cfg.retry_max_seconds

-- The row after a failure, with its attempts counted.
unfoldable pub failed : TaskSettings → Time → String → OutboxTask → OutboxTask
unfolding retry_delay
failed cfg now error task =
    let t = record task {
      attempts = task.attempts + 1;
      last_error = some error;
      locked_at = none;
      lease_token = none;
    } in
    if leb cfg.max_attempts t.attempts
    then record t { status = OutboxStatus.dead }
    else record t { status = OutboxStatus.pending; available_at = now + retry_delay cfg t.attempts }

abbrev pub alert_of : OutboxTask → Alert
alert_of t = record {
  task_id = t.id;
  task_type = t.task_type;
  attempts = t.attempts;
  error = t.last_error;
}

-- What happens to the message of a dead message task: it is marked, and a notify task is made.
-- `id` is the new row's.
unfoldable pub bury_message : String → Time → OutboxTask → Option Message → Db → Db
unfolding add_task notify_worker
bury_message id now task none db = db
bury_message id now task (some message) db =
    let m = record message { status = MessageStatus.dead; error = task.last_error } in
    let db' = record db { messages = save_message m db.messages } in
    notify_worker
      (add_task id now "notify" (cat "notify:" m.id) (("message_id", some m.id) ∷ []) db').0

-- `db.get(Message, task.payload.get("message_id"))`
abbrev pub message_of : Option String → List Message → Option Message
message_of none ms = none
message_of (some id) ms = find (message_has_id id) ms

-- The effects of a death, apart from the task's own row.
unfoldable pub bury : String → Time → OutboxTask → Db → Db
unfolding bury_message
bury id now task db =
    let alerted = record db { alerts = db.alerts ++ alert_of task ∷ [] } in
    if task.task_type == "message"
    then bury_message id now task (message_of (payload_get "message_id" task.payload) db.messages)
        alerted
    else alerted

fail_found :
    TaskSettings → String → Time → String → Option OutboxTask → Db → Db × Option OutboxStatus
unfolding failed bury
fail_found cfg id now error none db = (db, none)
fail_found cfg id now error (some task) db =
    let t = failed cfg now error task in
    let saved = record db { tasks = save_task t db.tasks } in
    (if leb cfg.max_attempts t.attempts then bury id now t saved else saved, some t.status)

-- `error` is the redacted text of the exception.
unfoldable pub fail_task :
    TaskSettings → String → Time → String → Option String → String → Db → Db × Option OutboxStatus
unfolding fail_found may_finish
fail_task cfg id now task_id lease_token error db =
    fail_found cfg id now error (find (may_finish task_id lease_token) db.tasks) db
