-- ===== src/Outbox/Tasks.antt =====
-- src/wecom_ai_gateway/tasks.py: the outbox table, and adding a task to it.
-- The database is the two tables that the module touches. What the process does besides is kept
-- as a log: `wakes` counts the calls of `notify_worker`, whose outcome the code ignores, and
-- `alerts` the dead-letter mails, whose failure it ignores too.
use Prim.Native.String.{◌++◌ as cat}
use multi_channel_ai_gateway.Base.{
  ℕ, ◌+◌, String, Bool, true, false, ◌||◌, Option, none, some, List, [], ◌∷◌, ◌==◌, if◌then◌else◌,
  find, update_where, insert_row,
}
use multi_channel_ai_gateway.Models.{
  Time, OutboxStatus, Payload, OutboxTask, Message, is_processing, is_dead, is_done,
}

-- The runtime settings of the task group (runtime_settings.py), as `get_runtime_value` reads them.
pub record TaskSettings : Type 0 where
  pub lock_timeout_seconds : ℕ
  pub max_attempts : ℕ
  pub retry_base_seconds : ℕ
  pub retry_max_seconds : ℕ

pub record Alert : Type 0 where
  pub task_id : String
  pub task_type : String
  pub attempts : ℕ
  pub error : Option String

pub record Db : Type 0 where
  pub tasks : List OutboxTask
  pub messages : List Message
  pub wakes : ℕ
  pub alerts : List Alert

abbrev pub has_key : String → OutboxTask → Bool
has_key key t = t.dedupe_key == key

abbrev pub has_id : String → OutboxTask → Bool
has_id id t = t.id == id

abbrev pub message_has_id : String → Message → Bool
message_has_id id m = m.id == id

-- What the session writes for a row that it loaded and changed.
abbrev pub save_task : OutboxTask → List OutboxTask → List OutboxTask
save_task t = update_where (has_id t.id) (λ _. t)

abbrev pub save_message : Message → List Message → List Message
save_message m = update_where (message_has_id m.id) (λ _. m)

unfoldable pub notify_worker : Db → Db
notify_worker db = record db { wakes = db.wakes + 1 }

unfoldable pub sync_dedupe_key : String → String → String
sync_dedupe_key token open_kfid = cat "sync:" open_kfid

unfoldable pub new_task : String → Time → String → String → Payload → OutboxTask
new_task id now task_type dedupe_key payload = record {
  id = id;
  task_type = task_type;
  dedupe_key = dedupe_key;
  payload = payload;
  status = OutboxStatus.pending;
  attempts = 0;
  rerun_requested = false;
  available_at = now;
  locked_at = none;
  lease_token = none;
  last_error = none;
  created_at = now;
}

add_or_existing : Option OutboxTask → OutboxTask → Db → Db × OutboxTask
add_or_existing (some existing) task db = (db, existing)
add_or_existing none task db = (record db { tasks = insert_row task db.tasks }, task)

-- `id` and `now` are what the row's defaults produce.
unfoldable pub add_task : String → Time → String → String → Payload → Db → Db × OutboxTask
unfolding add_or_existing new_task
add_task id now task_type dedupe_key payload db =
    add_or_existing (find (has_key dedupe_key) db.tasks)
      (new_task id now task_type dedupe_key payload) db

sync_payload : String → String → Payload
sync_payload token open_kfid = ("token", some token) ∷ ("open_kfid", some open_kfid) ∷ []

-- The changes to a sync task that is there already, by its status.
unfoldable pub reactivate : Time → OutboxTask → OutboxTask
reactivate now task =
    if is_processing task.status
    then record task { rerun_requested = true }
    else if is_done task.status || is_dead task.status
    then record task {
      status = OutboxStatus.pending;
      attempts = 0;
      available_at = now;
      locked_at = none;
      lease_token = none;
      last_error = none;
      rerun_requested = false;
    }
    else task

-- The `try` block where the first query finds no task. `rival` is a row that another transaction
-- commits between that query and the insert: it breaks the unique key, so the code rolls back and
-- reads the id again.
sync_new : String → Time → String → String → Option OutboxTask → Db → Db × Option String
unfolding add_task sync_payload
sync_new id now token open_kfid none db =
    let (db', task) =
      add_task id now "sync" (sync_dedupe_key token open_kfid) (sync_payload token open_kfid) db in
    (db', some task.id)
sync_new id now token open_kfid (some rival) db =
    let tasks' = insert_row rival db.tasks in
    (
      record db { tasks = tasks' },
      elim (find (has_key (sync_dedupe_key token open_kfid)) tasks') [
        | none ↦ none
        | some t ↦ some t.id
      ],
    )

sync_existing :
    Option OutboxTask
    → String
    → Time
    → String
    → String
    → Option OutboxTask
    → Db
    → Db × Option String
unfolding sync_new reactivate sync_payload
sync_existing (some task) id now token open_kfid rival db =
    let task' = reactivate now (record task { payload = sync_payload token open_kfid }) in
    (record db { tasks = save_task task' db.tasks }, some task.id)
sync_existing none id now token open_kfid rival db = sync_new id now token open_kfid rival db

unfoldable pub create_sync_task :
    String → Time → String → String → Option OutboxTask → Db → Db × Option String
unfolding sync_existing notify_worker
create_sync_task id now token open_kfid rival db =
    let (db', task_id) =
      sync_existing (find (has_key (sync_dedupe_key token open_kfid)) db.tasks) id now token
        open_kfid rival db in
    (notify_worker db', task_id)

unfoldable pub message_key : String → String
message_key message_id = cat "message:" message_id

unfoldable pub add_message_task : String → Time → String → Db → Db × OutboxTask
unfolding add_task
add_message_task id now message_id db =
    add_task id now "message" (message_key message_id) (("message_id", some message_id) ∷ []) db
