-- ===== src/Outbox/Outcomes.antt =====
-- Outcomes of tasks.py across several calls: dead letters, and sync requests that arrive while
-- their task is being processed.
use Prim.Native.String.{◌++◌ as cat}
use multi_channel_ai_gateway.Base.{
  ◌+◌, ◌≤◌, String, true, false, none, some, List, [], ◌∷◌, ◌≡◌, refl, sym, ◌∙◌, ap, ◌==◌, leb,
  arith, eq_iff, ==-eq, find, find_of_unique, find-update, find_sound, count-update_same,
}
use multi_channel_ai_gateway.Models.{
  Time, OutboxStatus, OutboxTask, is_processing, Payload, payload_get, MessageStatus, Message,
}
use multi_channel_ai_gateway.Outbox.Tasks.{
  TaskSettings, Db, has_id, has_key, message_has_id, save_task, save_message, create_sync_task,
  sync_dedupe_key,
}
use multi_channel_ai_gateway.Outbox.Finish.{complete_task, completed, fail_task, failed, bury}
use multi_channel_ai_gateway.Outbox.Leases.{HasRow, holds}
use multi_channel_ai_gateway.Outbox.Reconcile.{HasTask, add_task-HasTask, add_task-messages}

save_message-find :
    (m m' : Message) (id : String) (ms : List Message)
    → find (message_has_id id) ms ≡ some m
    → m'.id ≡ m.id
    → find (message_has_id id) (save_message m' ms) ≡ some m'
save_message-find m m' id ms e same =
    let hit : m'.id ≡ id = same ∙ ==-eq m.id id (find_sound (message_has_id id) ms e) in
    rw
      (
        find-update (message_has_id m'.id) (message_has_id id) (λ _. m') ms
            (λ a k. ap (λ s. s == id) (sym (==-eq a.id m'.id k))),
        e,
      )
      (rw (hit, (eq_iff m.id id).1 (sym same ∙ hit)))

bury_lem :
    (new_id : String) (now : Time) (mid : String) (db : Db) (t : OutboxTask) (m : Message)
    → (t.task_type == "message") ≡ true
    → payload_get "message_id" t.payload ≡ some mid
    → find (message_has_id mid) db.messages ≡ some m
    → (find (message_has_id mid) (bury new_id now t db).messages
        ≡ some (record m { status = MessageStatus.dead; error = t.last_error }))
      × HasTask (bury new_id now t db).tasks (cat "notify:" mid)
unfolding bury
bury_lem new_id now mid db t m typed load there =
    let same : m.id ≡ mid = ==-eq m.id mid (find_sound (message_has_id mid) db.messages there) in
    let m' = record m { status = MessageStatus.dead; error = t.last_error } in
    (
      rw (typed, load, there)
          (rw add_task-messages (save_message-find m m' mid db.messages there refl)),
      rw (typed, load, there, ← same)
          (add_task-HasTask new_id now "notify" (cat "notify:" m.id) _ _),
    )

-- When the holder of the lease fails a message task on its last attempt, the message, if it is
-- there, is marked dead with the error, and a notify task for that message exists, whether it is
-- made now or was there before. No other row has the task's id.
pub fail_task-buries :
    (cfg : TaskSettings) (new_id : String) (now : Time) (id token error mid : String) (db : Db)
    (t : OutboxTask) (m : Message)
    → HasRow db id t
    → holds token t ≡ true
    → cfg.max_attempts ≤ t.attempts + 1
    → t.task_type ≡ "message"
    → payload_get "message_id" t.payload ≡ some mid
    → find (message_has_id mid) db.messages ≡ some m
    → let db' = (fail_task cfg new_id now id (some token) error db).0 in
      (find (message_has_id mid) db'.messages
        ≡ some (record m { status = MessageStatus.dead; error = some error }))
      × HasTask db'.tasks (cat "notify:" mid)
unfolding fail_task
fail_task-buries cfg new_id now id token error mid db t m h held spent kind load there =
    let found = find_of_unique (has_id id) (holds token) db.tasks h.row h.only in
    let test : leb cfg.max_attempts (t.attempts + 1) ≡ true = ground arith in
    let typed : (t.task_type == "message") ≡ true = (eq_iff t.task_type "message").1 kind in
    let dead = record t {
      status = OutboxStatus.dead;
      attempts = t.attempts + 1;
      last_error = some error;
      locked_at = none;
      lease_token = none;
    } in
    let saved = record db { tasks = save_task dead db.tasks } in
    rw (found, held, test) (rw test (bury_lem new_id now mid saved dead m typed load there))

-- A notify task that the holder of its lease fails creates no further task and touches no message,
-- whether it dies or is tried again. No other row has the task's id.
pub fail_task-notify_ends :
    (cfg : TaskSettings) (new_id : String) (now : Time) (id token error : String) (db : Db)
    (t : OutboxTask)
    → HasRow db id t
    → holds token t ≡ true
    → t.task_type ≡ "notify"
    → let db' = (fail_task cfg new_id now id (some token) error db).0 in
      (db'.tasks ≡ save_task (failed cfg now error t) db.tasks)
      × (db'.messages ≡ db.messages)
      × (db'.wakes ≡ db.wakes)
unfolding fail_task bury
fail_task-notify_ends cfg new_id now id token error db t h held kind =
    let found = find_of_unique (has_id id) (holds token) db.tasks h.row h.only in
    let typed : (t.task_type == "message") ≡ false = rw kind in
    rw (found, held) (ground (arith, typed))

save-HasRow :
    (db db' : Db) (id : String) (t t' : OutboxTask)
    → HasRow db id t
    → t'.id ≡ t.id
    → db'.tasks ≡ save_task t' db.tasks
    → HasRow db' id t'
save-HasRow db db' id t t' h same saved =
    let hit : t'.id ≡ id = same ∙ ==-eq t.id id (find_sound (has_id id) db.tasks h.row) in
    let keep : (a : OutboxTask) → has_id t'.id a ≡ true → has_id id t' ≡ has_id id a =
      λ a k. ap (λ s. s == id) (sym (==-eq a.id t'.id k)) in
    record {
      row =
          rw (saved, find-update (has_id t'.id) (has_id id) (λ _. t') db.tasks keep, h.row)
            (rw (hit, (eq_iff t.id id).1 (sym same ∙ hit)));
      only =
          rw (saved, count-update_same (has_id t'.id) (has_id id) (λ _. t') db.tasks keep) h.only;
    }

-- The holder of the lease completes its task.
pub complete_task_lem :
    (now : Time) (id lease : String) (db : Db) (t : OutboxTask)
    → HasRow db id t
    → holds lease t ≡ true
    → complete_task now id (some lease) db
      ≡ (record db { tasks = save_task (completed now t) db.tasks }, true)
unfolding complete_task
complete_task_lem now id lease db t h held =
    rw (find_of_unique (has_id id) (holds lease) db.tasks h.row h.only, held)

abbrev sync_request : String → String → Payload
sync_request token open_kfid = ("token", some token) ∷ ("open_kfid", some open_kfid) ∷ []

-- A sync request that arrives while its task is being processed is not lost: the task takes the
-- new token, and when the worker completes it, it is pending again, and due at once. No other row
-- has the task's id.
pub sync_while_processing :
    (fresh : String) (asked finished : Time) (token open_kfid id lease : String) (db : Db)
    (t : OutboxTask)
    → HasRow db id t
    → find (has_key (sync_dedupe_key token open_kfid)) db.tasks ≡ some t
    → holds lease t ≡ true
    → t.task_type ≡ "sync"
    → let asked_db = (create_sync_task fresh asked token open_kfid none db).0 in
      let (done_db, ok) = complete_task finished id (some lease) asked_db in
      (ok ≡ true)
      × (find (has_id id) done_db.tasks
          ≡ some (record t {
            payload = sync_request token open_kfid;
            status = OutboxStatus.pending;
            rerun_requested = false;
            available_at = finished;
            locked_at = none;
            lease_token = none;
            last_error = none;
          }))
unfolding create_sync_task completed
sync_while_processing fresh asked finished token open_kfid id lease db t h keyed held kind =
    let t1 = record t { payload = sync_request token open_kfid; rerun_requested = true } in
    let busy : is_processing t.status ≡ true = ground (arith, held) in
    let db1 = (create_sync_task fresh asked token open_kfid none db).0 in
    let saved : db1.tasks ≡ save_task t1 db.tasks = rw (keyed, busy) in
    let h1 = save-HasRow db db1 id t t1 h refl saved in
    let held1 : holds lease t1 ≡ true = held in
    let typed : (t.task_type == "sync") ≡ true = (eq_iff t.task_type "sync").1 kind in
    let t2 = completed finished t1 in
    let done_db = record db1 { tasks = save_task t2 db1.tasks } in
    let same : t2.id ≡ t.id = rw typed in
    let h2 = save-HasRow db1 done_db id t1 t2 h1 same refl in
    rw (complete_task_lem finished id lease db1 t1 h1 held1) (refl, rw h2.row (rw typed))
