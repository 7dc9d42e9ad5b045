-- ===== src/Outbox/Examples.antt =====
-- Runs of the outbox of src/wecom_ai_gateway/tasks.py on small tables.
use multi_channel_ai_gateway.Base.{
  ◌≤◌, String, true, false, none, some, [], ◌∷◌, ◌≡◌, refl, ◌≢◌, All, arith, count_where, find,
  length, select_where, eq_iff,
}
use multi_channel_ai_gateway.Models.{
  OutboxStatus, MessageStatus, MessageDirection, OutboxTask, Message,
}
use multi_channel_ai_gateway.Outbox.Tasks.{
  TaskSettings, Db, has_id, add_task, sync_dedupe_key, create_sync_task,
}
use multi_channel_ai_gateway.Outbox.Lease.{
  claimable, stale_before, lock_task, locked, claim_task, renew_task_lease,
}
use multi_channel_ai_gateway.Outbox.Finish.{complete_task, fail_task}
use multi_channel_ai_gateway.Outbox.Repair.{is_orphan, reconcile_message_tasks}
use multi_channel_ai_gateway.Outbox.Invariant.{TasksInv}
use multi_channel_ai_gateway.Outbox.Steps.{add, here, next}
use multi_channel_ai_gateway.Outbox.Reachable.{Reach-TasksInv}
use multi_channel_ai_gateway.Outbox.Leases.{
  HasRow, after_lock, lock_task-exclusive, stale_lease_fenced,
}
use multi_channel_ai_gateway.Outbox.Claim.{claim_task-some}
use multi_channel_ai_gateway.Outbox.Reconcile.{reconcile_message_tasks_complete}
use multi_channel_ai_gateway.Outbox.Outcomes.{sync_while_processing}

abbrev cfg : TaskSettings
cfg = record {
  lock_timeout_seconds = 300;
  max_attempts = 2;
  retry_base_seconds = 10;
  retry_max_seconds = 900;
}

abbrev waiting : OutboxTask
waiting = record {
  id = "t1";
  task_type = "message";
  dedupe_key = "message:m1";
  payload = ("message_id", some "m1") ∷ [];
  status = OutboxStatus.pending;
  attempts = 0;
  rerun_requested = false;
  available_at = 500;
  locked_at = none;
  lease_token = none;
  last_error = none;
  created_at = 500;
}

abbrev taken : OutboxTask
taken = record waiting {
  status = OutboxStatus.processing;
  locked_at = some 1000;
  lease_token = some "w1";
}

abbrev last_try : OutboxTask
last_try = record taken { attempts = 1 }

abbrev notify : OutboxTask
notify = record last_try { task_type = "notify"; dedupe_key = "notify:m1" }

abbrev sync_task : OutboxTask
sync_task = record taken { task_type = "sync"; dedupe_key = "sync:kf" }

abbrev message : Message
message = record {
  id = "m1";
  conversation_id = some "c1";
  user_id = some "u1";
  direction = MessageDirection.inbound;
  status = MessageStatus.queued;
  merged_into = none;
  error = none;
  created_at = 500;
}

abbrev empty : Db
empty = record { tasks = []; messages = []; wakes = 0; alerts = [] }

abbrev db_with : OutboxTask → Db
db_with t = record empty { tasks = t ∷ []; messages = message ∷ [] }

has_row : (t : OutboxTask) → t.id ≡ "t1" → HasRow (db_with t) "t1" t
unfolding find count_where
has_row t h = record { row = rw h refl; only = rw h (omega arith) }

empty-TasksInv : TasksInv cfg []
unfolding count_where
empty-TasksInv = record { ids = λ id. omega arith; keys = λ key. omega arith; rows = tt }

Reach-TasksInv_example :
    TasksInv cfg
      (add_task "t2" 600 "message" "message:m2" []
        (add_task "t1" 500 "message" "message:m1" [] empty).0).0.tasks
unfolding find add_task
Reach-TasksInv_example =
    Reach-TasksInv cfg (omega arith) {a = empty}
      (next (next here (add empty "t1" 500 "message" "message:m1" [] refl)) (
        add (add_task "t1" 500 "message" "message:m1" [] empty).0 "t2" 600 "message" "message:m2" []
          refl))
      empty-TasksInv

lock_task-exclusive_example :
    lock_task cfg 1300 "w2" "t1" (after_lock cfg 1000 "w1" "t1" (db_with waiting)) ≡ none
unfolding lock_task claimable count_where
lock_task-exclusive_example =
    lock_task-exclusive cfg 1000 1300 "w1" "w2" "t1" (db_with waiting) _ waiting
      (has_row waiting refl) refl (omega arith)

two_workers : ◌≢◌ {A = String} "w1" "w2"
two_workers e = absurd (cc ((eq_iff "w1" "w2").1 e))

stale_lease_fenced_example :
    let db = after_lock cfg 1400 "w2" "t1" (db_with taken) in
    (complete_task 1500 "t1" (some "w1") db ≡ (db, false))
    × (fail_task cfg "t9" 1500 "t1" (some "w1") "timeout" db ≡ (db, none))
    × (renew_task_lease 1500 "t1" "w1" db ≡ (db, false))
unfolding lock_task claimable count_where
stale_lease_fenced_example =
    stale_lease_fenced cfg 1400 1500 "w1" "w2" "t1" "timeout" "t9" (db_with taken) _ taken
      (has_row taken refl) refl two_workers

claim_task-some_example :
    (t : OutboxTask) × All
      (λ a. claimable 1000 (stale_before cfg 1000) a ≡ true → t.available_at ≤ a.available_at)
      (waiting ∷ [])
    × (claim_task cfg 1000 "w1" (λ d. d) (db_with waiting)
        ≡ (after_lock cfg 1000 "w1" t.id (db_with waiting), some (locked 1000 "w1" t)))
unfolding count_where claimable
claim_task-some_example =
    claim_task-some cfg 1000 "w1" (db_with waiting) (λ id. ground arith) (omega arith)

reconcile_message_tasks_complete_example :
    let (db', created) =
      reconcile_message_tasks (λ m. m) 700 500 (record empty { messages = message ∷ [] }) in
    (count_where (is_orphan db'.tasks) db'.messages ≡ 0)
    × (created ≡ length (select_where (is_orphan []) (message ∷ [])))
    × (db'.messages ≡ message ∷ [])
unfolding is_orphan select_where find
reconcile_message_tasks_complete_example =
    reconcile_message_tasks_complete (λ m. m) 700 500 (record empty { messages = message ∷ [] })
      (omega arith)

sync_while_processing_example :
    let asked_db = (create_sync_task "t9" 1050 "token" "kf" none (db_with sync_task)).0 in
    let (done_db, ok) = complete_task 1060 "t1" (some "w1") asked_db in
    (ok ≡ true)
    × (find (has_id "t1") done_db.tasks
        ≡ some (record sync_task {
          payload = ("token", some "token") ∷ ("open_kfid", some "kf") ∷ [];
          status = OutboxStatus.pending;
          rerun_requested = false;
          available_at = 1060;
          locked_at = none;
          lease_token = none;
          last_error = none;
        }))
unfolding find sync_dedupe_key
sync_while_processing_example =
    sync_while_processing "t9" 1050 1060 "token" "kf" "t1" "w1" (db_with sync_task) sync_task
      (has_row sync_task refl) refl refl refl
