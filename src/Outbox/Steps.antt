-- ===== src/Outbox/Steps.antt =====
-- The transactions of tasks.py as a step relation between states of the database, for any number of
-- workers and callers in any order.
use multi_channel_ai_gateway.Base.{◌<◌, String, true, Option, none, some, ◌≡◌, refl, arith, find}
use multi_channel_ai_gateway.Models.{Time, OutboxTask, Payload, is_processing}
use multi_channel_ai_gateway.Outbox.Tasks.{
  TaskSettings, Db, has_id, new_task, add_task, create_sync_task, reactivate,
}
use multi_channel_ai_gateway.Outbox.Lease.{lock_task, locked, claimable, renew_task_lease}
use multi_channel_ai_gateway.Outbox.Finish.{complete_task, completed, fail_task, failed, may_finish}
use multi_channel_ai_gateway.Outbox.Repair.{replay_task, revived}
use multi_channel_ai_gateway.Outbox.Invariant.{RowInv}

-- One transaction. The ids that a transaction makes are uuids: no row has them yet.
pub data Step (cfg : TaskSettings) : Db → Db → Type 0 where
  add :
      (db : Db) (id : String) (now : Time) (task_type key : String) (payload : Payload)
      → find (has_id id) db.tasks ≡ none
      → Step cfg db (add_task id now task_type key payload db).0
  sync :
      (db : Db) (id : String) (now : Time) (token open_kfid : String)
      → find (has_id id) db.tasks ≡ none
      → Step cfg db (create_sync_task id now token open_kfid none db).0
  lock :
      (db db' : Db) (now : Time) (token id : String)
      → lock_task cfg now token id db ≡ some db'
      → Step cfg db db'
  renew :
      (db : Db) (now : Time) (id token : String) → Step cfg db (renew_task_lease now id token db).0
  complete :
      (db : Db) (now : Time) (id : String) (token : Option String)
      → Step cfg db (complete_task now id token db).0
  fail :
      (db : Db) (new_id : String) (now : Time) (id : String) (token : Option String)
      (error : String)
      → find (has_id new_id) db.tasks ≡ none
      → Step cfg db (fail_task cfg new_id now id token error db).0
  replay : (db : Db) (now : Time) (id : String) → Step cfg db (replay_task now id db).0

pub data Reach (cfg : TaskSettings) (db : Db) : Db → Type 0 where
  here : Reach cfg db db
  next : {a b : Db} → Reach cfg db a → Step cfg a b → Reach cfg db b

module _ (cfg : TaskSettings) (room : 0 < cfg.max_attempts) where
  pub new_task-RowInv :
      (id : String) (now : Time) (task_type key : String) (payload : Payload)
      → RowInv cfg (new_task id now task_type key payload)
  unfolding new_task
  new_task-RowInv id now task_type key payload = record {
    locked = refl;
    leased = refl;
    live = λ _. room;
    spent = λ e. cc;
  }

  pub reactivate-RowInv :
      (now : Time) (t : OutboxTask) → RowInv cfg t → RowInv cfg (reactivate now t)
  unfolding reactivate
  reactivate-RowInv now t v = ground arith

  pub locked-RowInv :
      (now stale : Time) (token : String) (t : OutboxTask)
      → claimable now stale t ≡ true
      → RowInv cfg t
      → RowInv cfg (locked now token t)
  unfolding locked claimable
  locked-RowInv now stale token t h v = ground arith

  pub completed-RowInv :
      (now : Time) (t : OutboxTask)
      → is_processing t.status ≡ true
      → RowInv cfg t
      → RowInv cfg (completed now t)
  unfolding completed
  completed-RowInv now t h v = ground arith

  pub failed-RowInv :
      (now : Time) (error : String) (t : OutboxTask) → RowInv cfg (failed cfg now error t)
  unfolding failed
  failed-RowInv now error t = ground arith

  pub revived-RowInv : (now : Time) (t : OutboxTask) → RowInv cfg (revived now t)
  unfolding revived
  revived-RowInv now t = ground arith

-- No operation touches a row's id or key.
abbrev pub SameName : OutboxTask → OutboxTask → Type 0
SameName a b = (a.id ≡ b.id) × (a.dedupe_key ≡ b.dedupe_key)

pub reactivate-SameName :
    (now : Time) (payload : Payload) (t : OutboxTask)
    → SameName (reactivate now (record t { payload = payload })) t
unfolding reactivate
reactivate-SameName now payload t = ground arith

pub completed-SameName : (now : Time) (t : OutboxTask) → SameName (completed now t) t
unfolding completed
completed-SameName now t = ground arith

pub failed-SameName :
    (cfg : TaskSettings) (now : Time) (error : String) (t : OutboxTask)
    → SameName (failed cfg now error t) t
unfolding failed
failed-SameName cfg now error t = ground arith

pub revived-SameName : (now : Time) (t : OutboxTask) → SameName (revived now t) t
unfolding revived
revived-SameName now t = (refl, refl)

pub may_finish-processing :
    (id : String) (token : Option String) (t : OutboxTask)
    → may_finish id token t ≡ true
    → is_processing t.status ≡ true
unfolding may_finish
may_finish-processing id none t h = ground arith
may_finish-processing id (some s) t h = ground arith
