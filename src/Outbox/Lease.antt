-- ===== src/Outbox/Lease.antt =====
-- src/wecom_ai_gateway/tasks.py: claiming a task and renewing its lease.
use multi_channel_ai_gateway.Base.{
  ◌-◌, String, Bool, false, ◌&&◌, ◌||◌, Option, none, some, List, [], ◌∷◌, leb, ltb, nat_eq,
  is_just, if◌then◌else◌, find, update_where, count_where,
}
use multi_channel_ai_gateway.Models.{Time, OutboxStatus, OutboxTask, is_pending, is_processing}
use multi_channel_ai_gateway.Outbox.Tasks.{TaskSettings, Db, has_id}

-- A comparison with a nullable column is not met by NULL.
abbrev pub before : Option Time → Time → Bool
before none t = false
before (some s) t = ltb s t

-- The `or_(...)` of both statements: due, or under a lease that is older than the timeout.
unfoldable pub claimable : Time → Time → OutboxTask → Bool
claimable now stale t =
    (is_pending t.status && leb t.available_at now)
    || (is_processing t.status && before t.locked_at stale)

-- `order_by(available_at, created_at)`
abbrev pub comes_first : OutboxTask → OutboxTask → Bool
comes_first a b =
    ltb a.available_at b.available_at
    || (nat_eq a.available_at b.available_at && leb a.created_at b.created_at)

abbrev pub earlier : OutboxTask → Option OutboxTask → OutboxTask
earlier a none = a
earlier a (some b) = if comes_first a b then a else b

-- The first row of the ordered query with `limit(1)`; rows that tie are in the table's order.
unfoldable pub first_claimable : Time → Time → List OutboxTask → Option OutboxTask
unfolding claimable
first_claimable now stale [] = none
first_claimable now stale (t ∷ ts) =
    let rest = first_claimable now stale ts in
    if claimable now stale t then some (earlier t rest) else rest

abbrev pub stale_before : TaskSettings → Time → Time
stale_before cfg now = now - cfg.lock_timeout_seconds

unfoldable pub locked : Time → String → OutboxTask → OutboxTask
locked now token t = record t {
  status = OutboxStatus.processing;
  locked_at = some now;
  lease_token = some token;
}

abbrev pub lock_condition : TaskSettings → Time → String → OutboxTask → Bool
lock_condition cfg now task_id t = has_id task_id t && claimable now (stale_before cfg now) t

-- The conditional update; `none` stands for the rollback when it does not match one row.
unfoldable pub lock_task : TaskSettings → Time → String → String → Db → Option Db
unfolding locked
lock_task cfg now token task_id db =
    let p = lock_condition cfg now task_id in
    if nat_eq (count_where p db.tasks) 1
    then some (record db { tasks = update_where p (locked now token) db.tasks })
    else none

claimed : String → Db → Option Db → Db × Option OutboxTask
claimed task_id db none = (db, none)
claimed task_id db (some db') = (db', find (has_id task_id) db'.tasks)

claim_picked :
    TaskSettings → Time → String → (Db → Db) → Option OutboxTask → Db → Db × Option OutboxTask
unfolding claimed
claim_picked cfg now token others none db = (db, none)
claim_picked cfg now token others (some t) db =
    claimed t.id (others db) (lock_task cfg now token t.id (others db))

-- `others` is what other workers commit between the query and the update.
unfoldable pub claim_task : TaskSettings → Time → String → (Db → Db) → Db → Db × Option OutboxTask
unfolding claim_picked
claim_task cfg now token others db =
    claim_picked cfg now token others (first_claimable now (stale_before cfg now) db.tasks) db

-- The rows that the holder of a lease may still change.
unfoldable pub held_by : String → String → OutboxTask → Bool
held_by task_id token t =
    has_id task_id t && (is_processing t.status && is_just t.lease_token token)

unfoldable pub renew_task_lease : Time → String → String → Db → Db × Bool
unfolding held_by
renew_task_lease now task_id token db =
    let p = held_by task_id token in
    (
      record db { tasks = update_where p (λ t. record t { locked_at = some now }) db.tasks },
      nat_eq (count_where p db.tasks) 1,
    )
