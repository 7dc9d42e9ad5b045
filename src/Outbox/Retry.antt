-- ===== src/Outbox/Retry.antt =====
-- Retries of tasks.py: the back-off, the dead letter and the rerun of a sync task.
use Prim.Native.Nat.{min}
use native.Mathlib.Nat.{pow-suc}
use multi_channel_ai_gateway.Base.{
  ℕ, zero, suc, ◌+◌, ◌-◌, ◌*◌, ◌^◌, ◌≤◌, ◌<◌, String, true, false, none, some, ◌≡◌, leb, arith,
  if◌then◌else◌, find_of_unique,
}
use multi_channel_ai_gateway.Models.{Time, OutboxStatus, OutboxTask}
use multi_channel_ai_gateway.Outbox.Tasks.{TaskSettings, Db, has_id, save_task}
use multi_channel_ai_gateway.Outbox.Finish.{fail_task, retry_delay}
use multi_channel_ai_gateway.Outbox.Leases.{HasRow, holds}

pow-pos : (k : ℕ) → 1 ≤ 2 ^ k
pow-pos zero = omega arith
pow-pos (suc k) = rw pow-suc (omega (arith, pow-pos k))

pow-double : (b k : ℕ) → b * 2 ^ suc k ≡ b * 2 ^ k + b * 2 ^ k
pow-double b k = rw pow-suc (omega arith)

base-le : (b k : ℕ) → b ≤ b * 2 ^ k
base-le b zero = omega arith
base-le b (suc k) = omega (arith, base-le b k, pow-double b k)

-- From the first attempt on, the delay before the next attempt never falls from one attempt to the
-- next, and it lies between the base and the maximum, or is the maximum where that is below the
-- base.
pub retry_delay_bounds :
    (cfg : TaskSettings) (attempts : ℕ)
    → 0 < attempts
    → (min cfg.retry_base_seconds cfg.retry_max_seconds ≤ retry_delay cfg attempts)
      × (retry_delay cfg attempts ≤ cfg.retry_max_seconds)
      × (retry_delay cfg attempts ≤ retry_delay cfg (attempts + 1))
unfolding retry_delay
retry_delay_bounds cfg zero h = absurd (omega arith)
retry_delay_bounds cfg (suc k) h =
    let here : suc k - 1 ≡ k = omega arith in
    let next : suc k + 1 - 1 ≡ suc k = omega arith in
    rw (here, next, pow-double)
      (omega (arith, base-le cfg.retry_base_seconds k), omega arith, omega arith)

-- What a failure leaves of a task's row, for a worker that still holds the lease.
module _ (cfg : TaskSettings) (new_id : String) (now : Time) (id token error : String) (db : Db)
    (t : OutboxTask) (h : HasRow db id t) (held : holds token t ≡ true) where
  -- The task dies exactly when this failure uses up its attempts.
  pub fail_task_status :
      (fail_task cfg new_id now id (some token) error db).1
      ≡ some (
          if leb cfg.max_attempts (t.attempts + 1) then OutboxStatus.dead else OutboxStatus.pending)
  unfolding fail_task
  fail_task_status =
      let found = find_of_unique (has_id id) (holds token) db.tasks h.row h.only in
      rw (found, held) (ground arith)

  -- A failure with attempts left, which the holder of the lease reports, puts the task back: it is
  -- pending, has no lease, and is due after the back-off of its new count of attempts. No mail is
  -- sent and no message is touched. No other row has the task's id.
  pub fail_task-retries :
      t.attempts + 1 < cfg.max_attempts
      → fail_task cfg new_id now id (some token) error db ≡ (
        record db {
          tasks =
              save_task
                (record t {
                  status = OutboxStatus.pending;
                  attempts = t.attempts + 1;
                  available_at = now + retry_delay cfg (t.attempts + 1);
                  locked_at = none;
                  lease_token = none;
                  last_error = some error;
                })
                db.tasks;
        },
        some OutboxStatus.pending,
      )
  unfolding fail_task
  fail_task-retries more =
      let found = find_of_unique (has_id id) (holds token) db.tasks h.row h.only in
      let test : leb cfg.max_attempts (t.attempts + 1) ≡ false = ground arith in
      rw (found, held, test) (rw test)
