-- ===== src/Retention/Cleanup.antt =====
-- What `cleanup_expired_data` of retention.py deletes, and what it leaves.
use multi_channel_ai_gateway.Base.{
  ℕ, ◌*◌, Bool, false, not, ◌||◌, ◌&&◌, List, [], ◌∷◌, ◌≡◌, refl, ap, ltb, leb, nat_eq,
  select_where, length, arith, inl, inr, Bool-cases, ◌∙◌, ◌+◌,
}
use multi_channel_ai_gateway.Models.{
  Time, OutboxStatus, OutboxTask, is_dead, is_pending, is_processing,
}
use multi_channel_ai_gateway.Outbox.Lease.{first_claimable, claimable, before}
use multi_channel_ai_gateway.Retention.Removal.{UniqueIds, purged-stays, purged-count}
use multi_channel_ai_gateway.Retention.{
  RetentionSettings, Archive, Removed, purge, older, old_message, old_dead_task, old_audit_log,
  cleanup_expired_data,
}

-- The rows that a retention of so many days keeps; no days mean for ever.
abbrev pub within : ℕ → Time → Time → Bool
within days now created_at = nat_eq days 0 || leb now (created_at + days * 86400)

older-kept :
    (days : ℕ) (now created_at : Time)
    → not (ltb 0 days && older days now created_at) ≡ within days now created_at
older-kept days now created_at = ground arith

dead-kept :
    (days : ℕ) (now : Time) (t : OutboxTask)
    → not (ltb 0 days && old_dead_task days now t)
      ≡ (not (is_dead t.status) || within days now t.created_at)
dead-kept days now t = ground (arith, older-kept days now t.created_at)

abbrev pub task_stays : ℕ → Time → OutboxTask → Bool
task_stays days now t = not (is_dead t.status) || within days now t.created_at

claimable-kept :
    (days : ℕ) (now at stale : Time) (t : OutboxTask)
    → task_stays days now t ≡ false
    → claimable at stale t ≡ false
unfolding claimable
claimable-kept days now at stale t h =
    elim t.status
        as (λ s.
          not (is_dead s) || within days now t.created_at ≡ false
          → ((is_pending s && leb t.available_at at)
              || (is_processing s && before t.locked_at stale))
            ≡ false) [
              | OutboxStatus.pending ↦ λ e. cc
              | OutboxStatus.processing ↦ λ e. cc
              | OutboxStatus.done ↦ λ e. cc
              | OutboxStatus.dead ↦ λ e. refl
            ]
      h

first_claimable-kept :
    (days : ℕ) (now at stale : Time) (ts : List OutboxTask)
    → first_claimable at stale (select_where (task_stays days now) ts) ≡ first_claimable at stale ts
unfolding first_claimable select_where
first_claimable-kept days now at stale [] = refl
first_claimable-kept days now at stale (t ∷ ts) = elim (Bool-cases (task_stays days now t)) [
  | inl y ↦ rw (y, first_claimable-kept days now at stale ts) refl
  | inr f ↦ rw (f, claimable-kept days now at stale t f) (first_claimable-kept days now at stale ts)
]

-- A cleanup of `before` at the time `now` that left `after`.
pub record Cleaned (cfg : RetentionSettings) (now : Time) (old new : Archive) (removed : Removed)
    : Type 0 where
  pub messages :
      new.outbox.messages
      ≡ select_where (λ m. within cfg.message_retention_days now m.created_at) old.outbox.messages
  pub tasks :
      new.outbox.tasks ≡ select_where (task_stays cfg.dead_task_retention_days now) old.outbox.tasks
  pub audit_logs :
      new.audit_logs
      ≡ select_where (λ a. within cfg.audit_retention_days now a.created_at) old.audit_logs
  pub messages_counted : length new.outbox.messages + removed.messages ≡ length old.outbox.messages
  pub tasks_counted : length new.outbox.tasks + removed.dead_tasks ≡ length old.outbox.tasks
  pub audit_logs_counted : length new.audit_logs + removed.audit_logs ≡ length old.audit_logs
  pub same_claim :
      (at stale : Time)
      → first_claimable at stale new.outbox.tasks ≡ first_claimable at stale old.outbox.tasks

-- With identifiers that are unique in each table, a cleanup leaves exactly the messages and audit
-- entries that are not older than their retention and the tasks that are not dead or not older than
-- theirs, in their order; a retention of no days leaves all. It reports for each table how many rows
-- went, and the task that a worker gets next is the same, whenever it asks.
pub cleanup_expired_data-Cleaned :
    (cfg : RetentionSettings) (now : Time) (db : Archive)
    → UniqueIds (λ m. m.id) db.outbox.messages
    → UniqueIds (λ t. t.id) db.outbox.tasks
    → UniqueIds (λ a. a.id) db.audit_logs
    → Cleaned cfg now db (cleanup_expired_data cfg now db).0 (cleanup_expired_data cfg now db).1
unfolding cleanup_expired_data purge
cleanup_expired_data-Cleaned cfg now db um ut ua =
    let days = cfg.message_retention_days in
    let dead_days = cfg.dead_task_retention_days in
    let audit_days = cfg.audit_retention_days in
    let tasks_left =
      purged-stays (λ t. t.id) (ltb 0 dead_days) (old_dead_task dead_days now) db.outbox.tasks ut
      ∙ ap (λ p. select_where p db.outbox.tasks) (λ i t. dead-kept dead_days now t i) in
    record {
      messages =
          purged-stays (λ m. m.id) (ltb 0 days) (old_message days now) db.outbox.messages um
          ∙ ap (λ p. select_where p db.outbox.messages) (λ i m. older-kept days now m.created_at i);
      tasks = tasks_left;
      audit_logs =
          purged-stays (λ a. a.id) (ltb 0 audit_days) (old_audit_log audit_days now) db.audit_logs
            ua
          ∙ ap (λ p. select_where p db.audit_logs)
              (λ i a. older-kept audit_days now a.created_at i);
      messages_counted =
          purged-count (λ m. m.id) (ltb 0 days) (old_message days now) db.outbox.messages um;
      tasks_counted =
          purged-count (λ t. t.id) (ltb 0 dead_days) (old_dead_task dead_days now) db.outbox.tasks
            ut;
      audit_logs_counted =
          purged-count (λ a. a.id) (ltb 0 audit_days) (old_audit_log audit_days now) db.audit_logs
            ua;
      same_claim = λ at stale.
          ap (first_claimable at stale) tasks_left
          ∙ first_claimable-kept dead_days now at stale db.outbox.tasks;
    }
