-- ===== src/Retention.antt =====
-- src/wecom_ai_gateway/retention.py: deleting old messages, dead tasks and audit entries.
-- The three runtime settings are given as the numbers of days. What the database deletes along with
-- a message, the rows of its attachments, is left out, and so is the commit.
use multi_channel_ai_gateway.Base.{
  Option, ℕ, ◌+◌, ◌-◌, ◌*◌, String, Bool, true, false, ◌||◌, ◌&&◌, List, [], ◌∷◌, ◌==◌, ltb,
  if◌then◌else◌, delete_where, length,
}
use multi_channel_ai_gateway.Models.{Time, OutboxTask, Message, is_dead}
use multi_channel_ai_gateway.Outbox.Tasks.{Db}
pub mod Removal
pub mod Cleanup
mod Examples

pub record AuditLog : Type 0 where
  pub id : String
  pub user_id : Option String
  pub action : String
  pub created_at : Time

pub record RetentionSettings : Type 0 where
  pub message_retention_days : ℕ
  pub dead_task_retention_days : ℕ
  pub audit_retention_days : ℕ

-- The outbox with its messages, and the audit log.
pub record Archive : Type 0 where
  pub outbox : Db
  pub audit_logs : List AuditLog

pub record Removed : Type 0 where
  pub messages : ℕ
  pub dead_tasks : ℕ
  pub audit_logs : ℕ

-- `column in ids`
unfoldable pub among : List String → String → Bool
among [] k = false
among (id ∷ ids) k = (k == id) || among ids k

module _ {A : Type 0} (id_of : A → String) where
  -- `select(Table.id).where(...)`
  unfoldable pub ids_where : (A → Bool) → List A → List String
  ids_where p [] = []
  ids_where p (x ∷ xs) = let rest = ids_where p xs in if p x then id_of x ∷ rest else rest

  unfoldable pub delete_ids : List String → List A → List A
  delete_ids [] rows = rows
  delete_ids (id ∷ ids) rows = delete_where (λ a. among (id ∷ ids) (id_of a)) rows

  -- One of the three blocks: the rows that stay, and how many were deleted.
  unfoldable pub purge : ℕ → (A → Bool) → List A → List A × ℕ
  purge days old rows =
      let ids = ids_where old rows in
      if ltb 0 days then (delete_ids ids rows, length ids) else (rows, 0)

-- `created_at < now - timedelta(days=days)`
abbrev pub older : ℕ → Time → Time → Bool
older days now created_at = ltb created_at (now - days * 86400)

abbrev pub old_message : ℕ → Time → Message → Bool
old_message days now m = older days now m.created_at

abbrev pub old_dead_task : ℕ → Time → OutboxTask → Bool
old_dead_task days now t = is_dead t.status && older days now t.created_at

abbrev pub old_audit_log : ℕ → Time → AuditLog → Bool
old_audit_log days now a = older days now a.created_at

unfoldable pub cleanup_expired_data : RetentionSettings → Time → Archive → Archive × Removed
cleanup_expired_data cfg now db =
    let days = cfg.message_retention_days in
    let (messages, m) = purge (λ a. a.id) days (old_message days now) db.outbox.messages in
    let dead_days = cfg.dead_task_retention_days in
    let (tasks, t) = purge (λ a. a.id) dead_days (old_dead_task dead_days now) db.outbox.tasks in
    let audit_days = cfg.audit_retention_days in
    let (audit_logs, a) =
      purge (λ a. a.id) audit_days (old_audit_log audit_days now) db.audit_logs in
    (
      record {
        outbox = record db.outbox { messages = messages; tasks = tasks };
        audit_logs = audit_logs;
      },
      record { messages = m; dead_tasks = t; audit_logs = a },
    )
