-- ===== src/Retention/Examples.antt =====
-- Runs of the cleanup.
use multi_channel_ai_gateway.Base.{
  String, true, false, none, some, [], ◌∷◌, ◌≡◌, refl, ◌==◌, arith, count_where, eq_iff, Bool-cases,
  inl, inr,
}
use multi_channel_ai_gateway.Models.{
  Time, OutboxStatus, OutboxTask, Message, MessageStatus, MessageDirection,
}
use multi_channel_ai_gateway.Retention.{
  AuditLog, RetentionSettings, Archive, cleanup_expired_data, purge, ids_where,
}
use multi_channel_ai_gateway.Retention.Removal.{UniqueIds}
use multi_channel_ai_gateway.Retention.Cleanup.{Cleaned, cleanup_expired_data-Cleaned}

abbrev two_days : RetentionSettings
two_days = record {
  message_retention_days = 2;
  dead_task_retention_days = 2;
  audit_retention_days = 0;
}

abbrev message_at : String → Time → Message
message_at id created_at = record {
  id = id;
  conversation_id = none;
  user_id = some "u1";
  direction = MessageDirection.inbound;
  status = MessageStatus.sent;
  merged_into = none;
  error = none;
  created_at = created_at;
}

abbrev task_at : String → OutboxStatus → OutboxTask
task_at id status = record {
  id = id;
  task_type = "message";
  dedupe_key = id;
  payload = [];
  status = status;
  attempts = 3;
  rerun_requested = false;
  available_at = 50;
  locked_at = none;
  lease_token = none;
  last_error = none;
  created_at = 50;
}

abbrev entry : AuditLog
entry = record { id = "a1"; user_id = some "u1"; action = "login"; created_at = 10 }

abbrev archive : Archive
archive = record {
  outbox = record {
    messages = message_at "m1" 100 ∷ message_at "m2" 90000 ∷ [];
    tasks = task_at "t1" OutboxStatus.dead ∷ task_at "t2" OutboxStatus.pending ∷ [];
    wakes = 0;
    alerts = [];
  };
  audit_logs = entry ∷ [];
}

-- Three days after the origin one message and one task go.
removed_rows :
    (cleanup_expired_data two_days 259200 archive).1
    ≡ record { messages = 1; dead_tasks = 1; audit_logs = 0 }
unfolding cleanup_expired_data purge ids_where
removed_rows = refl

apart : (a b k : String) → (a == b) ≡ false → (a == k) ≡ true → (b == k) ≡ false
apart a b k f y = ground (arith, f, y, eq_iff a k, eq_iff b k, eq_iff a b)

pair-UniqueIds :
    {A : Type 0} (id_of : A → String) (x y : A)
    → (id_of x == id_of y) ≡ false
    → UniqueIds id_of (x ∷ y ∷ [])
unfolding count_where
pair-UniqueIds id_of x y f = λ k. elim (Bool-cases (id_of x == k)) [
  | inl e ↦ rw (e, apart (id_of x) (id_of y) k f e) (omega arith)
  | inr n ↦ rw n (ground arith)
]

two_messages : UniqueIds (λ m. m.id) archive.outbox.messages
two_messages = pair-UniqueIds (λ m. m.id) (message_at "m1" 100) (message_at "m2" 90000) refl

two_tasks : UniqueIds (λ t. t.id) archive.outbox.tasks
two_tasks =
    pair-UniqueIds (λ t. t.id) (task_at "t1" OutboxStatus.dead) (task_at "t2" OutboxStatus.pending)
      refl

one_entry : UniqueIds (λ a. a.id) archive.audit_logs
unfolding count_where
one_entry k = ground arith

cleanup_expired_data-Cleaned_example :
    Cleaned two_days 259200 archive
      (cleanup_expired_data two_days 259200 archive).0
      (cleanup_expired_data two_days 259200 archive).1
cleanup_expired_data-Cleaned_example =
    cleanup_expired_data-Cleaned two_days 259200 archive two_messages two_tasks one_entry
