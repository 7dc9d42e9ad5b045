-- ===== src/Outbox/Invariant.antt =====
-- What holds of the outbox table between two transactions of tasks.py.
use multi_channel_ai_gateway.Base.{
  ◌≤◌, ◌<◌, String, Bool, true, none, some, List, [], ◌∷◌, ◌++◌, ◌≡◌, sym, ap, ◌⊎◌, inl, inr, ◌==◌,
  arith, eq_iff, find, update_where, count_where, is_some, All, All-append, All-update, Bool-cases,
  count-save, count_of_find-none, count-append, count-update_same, ==-eq,
}
use multi_channel_ai_gateway.Models.{OutboxStatus, OutboxTask, is_processing}
use multi_channel_ai_gateway.Outbox.Tasks.{TaskSettings, has_id, has_key, save_task}

-- A row has a lease exactly while it is being processed, and it is dead exactly when its attempts
-- are used up, unless it is done.
pub record RowInv (cfg : TaskSettings) (t : OutboxTask) : Type 0 where
  pub locked : is_some t.locked_at ≡ is_processing t.status
  pub leased : is_some t.lease_token ≡ is_processing t.status
  pub live :
      (t.status ≡ OutboxStatus.pending) ⊎ (t.status ≡ OutboxStatus.processing)
      → t.attempts < cfg.max_attempts
  pub spent : t.status ≡ OutboxStatus.dead → cfg.max_attempts ≤ t.attempts

-- Both unique columns are unique, and every row is in order.
pub record TasksInv (cfg : TaskSettings) (ts : List OutboxTask) : Type 0 where
  pub ids : (id : String) → count_where (has_id id) ts ≤ 1
  pub keys : (key : String) → count_where (has_key key) ts ≤ 1
  pub rows : All (RowInv cfg) ts

module _ (cfg : TaskSettings) where
  -- Writing back a row that was found, with its id and key as they were.
  pub save-TasksInv :
      (p : OutboxTask → Bool) (ts : List OutboxTask) (t t' : OutboxTask)
      → TasksInv cfg ts
      → find p ts ≡ some t
      → t'.id ≡ t.id
      → t'.dedupe_key ≡ t.dedupe_key
      → RowInv cfg t'
      → TasksInv cfg (save_task t' ts)
  save-TasksInv p ts t t' v found same_id same_key row = record {
    ids = λ id.
        let same =
          count-save (has_id t'.id) p (has_id id) t' ts found hit (v.ids t'.id)
            (ap (λ s. s == id) same_id) in
        omega (arith, same, v.ids id);
    keys = λ key.
        let same =
          count-save (has_id t'.id) p (has_key key) t' ts found hit (v.ids t'.id)
            (ap (λ s. s == key) same_key) in
        omega (arith, same, v.keys key);
    rows = All-update (RowInv cfg) (has_id t'.id) (λ _. t') ts (λ a _ _. row) v.rows;
  }
    where
      hit : has_id t'.id t ≡ true
      hit = (eq_iff t.id t'.id).1 (sym same_id)

  -- Adding a row whose id and key no row has.
  pub insert-TasksInv :
      (ts : List OutboxTask) (t : OutboxTask)
      → TasksInv cfg ts
      → find (has_id t.id) ts ≡ none
      → find (has_key t.dedupe_key) ts ≡ none
      → RowInv cfg t
      → TasksInv cfg (ts ++ t ∷ [])
  unfolding count_where
  insert-TasksInv ts t v new_id new_key row = record {
    ids = λ id. elim (Bool-cases (t.id == id)) [
      | inl e ↦
          let none_yet = count_of_find-none (has_id t.id) ts new_id in
          rw (count-append, e, ← ==-eq t.id id e, none_yet) (omega arith)
      | inr e ↦ rw (count-append, e) (omega (arith, v.ids id))
    ];
    keys = λ key. elim (Bool-cases (t.dedupe_key == key)) [
      | inl e ↦
          let none_yet = count_of_find-none (has_key t.dedupe_key) ts new_key in
          rw (count-append, e, ← ==-eq t.dedupe_key key e, none_yet) (omega arith)
      | inr e ↦ rw (count-append, e) (omega (arith, v.keys key))
    ];
    rows = All-append (RowInv cfg) ts (t ∷ []) v.rows (row, tt);
  }

  -- An update that leaves ids and keys alone.
  pub update-TasksInv :
      (p : OutboxTask → Bool) (f : OutboxTask → OutboxTask) (ts : List OutboxTask)
      → ((a : OutboxTask) → ((f a).id ≡ a.id) × ((f a).dedupe_key ≡ a.dedupe_key))
      → ((a : OutboxTask) → p a ≡ true → RowInv cfg a → RowInv cfg (f a))
      → TasksInv cfg ts
      → TasksInv cfg (update_where p f ts)
  update-TasksInv p f ts same row v = record {
    ids = λ id. omega (
      arith,
      v.ids id,
      count-update_same p (has_id id) f ts (λ a _. ap (λ s. s == id) (same a).0),
    );
    keys = λ key. omega (
      arith,
      v.keys key,
      count-update_same p (has_key key) f ts (λ a _. ap (λ s. s == key) (same a).1),
    );
    rows = All-update (RowInv cfg) p f ts row v.rows;
  }
