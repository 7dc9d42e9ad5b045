-- ===== src/Bridge/Saved.antt =====
-- What `_save_state` of runtime.py leaves in the session file.
use multi_channel_ai_gateway.Base.{
  Bool, true, false, ◌&&◌, some, ◌≡◌, refl, inl, inr, ◌==◌, is_some, Bool-cases, Option-cases,
}
use multi_channel_ai_gateway.Bridge.State.{Stored, Instance, Slot, filled, save_state}

-- A state that `_save_state` writes.
abbrev pub can_save : Instance → Bool
can_save s = is_some s.credentials && filled s.account_id

-- The file holds the session of the state.
pub record Holds (st : Stored) (s : Instance) : Type 0 where
  pub credentials : s.credentials ≡ some st.credentials
  pub account : s.account_id ≡ some st.account_id
  pub filled : filled (some st.account_id) ≡ true
  pub tokens : st.context_tokens ≡ s.context_tokens
  pub desired : st.desired_running ≡ s.desired_running

module _ (s : Instance) (slot : Slot) where
  pub save_state-no_store : slot.has_store ≡ false → save_state s slot ≡ slot
  save_state-no_store h = rw h refl

  pub save_state-refused : can_save s ≡ false → save_state s slot ≡ slot
  save_state-refused h = elim (Bool-cases slot.has_store) [
    | inr n ↦ rw n refl
    | inl y ↦ elim (Option-cases s.credentials) [
      | inl c ↦ rw (y, c) refl
      | inr (c, is_c) ↦ elim (Option-cases s.account_id) [
        | inl a ↦ rw (y, is_c, a) refl
        | inr (a, is_a) ↦ elim (Bool-cases (a == "")) [
          | inl e ↦ rw (y, is_c, is_a) (rw e refl)
          | inr e ↦ absurd (cc (rw (is_c, is_a, e) at h))
        ]
      ]
    ]
  ]

  pub save_state-saves :
      slot.has_store ≡ true
      → can_save s ≡ true
      → (st : Stored) × (save_state s slot ≡ record slot { file = some st }) × Holds st s
  save_state-saves y h = elim (Option-cases s.credentials) [
    | inl c ↦ absurd (cc (rw c at h))
    | inr (c, is_c) ↦ elim (Option-cases s.account_id) [
      | inl a ↦ absurd (cc (rw (is_c, a) at h))
      | inr (a, is_a) ↦ elim (Bool-cases (a == "")) [
        | inl e ↦ absurd (cc (rw (is_c, is_a, e) at h))
        | inr e ↦ (
          record {
            credentials = c;
            account_id = a;
            context_tokens = s.context_tokens;
            desired_running = s.desired_running;
          },
          rw (y, is_c, is_a) (rw e refl),
          record {
            credentials = is_c;
            account = is_a;
            filled = rw e refl;
            tokens = refl;
            desired = refl;
          },
        )
      ]
    ]
  ]

  pub save_state-live : (save_state s slot).live ≡ slot.live
  save_state-live = elim (Bool-cases slot.has_store) [
    | inr n ↦ rw (save_state-no_store n) refl
    | inl y ↦ elim (Bool-cases (can_save s)) [
      | inr no_session ↦ rw (save_state-refused no_session) refl
      | inl can ↦ let (st, saved, _) = save_state-saves y can in rw saved refl
    ]
  ]
