-- ===== src/Bridge/Sessions.antt =====
-- The session of an instance over restarts: runtime.py with its state store.
use multi_channel_ai_gateway.Base.{
  String, true, false, Option, none, some, List, ◌≡◌, refl, sym, ◌∙◌, inl, inr, Bool-cases,
  Option-cases,
}
use multi_channel_ai_gateway.Bridge.State.{
  Status, LoginPending, Stored, Instance, Slot, filled, load, save_state,
}
use multi_channel_ai_gateway.Bridge.Runtime.{
  start, stop, restore, send, status, begin, restored, halted, wanted, busy,
}
use multi_channel_ai_gateway.Bridge.Saved.{
  can_save, save_state-no_store, save_state-refused, save_state-saves, save_state-live,
}

-- What `stop` does to an entry.
pub stop-live :
    (slot : Slot) (s : Instance)
    → slot.live ≡ some s
    → stop slot
      ≡ record (save_state (record s { desired_running = false }) slot) { live = some (halted s) }
unfolding stop
stop-live slot s there = rw there refl

begin-live :
    (slot : Slot) (st : Stored) (login : Option LoginPending)
    → (begin login (some st) slot).0.live ≡ some (restored st)
unfolding begin
begin-live slot st login = save_state-live (restored st) (record slot { live = some (restored st) })

start-live :
    (slot : Slot) (st : Stored) (login : Option LoginPending)
    → busy slot.live ≡ false
    → load slot ≡ some st
    → (start login slot).0.live ≡ some (restored st)
unfolding start
start-live slot st login free there = rw free (rw there (begin-live slot st login))

-- An instance that is stopped while it has credentials and an account comes back with them, where
-- the runtime has a state store: starting it needs no login, and it is online with the same
-- credentials, the same account and the same context tokens.
pub stop_then_start :
    (slot : Slot) (s : Instance) (login : Option LoginPending)
    → slot.has_store ≡ true
    → slot.live ≡ some s
    → can_save s ≡ true
    → (s' : Instance) × ((start login (stop slot)).0.live ≡ some s')
      × (s'.status ≡ Status.online)
      × (s'.credentials ≡ s.credentials)
      × (s'.account_id ≡ s.account_id)
      × (s'.context_tokens ≡ s.context_tokens)
stop_then_start slot s login y there can =
    let (st, saved, holds) = save_state-saves (record s { desired_running = false }) slot y can in
    let halted_slot = record slot { file = some st; live = some (halted s) } in
    let same : stop slot ≡ halted_slot = stop-live slot s there ∙ (rw saved refl) in
    (
      restored st,
      rw same (start-live halted_slot st login refl (rw y refl)),
      refl,
      sym holds.credentials,
      sym holds.account,
      holds.tokens,
    )

-- A file that wants to be restored belongs to an entry that can be saved, if there is an entry.
abbrev pub SlotInv : Slot → Type 0
SlotInv slot =
    (st : Stored)
    → load slot ≡ some st
    → (filled (some st.account_id) ≡ true)
      × ((s : Instance) → slot.live ≡ some s → can_save s ≡ true)

unwanted : (slot : Slot) → SlotInv slot → wanted (load (stop slot)) ≡ false
unfolding stop
unwanted slot v = elim (Option-cases slot.live) [
  | inl n ↦ elim (Bool-cases slot.has_store) [
    | inr f ↦ rw (n, f) refl
    | inl y ↦ elim (Option-cases slot.file) [
      | inl e ↦ rw (n, y, e) refl
      | inr (st, e) ↦ rw (n, y, e) refl
    ]
  ]
  | inr (s, there) ↦
      let last = record s { desired_running = false } in
      elim (Bool-cases slot.has_store) [
        | inr f ↦
            let same : stop slot ≡ record slot { live = some (halted s) } =
              stop-live slot s there ∙ rw (save_state-no_store last slot f) refl in
            rw same (rw f refl)
        | inl y ↦ elim (Bool-cases (can_save s)) [
          | inl can ↦
              let (st, saved, holds) = save_state-saves last slot y can in
              let same : stop slot ≡ record slot { file = some st; live = some (halted s) } =
                stop-live slot s there ∙ rw saved refl in
              rw same (rw y holds.desired)
          | inr cannot ↦
              let same : stop slot ≡ record slot { live = some (halted s) } =
                stop-live slot s there ∙ rw (save_state-refused last slot cannot) refl in
              elim (Option-cases slot.file) [
                | inl e ↦ rw same (rw (y, e) refl)
                | inr (st, e) ↦ absurd (cc ((v st (rw (y, e) refl)).1 s there))
              ]
        ]
      ]
]

restore-unwanted :
    (slot : Slot) (login : Option LoginPending)
    → wanted (load slot) ≡ false
    → restore login slot ≡ (slot, false)
unfolding restore
restore-unwanted slot login h = rw h refl

stopped_quiet :
    (slot : Slot) (reply_to : Option String) (content : String) (attachments : List (Option String))
    → ((status (stop slot)).status ≡ Status.offline)
      × (send (stop slot) reply_to content attachments ≡ none)
unfolding stop status send
stopped_quiet slot reply_to content attachments = elim (Option-cases slot.live) [
  | inl n ↦ elim (Option-cases (load slot)) [
    | inl e ↦ rw (n, e) (refl, refl)
    | inr (st, e) ↦ rw (n, e) (refl, refl)
  ]
  | inr (s, there) ↦ rw there (refl, refl)
]

-- After `stop`, the instance is offline and sends nothing, and a restart of the bridge does not
-- bring it back.
pub stop-lasts :
    (slot : Slot) (login : Option LoginPending) (reply_to : Option String) (content : String)
    (attachments : List (Option String))
    → SlotInv slot
    → ((status (stop slot)).status ≡ Status.offline)
      × (send (stop slot) reply_to content attachments ≡ none)
      × (restore login (stop slot) ≡ (stop slot, false))
stop-lasts slot login reply_to content attachments v =
    let (off, silent) = stopped_quiet slot reply_to content attachments in
    (off, silent, restore-unwanted (stop slot) login (unwanted slot v))
