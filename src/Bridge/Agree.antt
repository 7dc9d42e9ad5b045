-- ===== src/Bridge/Agree.antt =====
-- What requests and tasks of runtime.py keep between the session file and the entry of an instance.
use multi_channel_ai_gateway.Base.{
  String, true, false, ◌||◌, Option, none, some, ◌≡◌, refl, ◌∙◌, ◌⊎◌, inl, inr, Bool-cases,
  Option-cases,
}
use multi_channel_ai_gateway.Bridge.State.{
  LoginPending, LoginSuccess, Stored, Instance, Slot, filled, load, clear, is_error,
  is_pending_login,
}
use multi_channel_ai_gateway.Bridge.Runtime.{
  start, stop, restore, begin, parked, restored, halted, waiting, wanted, busy,
}
use multi_channel_ai_gateway.Bridge.Handlers.{
  put, put_saved, logged_in, received, rotate_login, expired, erred, Ending, finished, cancelled,
  qr_expired, session_expired, failed, run_excepted, run_finally, online_excepted,
}
use multi_channel_ai_gateway.Bridge.Saved.{
  can_save, Holds, save_state-no_store, save_state-refused, save_state-saves,
}
use multi_channel_ai_gateway.Bridge.Sessions.{SlotInv, stop-live}

-- An entry takes the place of another that can be saved just as well.
put-SlotInv :
    (slot : Slot) (s s' : Instance)
    → SlotInv slot
    → slot.live ≡ some s
    → can_save s' ≡ can_save s
    → SlotInv (put s' slot)
put-SlotInv slot s s' v there same st h =
    let (name, owner) = v st h in
    (name, λ a e. let is : s' ≡ a = cc e in rw (← is, same) (owner s there))

-- Without a file, any entry is in order.
bare-SlotInv : (slot : Slot) → load slot ≡ none → SlotInv slot
bare-SlotInv slot n st h = absurd (cc (n, h))

put_saved-SlotInv :
    (slot : Slot) (s : Instance)
    → (can_save s ≡ true) ⊎ (load slot ≡ none)
    → SlotInv (put_saved s slot)
put_saved-SlotInv slot s h = elim (Bool-cases slot.has_store) [
  | inr f ↦ rw (save_state-no_store s (put s slot) f) (bare-SlotInv (put s slot) (rw f refl))
  | inl y ↦ elim (Bool-cases (can_save s)) [
    | inl can ↦
        let (st, saved, holds) = save_state-saves s (put s slot) y can in
        rw saved (λ st' e.
          let is : st ≡ st' = cc (rw y at e) in
          (rw (← is) holds.filled, λ a l. let same : s ≡ a = cc l in rw (← same) can))
    | inr cannot ↦ elim h [
      | inl can ↦ absurd (cc (can, cannot))
      | inr n ↦ rw (save_state-refused s (put s slot) cannot) (bare-SlotInv (put s slot) n)
    ]
  ]
]

saveable :
    (slot : Slot) (s : Instance)
    → SlotInv slot
    → slot.live ≡ some s
    → (can_save s ≡ true) ⊎ (load slot ≡ none)
saveable slot s v there = elim (Option-cases (load slot)) [
  | inl n ↦ inr n
  | inr (st, e) ↦ inl ((v st e).1 s there)
]

load-clear : (slot : Slot) (s : Instance) → load (put s (clear slot)) ≡ none
load-clear slot s = elim (Bool-cases slot.has_store) [ inl y ↦ rw y refl | inr f ↦ rw f refl ]

rotate_login-SlotInv :
    (slot : Slot) (s : Instance) (login : Option LoginPending)
    → SlotInv slot
    → slot.live ≡ some s
    → SlotInv (rotate_login login s slot)
unfolding rotate_login
rotate_login-SlotInv slot s none v there = elim (Bool-cases s.stopped) [
  | inl t ↦ rw t v
  | inr f ↦ rw f (put-SlotInv slot s _ v there refl)
]
rotate_login-SlotInv slot s (some p) v there = elim (Bool-cases s.stopped) [
  | inl t ↦ rw t v
  | inr f ↦ rw f (put-SlotInv slot s _ v there refl)
]

expired-SlotInv :
    (slot : Slot) (s : Instance) (login : Option LoginPending)
    → SlotInv (rotate_login login (expired s) (put (expired s) (clear slot)))
expired-SlotInv slot s login =
    rotate_login-SlotInv (put (expired s) (clear slot)) (expired s) login
      (bare-SlotInv (put (expired s) (clear slot)) (load-clear slot (expired s))) refl

pub run_excepted-SlotInv :
    (slot : Slot) (s : Instance) (e : Ending)
    → SlotInv slot
    → slot.live ≡ some s
    → SlotInv (run_excepted e s slot)
unfolding run_excepted
run_excepted-SlotInv slot s finished v there = v
run_excepted-SlotInv slot s cancelled v there = v
run_excepted-SlotInv slot s (qr_expired login) v there = rotate_login-SlotInv slot s login v there
run_excepted-SlotInv slot s (session_expired login) v there = expired-SlotInv slot s login
run_excepted-SlotInv slot s (failed name) v there = put-SlotInv slot s (erred name s) v there refl

pub online_excepted-SlotInv :
    (slot : Slot) (s : Instance) (e : Ending)
    → SlotInv slot
    → slot.live ≡ some s
    → SlotInv (online_excepted e s slot)
unfolding online_excepted
online_excepted-SlotInv slot s finished v there = v
online_excepted-SlotInv slot s cancelled v there = v
online_excepted-SlotInv slot s (qr_expired login) v there = put-SlotInv slot s _ v there refl
online_excepted-SlotInv slot s (session_expired login) v there =
    expired-SlotInv slot (record s { reporting = false }) login
online_excepted-SlotInv slot s (failed name) v there = put-SlotInv slot s _ v there refl

-- A file that holds the session of the entry.
Holds-SlotInv :
    (slot : Slot) (st : Stored) (s : Instance)
    → can_save s ≡ true
    → Holds st s
    → SlotInv (record slot { file = some st; live = some s })
Holds-SlotInv slot st s can holds st' h = elim (Bool-cases slot.has_store) [
  | inr f ↦ absurd (cc (rw f at h))
  | inl y ↦
      let is : st ≡ st' = cc (rw y at h) in
      (rw (← is) holds.filled, λ a l. let same : s ≡ a = cc l in rw (← same) can)
]

parked-SlotInv :
    (slot : Slot) (o : Option Stored)
    → SlotInv slot
    → slot.live ≡ none
    → load slot ≡ o
    → SlotInv (parked o slot)
parked-SlotInv slot none v n e st' h = v st' h
parked-SlotInv slot (some st) v n e st' h = elim (Bool-cases slot.has_store) [
  | inr f ↦ absurd (cc (rw f at h))
  | inl y ↦
      let is : record st { desired_running = false } ≡ st' = cc (rw y at h) in
      (rw (← is) (v st e).0, λ s l. absurd (cc (n, l)))
]

stop-none : (slot : Slot) → slot.live ≡ none → stop slot ≡ parked (load slot) slot
unfolding stop
stop-none slot n = rw n refl

pub stop-SlotInv : (slot : Slot) → SlotInv slot → SlotInv (stop slot)
stop-SlotInv slot v = elim (Option-cases slot.live) [
  | inl n ↦ rw (stop-none slot n) (parked-SlotInv slot (load slot) v n refl)
  | inr (s, there) ↦ elim (Bool-cases (can_save s)) [
    | inr cannot ↦
        let same : stop slot ≡ put (halted s) slot =
          stop-live slot s there
          ∙ rw (save_state-refused (record s { desired_running = false }) slot cannot) refl in
        rw same (put-SlotInv slot s (halted s) v there refl)
    | inl can ↦ elim (Bool-cases slot.has_store) [
      | inr f ↦
          let same : stop slot ≡ put (halted s) slot =
            stop-live slot s there
            ∙ rw (save_state-no_store (record s { desired_running = false }) slot f) refl in
          rw same (put-SlotInv slot s (halted s) v there refl)
      | inl y ↦
          let (st, saved, holds) =
            save_state-saves (record s { desired_running = false }) slot y can in
          let same : stop slot ≡ record slot { file = some st; live = some (halted s) } =
            stop-live slot s there ∙ rw saved refl in
          rw same (
            Holds-SlotInv slot st (halted s) can (record {
              credentials = holds.credentials;
              account = holds.account;
              filled = holds.filled;
              tokens = holds.tokens;
              desired = holds.desired;
            }))
    ]
  ]
]

begin-SlotInv :
    (slot : Slot) (login : Option LoginPending) (o : Option Stored)
    → SlotInv slot
    → load slot ≡ o
    → SlotInv (begin login o slot).0
unfolding begin
begin-SlotInv slot login (some st) v e = put_saved-SlotInv slot (restored st) (inl (v st e).0)
begin-SlotInv slot (some p) none v e = bare-SlotInv (put (waiting p) slot) e
begin-SlotInv slot none none v e = v

pub start-SlotInv :
    (slot : Slot) (login : Option LoginPending) → SlotInv slot → SlotInv (start login slot).0
unfolding start
start-SlotInv slot login v = elim (Bool-cases (busy slot.live)) [
  | inl b ↦ rw b v
  | inr b ↦ rw b (begin-SlotInv slot login (load slot) v refl)
]

pub restore-SlotInv :
    (slot : Slot) (login : Option LoginPending) → SlotInv slot → SlotInv (restore login slot).0
unfolding restore
restore-SlotInv slot login v = elim (Bool-cases (wanted (load slot))) [
  | inl w ↦ rw w (start-SlotInv slot login v)
  | inr w ↦ rw w v
]

pub run_finally-SlotInv :
    (slot : Slot) (s : Instance) → SlotInv slot → slot.live ≡ some s → SlotInv (run_finally s slot)
unfolding run_finally
run_finally-SlotInv slot s v there =
    elim (Bool-cases (is_error s.status || is_pending_login s.status)) [
      | inl b ↦ rw b v
      | inr b ↦ rw b (put-SlotInv slot s _ v there refl)
    ]

pub logged_in-SlotInv :
    (slot : Slot) (s : Instance) (login : LoginSuccess)
    → SlotInv slot
    → filled (some login.account_id) ≡ true
    → SlotInv (logged_in login s slot)
unfolding logged_in
logged_in-SlotInv slot s login v named = elim (Bool-cases s.stopped) [
  | inl t ↦ rw t v
  | inr f ↦ rw f (put_saved-SlotInv slot _ (inl named))
]

pub received-SlotInv :
    (slot : Slot) (s : Instance) (id token : String)
    → SlotInv slot
    → slot.live ≡ some s
    → SlotInv (received id token s slot)
unfolding received
received-SlotInv slot s id token v there = put_saved-SlotInv slot _ (saveable slot s v there)
