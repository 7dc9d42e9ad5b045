-- ===== src/Bridge/Steps.antt =====
-- The runtime of one instance as a step relation: requests and tasks interleave at their waits.
-- A login gives an account that is not the empty text. A task holds the instance that it was made
-- for, also after `start` has put another one into the dictionary.
use multi_channel_ai_gateway.Base.{
  String, Bool, true, ◌||◌, Option, none, some, List, [], ◌∷◌, ◌++◌, ◌≡◌, is_some, if◌then◌else◌,
}
use multi_channel_ai_gateway.Bridge.State.{Instance, Slot, LoginPending, LoginSuccess, filled, load}
use multi_channel_ai_gateway.Bridge.Runtime.{start, stop, restore, busy, wanted}
use multi_channel_ai_gateway.Bridge.Handlers.{
  logged_in, received, Ending, run_excepted, run_finally, online_excepted,
}

-- What a task does to the instance that it holds, here the entry of the slot.
pub data Act : Slot → Slot → Type 0 where
  log_in :
      (slot : Slot) (s : Instance) (login : LoginSuccess)
      → slot.live ≡ some s
      → filled (some login.account_id) ≡ true
      → Act slot (logged_in login s slot)
  receive :
      (slot : Slot) (s : Instance) (id token : String)
      → slot.live ≡ some s
      → Act slot (received id token s slot)
  end_run :
      (slot : Slot) (s : Instance) (e : Ending)
      → slot.live ≡ some s
      → Act slot (run_excepted e s slot)
  finalize : (slot : Slot) (s : Instance) → slot.live ≡ some s → Act slot (run_finally s slot)
  end_online :
      (slot : Slot) (s : Instance) (e : Ending)
      → slot.live ≡ some s
      → Act slot (online_excepted e s slot)

-- `left_over` holds the instances that `start` has replaced while a task of theirs was running.
pub record World : Type 0 where
  pub slot : Slot
  pub left_over : List Instance

-- The entry that `start` replaces, if it neither leaves it as it is nor raises.
abbrev pub replaced : Option LoginPending → Slot → List Instance
replaced login slot = elim slot.live [
  | none ↦ []
  | some s ↦
      if busy (some s) then [] else if is_some (load slot) || is_some login then s ∷ [] else []
]

-- `over` tells that the tasks of a replaced entry have ended.
abbrev pub started : Bool → Option LoginPending → World → World
started over login w = record {
  slot = (start login w.slot).0;
  left_over = if over then w.left_over else replaced login w.slot ++ w.left_over;
}

abbrev pub brought_back : Bool → Option LoginPending → World → World
brought_back over login w = record {
  slot = (restore login w.slot).0;
  left_over =
      if over
      then w.left_over
      else (if wanted (load w.slot) then replaced login w.slot else []) ++ w.left_over;
}

pub data Step : World → World → Type 0 where
  starts : (w : World) (over : Bool) (login : Option LoginPending) → Step w (started over login w)
  stops : (w : World) → Step w (record w { slot = stop w.slot })
  restores :
      (w : World) (over : Bool) (login : Option LoginPending) → Step w (brought_back over login w)
  acts : (w : World) (slot : Slot) → Act w.slot slot → Step w (record w { slot = slot })
  -- A task of a replaced instance changes that instance and the session file.
  acts_late :
      (w : World) (before after : List Instance) (s s' : Instance) (slot : Slot)
      → w.left_over ≡ before ++ s ∷ after
      → Act (record w.slot { live = some s }) slot
      → slot.live ≡ some s'
      → Step w
          (record { slot = record w.slot { file = slot.file }; left_over = before ++ s' ∷ after })

pub data Reach (w : World) : World → Type 0 where
  here : Reach w w
  next : {a b : World} → Reach w a → Step a b → Reach w b
