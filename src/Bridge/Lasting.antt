-- ===== src/Bridge/Lasting.antt =====
-- The session file and the entry of an instance agree, whatever the requests and the tasks do.
use multi_channel_ai_gateway.Base.{
  Bool, [], ◌∷◌, ◌++◌, if◌then◌else◌, String, true, false, Option, none, some, List, ◌≡◌,
}
use multi_channel_ai_gateway.Bridge.State.{
  Status, LoginPending, Stored, Instance, Slot, filled, load,
}
use multi_channel_ai_gateway.Bridge.Runtime.{stop, restore, wanted, status, send}
use multi_channel_ai_gateway.Bridge.Steps.{
  World, Act, Step, Reach, replaced, starts, stops, restores, acts, acts_late, log_in, receive,
  end_run, finalize, end_online, here, next,
}
use multi_channel_ai_gateway.Bridge.Sessions.{SlotInv, stop-lasts}
use multi_channel_ai_gateway.Bridge.Agree.{
  run_excepted-SlotInv, online_excepted-SlotInv, stop-SlotInv, start-SlotInv, restore-SlotInv,
  run_finally-SlotInv, logged_in-SlotInv, received-SlotInv,
}

Act-SlotInv : {a b : Slot} → Act a b → SlotInv a → SlotInv b
Act-SlotInv (log_in slot s login there named) v = logged_in-SlotInv slot s login v named
Act-SlotInv (receive slot s id token there) v = received-SlotInv slot s id token v there
Act-SlotInv (end_run slot s e there) v = run_excepted-SlotInv slot s e v there
Act-SlotInv (finalize slot s there) v = run_finally-SlotInv slot s v there
Act-SlotInv (end_online slot s e there) v = online_excepted-SlotInv slot s e v there

none_before : (xs ys : List Instance) → xs ++ ys ≡ [] → ys ≡ []
none_before [] ys e = e
none_before (x ∷ xs) ys e = absurd (cc e)

none_over : (over : Bool) (xs ys : List Instance) → (if over then ys else xs ++ ys) ≡ [] → ys ≡ []
none_over true xs ys e = e
none_over false xs ys e = none_before xs ys e

-- What was left over stays so.
Step-none : {a b : World} → Step a b → b.left_over ≡ [] → a.left_over ≡ []
Step-none (starts w over login) e = none_over over (replaced login w.slot) w.left_over e
Step-none (stops w) e = e
Step-none (restores w over login) e =
    none_over over (if wanted (load w.slot) then replaced login w.slot else []) w.left_over e
Step-none (acts w slot act) e = e
Step-none (acts_late w before after s s' slot there act live) e =
    let impossible = none_before before (s' ∷ after) e in absurd (cc impossible)

Step-SlotInv : {a b : World} → Step a b → b.left_over ≡ [] → SlotInv a.slot → SlotInv b.slot
Step-SlotInv (starts w over login) e v = start-SlotInv w.slot login v
Step-SlotInv (stops w) e v = stop-SlotInv w.slot v
Step-SlotInv (restores w over login) e v = restore-SlotInv w.slot login v
Step-SlotInv (acts w slot act) e v = Act-SlotInv act v
Step-SlotInv (acts_late w before after s s' slot there act live) e v =
    let impossible = none_before before (s' ∷ after) e in absurd (cc impossible)

Reach-SlotInv : {a b : World} → Reach a b → b.left_over ≡ [] → SlotInv a.slot → SlotInv b.slot
Reach-SlotInv here e v = v
Reach-SlotInv (next r step) e v = Step-SlotInv step e (Reach-SlotInv r (Step-none step e) v)

-- Whatever requests and task steps came before in any order, once `stop` is done the instance is
-- offline, it sends nothing, and a restart of the bridge does not bring it back, if no `start` has
-- replaced an entry while a task of that entry was running. At the start of the process there is no
-- entry. The file names an account if there is one, and so does every login.
pub stop_after_any_run :
    (w w' : World) (login : Option LoginPending) (reply_to : Option String) (content : String)
    (attachments : List (Option String))
    → w.slot.live ≡ none
    → ((st : Stored) → load w.slot ≡ some st → filled (some st.account_id) ≡ true)
    → Reach w w'
    → w'.left_over ≡ []
    → ((status (stop w'.slot)).status ≡ Status.offline)
      × (send (stop w'.slot) reply_to content attachments ≡ none)
      × (restore login (stop w'.slot) ≡ (stop w'.slot, false))
stop_after_any_run w w' login reply_to content attachments fresh named run alone =
    stop-lasts w'.slot login reply_to content attachments
      (Reach-SlotInv run alone (λ st h. (named st h, λ s l. absurd (cc (fresh, l)))))
