-- ===== src/Chat/Careful.antt =====
-- What the ways to answer a message in services.py have in common.
use multi_channel_ai_gateway.Base.{
  ℕ, suc, String, Bool, true, false, Option, none, List, [], ◌∷◌, ◌++◌, ◌≡◌, refl, ap, ◌∙◌, ◌==◌,
  ◌⊎◌, inl, inr, if◌then◌else◌, arith, All, count_where, count-append,
}
use multi_channel_ai_gateway.Models.{MessageStatus}
use multi_channel_ai_gateway.Chat.Rows.{ChatMessage, Body, Send, ChatDb, save_chat}
use multi_channel_ai_gateway.Chat.Calls.{
  CallOutcome, delivered, raised, killed, Ended, finished, failed, crashed, Sent, after_call,
  send_all, settle_ended, settle_sent,
}
use multi_channel_ai_gateway.Chat.Deliver.{is_started, fenced, released}
use multi_channel_ai_gateway.Chat.Process.{is_merged}
use multi_channel_ai_gateway.Chat.Fence.{
  FencedAs, Fence, save-Fence, save_own-Fence, release-Fence, or_middle,
}

abbrev pub sent_for : String → Send → Bool
sent_for id x = x.message_id == id

-- Which calls and rows may result from answering `row`.
pub record Careful (row : ChatMessage) (db : ChatDb) (r : ChatDb × Ended) : Type 0 where
  pub keeps : (id : String) → FencedAs id row → Fence id db.messages → Fence id r.0.messages
  pub quiet : is_started row ≡ true → r.0.sends ≡ db.sends
  pub raises : (r.0.sends ≡ db.sends) ⊎ Fence row.id r.0.messages
  pub others :
      (id : String)
      → (row.id == id) ≡ false
      → count_where (sent_for id) r.0.sends ≡ count_where (sent_for id) db.sends

pub same-Careful : (row : ChatMessage) (db : ChatDb) (e : Ended) → Careful row db (db, e)
same-Careful row db e = record {
  keeps = λ id own h. h;
  quiet = λ h. refl;
  raises = inl refl;
  others = λ id h. refl;
}

abbrev pub For : String → Send → Type 0
For id x = x.message_id ≡ id

pub send_all-For :
    (id : String) (outcomes : ℕ → CallOutcome) (n : ℕ) (xs : List Send)
    → All (For id) xs
    → All (For id) (send_all outcomes n xs).made
unfolding send_all after_call
send_all-For id outcomes n [] h = tt
send_all-For id outcomes n (x ∷ xs) (hx, h) =
    by_outcome (outcomes n) (send_all-For id outcomes (suc n) xs h)
  where
    by_outcome :
        (o : CallOutcome)
        → All (For id) (send_all outcomes (suc n) xs).made
        → All (For id) (after_call x o (send_all outcomes (suc n) xs)).made
    by_outcome (delivered i) k = (hx, k)
    by_outcome (raised e) k = (hx, tt)
    by_outcome killed k = (hx, tt)

count-none :
    (id j : String) (xs : List Send)
    → (j == id) ≡ false
    → All (For j) xs
    → count_where (sent_for id) xs ≡ 0
unfolding count_where
count-none id j [] differ h = refl
count-none id j (x ∷ xs) differ (hx, h) = rw (hx, differ) (count-none id j xs differ h)

-- The rows once the fence stands: as they are, or with the reply's row as sent.
settled-Fence :
    (id : String) (row : ChatMessage) (dispatch : Option String) (stored : Body → Body)
    (sent : Sent) (db : ChatDb) (e : Ended)
    → Fence id db.messages
    → Fence id (settle_ended row dispatch stored sent db e).0.messages
unfolding settle_ended
settled-Fence id row dispatch stored sent db finished h =
    let done = record row {
      status = MessageStatus.sent;
      error = none;
      reply_dispatch = dispatch;
    } in
    save-Fence id done db (λ own. or_middle (is_started done) (is_merged done)) h
settled-Fence id row dispatch stored sent db (failed e) h = h
settled-Fence id row dispatch stored sent db crashed h = h

settled-sends :
    (row : ChatMessage) (dispatch : Option String) (stored : Body → Body) (sent : Sent)
    (db : ChatDb) (e : Ended)
    → (settle_ended row dispatch stored sent db e).0.sends ≡ db.sends ++ sent.made
unfolding settle_ended
settled-sends row dispatch stored sent db finished = refl
settled-sends row dispatch stored sent db (failed e) = refl
settled-sends row dispatch stored sent db crashed = refl

-- Sending after the fence has been raised.
pub settle-Careful :
    (row : ChatMessage) (db : ChatDb) (dispatch : Option String) (stored : Body → Body)
    (sent : Sent)
    → is_started row ≡ false
    → All (For row.id) sent.made
    → Careful row db (settle_sent (fenced row) dispatch stored sent (save_chat (fenced row) db))
unfolding settle_sent
settle-Careful row db dispatch stored sent new own = record {
  keeps = λ id h all.
      settled-Fence id (fenced row) dispatch stored sent (save_chat (fenced row) db) sent.ended
        (save-Fence id (fenced row) db (λ p. refl) all);
  quiet = λ h. absurd (cc (new, h));
  raises = inr (
      settled-Fence row.id (fenced row) dispatch stored sent (save_chat (fenced row) db) sent.ended
        (save_own-Fence (fenced row) db.messages refl));
  others = λ id differ.
      ap (count_where (sent_for id))
        (settled-sends (fenced row) dispatch stored sent (save_chat (fenced row) db) sent.ended)
      ∙ (count-append (sent_for id) db.sends sent.made
          ∙ omega (arith, count-none id row.id sent.made differ own));
}

pub if-Careful :
    (row : ChatMessage) (db : ChatDb) (b : Bool) (x y : ChatDb × Ended)
    → Careful row db x
    → Careful row db y
    → Careful row db (if b then x else y)
if-Careful row db true x y cx cy = cx
if-Careful row db false x y cx cy = cy

pub fence_only-Careful :
    (row : ChatMessage) (db : ChatDb) (e : Ended)
    → is_started row ≡ false
    → Careful row db (save_chat (fenced row) db, e)
fence_only-Careful row db e new = record {
  keeps = λ id own all. save-Fence id (fenced row) db (λ p. refl) all;
  quiet = λ h. absurd (cc (new, h));
  raises = inl refl;
  others = λ id differ. refl;
}

pub released-Careful :
    (row : ChatMessage) (by : ChatMessage) (db : ChatDb) (r : ChatDb × Ended)
    → Careful row db r
    → Careful row db (released by r)
unfolding released
released-Careful row by db (db', finished) c = record {
  keeps = λ id own h. release-Fence id by db'.messages (c.keeps id own h);
  quiet = c.quiet;
  raises = elim c.raises [
    | inl same ↦ inl same
    | inr fence ↦ inr (release-Fence row.id by db'.messages fence)
  ];
  others = c.others;
}
released-Careful row by db (db', failed e) c = c
released-Careful row by db (db', crashed) c = c
