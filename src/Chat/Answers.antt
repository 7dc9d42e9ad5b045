-- ===== src/Chat/Answers.antt =====
-- Every way in which `process_message` of services.py answers a message keeps to its fence.
use multi_channel_ai_gateway.Base.{
  ℕ, String, Bool, true, false, ◌&&◌, Option, none, some, List, [], ◌∷◌, ◌++◌, ◌≡◌, refl, ◌==◌, inl,
  inr, if◌then◌else◌, Bool-cases, All, All-append, map,
}
use multi_channel_ai_gateway.Base.Text.{strip}
use multi_channel_ai_gateway.Chat.Rows.{
  ChatMessage, words, medium, qr_image, Identity, ChatDb, save_chat,
}
use multi_channel_ai_gateway.Chat.Calls.{
  CallOutcome, delivered, raised, killed, Ended, finished, failed, crashed, ChatEnv, Sent, send_all,
  settle_sent, identity_for, account_of_row,
}
use multi_channel_ai_gateway.Chat.Deliver.{
  is_started, fenced, send_of, text_ended, after_text, with_image, deliver_to, deliver_reply, qr_to,
  deliver_qr, chunks_of, chunks_to, answer_to, deliver_from, deliver_answer, unknown_dispatch,
  no_identity, stored_as, as_sent,
}
use multi_channel_ai_gateway.Chat.Careful.{
  Careful, For, same-Careful, send_all-For, fence_only-Careful, settle-Careful, released-Careful,
}

module _ (env : ChatEnv) (outcomes : ℕ → CallOutcome) (row : ChatMessage) (db : ChatDb) where
  -- A guard on the fence in front of anything that is careful once it is known to be down.
  guarded :
      (r : ChatDb × Ended)
      → (is_started row ≡ false → Careful row db r)
      → Careful row db (if is_started row then (db, unknown_dispatch) else r)
  guarded r careful = elim (Bool-cases (is_started row)) [
    | inl y ↦ rw y (same-Careful row db unknown_dispatch)
    | inr f ↦ rw f (careful f)
  ]

  deliver_to-Careful :
      (content stored : String) (found : Option Identity)
      → is_started row ≡ false
      → Careful row db
          (deliver_to env outcomes (fenced row) content stored found (save_chat (fenced row) db))
  unfolding deliver_to
  deliver_to-Careful content stored none new = fence_only-Careful row db no_identity new
  deliver_to-Careful content stored (some i) new =
      settle-Careful row db (some "started") (stored_as stored)
        (send_all outcomes 0 (send_of env (fenced row) i (words content) ∷ [])) new
        (send_all-For row.id outcomes 0 (send_of env (fenced row) i (words content) ∷ [])
          (refl, tt))

  pub deliver_reply-Careful :
      (content stored : String) → Careful row db (deliver_reply env outcomes row content stored db)
  unfolding deliver_reply
  deliver_reply-Careful content stored =
      let found = identity_for row (account_of_row env row) db in
      guarded
        (deliver_to env outcomes (fenced row) content stored found (save_chat (fenced row) db))
        (deliver_to-Careful content stored found)

  image-For :
      (i : Identity) (o : CallOutcome) (sent : Sent)
      → All (For row.id) sent.made
      → All (For row.id) (with_image (send_of env (fenced row) i qr_image) o sent).made
  unfolding with_image
  image-For i (delivered id) sent h =
      All-append (For row.id) sent.made (send_of env (fenced row) i qr_image ∷ []) h (refl, tt)
  image-For i (raised e) sent h =
      All-append (For row.id) sent.made (send_of env (fenced row) i qr_image ∷ []) h (refl, tt)
  image-For i killed sent h =
      All-append (For row.id) sent.made (send_of env (fenced row) i qr_image ∷ []) h (refl, tt)

  text-For :
      (image : Bool) (i : Identity) (o : CallOutcome) (sent : Sent) (e : Ended)
      → All (For row.id) sent.made
      → All (For row.id) (text_ended image (send_of env (fenced row) i qr_image) o sent e).made
  unfolding text_ended
  text-For true i o sent finished h = image-For i o sent h
  text-For false i o sent finished h = h
  text-For image i o sent (failed e) h = h
  text-For image i o sent crashed h = h

  qr_to-Careful :
      (content : String) (image : Bool) (found : Option Identity)
      → is_started row ≡ false
      → Careful row db
          (qr_to env outcomes (fenced row) content image found (save_chat (fenced row) db))
  unfolding qr_to after_text
  qr_to-Careful content image none new = fence_only-Careful row db no_identity new
  qr_to-Careful content image (some i) new =
      let shown = image && (row.channel == "wecom_kf") in
      let sent = send_all outcomes 0 (send_of env (fenced row) i (words content) ∷ []) in
      settle-Careful row db (some "started") as_sent
        (after_text shown (send_of env (fenced row) i qr_image) (outcomes 1) sent) new
        (text-For shown i (outcomes 1) sent sent.ended (
          send_all-For row.id outcomes 0 (send_of env (fenced row) i (words content) ∷ [])
            (refl, tt)))

  pub deliver_qr-Careful :
      (content : String) (image : Bool)
      → Careful row db (deliver_qr env outcomes row content image db)
  unfolding deliver_qr
  deliver_qr-Careful content image =
      let found = identity_for row (account_of_row env row) db in
      guarded (qr_to env outcomes (fenced row) content image found (save_chat (fenced row) db))
        (qr_to-Careful content image found)

  chunks-For :
      (i : Identity) (chunks media : List String)
      → All (For row.id) (
          map (λ c. send_of env (fenced row) i (words c)) chunks
          ++ map (λ m. send_of env (fenced row) i (medium m)) media)
  chunks-For i [] [] = tt
  chunks-For i [] (m ∷ media) = (refl, chunks-For i [] media)
  chunks-For i (c ∷ chunks) media = (refl, chunks-For i chunks media)

  chunks_to-Careful :
      (i : Identity) (chunks : Option (List String))
      → is_started row ≡ false
      → Careful row db (chunks_to env outcomes (fenced row) i chunks (save_chat (fenced row) db))
  unfolding chunks_to
  chunks_to-Careful i none new = fence_only-Careful row db crashed new
  chunks_to-Careful i (some chunks) new =
      let all =
        map (λ c. send_of env (fenced row) i (words c)) chunks
        ++ map (λ m. send_of env (fenced row) i (medium m)) row.media in
      let sent = send_all outcomes 0 all in
      released-Careful row (fenced row) db
        (settle_sent (fenced row) (some "started") as_sent sent (save_chat (fenced row) db))
        (settle-Careful row db (some "started") as_sent sent new
          (send_all-For row.id outcomes 0 all (chunks-For i chunks row.media)))

  answer_to-Careful :
      (answer : String) (found : Option Identity)
      → Careful row db (answer_to env outcomes row answer found db)
  unfolding answer_to
  answer_to-Careful answer none = same-Careful row db no_identity
  answer_to-Careful answer (some i) = elim (Bool-cases (answer == "")) [
    | inl y ↦ rw y (same-Careful row db (failed "未生成可发送的回复内容，将按任务策略重试"))
    | inr f ↦ rw f (
        guarded
          (chunks_to env outcomes (fenced row) i (chunks_of env answer) (save_chat (fenced row) db))
          (chunks_to-Careful i (chunks_of env answer)))
  ]

  deliver_from-Careful :
      (answer : String) (account : Option String)
      → Careful row db (deliver_from env outcomes row answer account db)
  unfolding deliver_from
  deliver_from-Careful answer none = same-Careful row db (failed "入站消息缺少渠道实例标识")
  deliver_from-Careful answer (some account) =
      answer_to-Careful (strip answer) (identity_for row (some account) db)

  pub deliver_answer-Careful :
      (answer : String) → Careful row db (deliver_answer env outcomes row answer db)
  unfolding deliver_answer
  deliver_answer-Careful answer = deliver_from-Careful answer (account_of_row env row)
