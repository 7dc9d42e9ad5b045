-- ===== src/Binding/OneTime.antt =====
-- A bind code of binding.py serves once.
use multi_channel_ai_gateway.Base.{
  String, false, Option, none, some, ◌≡◌, refl, sym, ap, inl, inr, ◌==◌, ltb, is_some, find,
  Bool-cases, Option-cases, ==-eq, find_sound, find-delete_self,
}
use multi_channel_ai_gateway.Base.Text.{strip}
use multi_channel_ai_gateway.Models.{Time}
use multi_channel_ai_gateway.Binding.Tables.{BindCode, BindDb}
use multi_channel_ai_gateway.Binding.Merge.{merge_into, hand_over, Stats}
use multi_channel_ai_gateway.Binding.Codes.{
  Used, unknown, merged, has_code, this_identity, merge_and_delete, resolve_bind, merge_by_code,
}

abbrev pub code_for : BindDb → String → Option BindCode
code_for db code = find (has_code (strip code)) db.codes

-- The code of the row is not found any more.
spent :
    (db : BindDb) (code : String) (row : BindCode) (source target : String)
    → code_for db code ≡ some row
    → code_for (merge_and_delete row source target db).0 code ≡ none
unfolding merge_and_delete merge_into hand_over
spent db code row source target h =
    let same = ==-eq row.code (strip code) (find_sound (has_code (strip code)) db.codes h) in
    rw same (find-delete_self (has_code (strip code)) db.codes)

-- Neither way of using a code that is not there changes anything.
abbrev pub Refused : BindDb → String → Type 0
Refused db code =
    (now : Time) (user channel account target : String)
    → (resolve_bind now db code user channel account ≡ (db, unknown))
      × (merge_by_code now db code target ≡ (db, unknown))

absent-Refused : (db : BindDb) (code : String) → code_for db code ≡ none → Refused db code
unfolding resolve_bind merge_by_code
absent-Refused db code h now user channel account target = rw h (refl, refl)

-- How a successful use went: the row was there, was not expired, and was another user's.
resolve_bind-inv :
    (now : Time) (db db' : BindDb) (code user channel account : String) (stats : Stats)
    → resolve_bind now db code user channel account ≡ (db', merged stats)
    → (row : BindCode) × (code_for db code ≡ some row)
      × (ltb row.expires_at now ≡ false)
      × ((row.user_id == user) ≡ false)
      × ((db', merged stats) ≡ merge_and_delete row user row.user_id db)
unfolding resolve_bind
resolve_bind-inv now db db' code user channel account stats h =
    elim (Option-cases (code_for db code)) [
      | inl n ↦ absurd (cc (rw n at h))
      | inr (row, e) ↦ elim (Bool-cases (ltb row.expires_at now)) [
        | inl x ↦ absurd (cc (rw x at (rw e at h)))
        | inr x ↦ elim (Bool-cases (row.user_id == user)) [
          | inl o ↦ absurd (cc (rw o at (rw x at (rw e at h))))
          | inr o ↦
              elim (Bool-cases
                (is_some (find (this_identity user channel account) db.identities))) [
                  | inr i ↦ absurd (cc (rw i at (rw o at (rw x at (rw e at h)))))
                  | inl i ↦ (row, e, x, o, sym (rw i at (rw o at (rw x at (rw e at h)))))
                ]
        ]
      ]
    ]

-- A code by which `resolve_bind` merged two users is spent: it is unknown to both commands
-- afterwards, which then change nothing. It was the code of another user, and had not expired.
pub resolve_bind-once :
    (now : Time) (db db' : BindDb) (code user channel account : String) (stats : Stats)
    → resolve_bind now db code user channel account ≡ (db', merged stats)
    → Refused db' code
      × ((row : BindCode) × (code_for db code ≡ some row)
          × (ltb row.expires_at now ≡ false)
          × ((row.user_id == user) ≡ false)
          × (db' ≡ (merge_and_delete row user row.user_id db).0))
resolve_bind-once now db db' code user channel account stats h =
    let (row, there, live, other, made) =
      resolve_bind-inv now db db' code user channel account stats h in
    let after : db' ≡ (merge_and_delete row user row.user_id db).0 =
      ap (λ (r : BindDb × Used). r.0) made in
    (
      absent-Refused db' code (rw after (spent db code row user row.user_id there)),
      (row, there, live, other, after),
    )
