-- ===== src/Binding/Codes.antt =====
-- src/wecom_ai_gateway/binding.py: bind codes, and the two ways to use one.
use multi_channel_ai_gateway.Base.{
  ℕ, ◌+◌, ◌*◌, String, Bool, ◌&&◌, Option, none, some, ◌==◌, ltb, is_some, if◌then◌else◌, find,
  delete_where, insert_row,
}
use multi_channel_ai_gateway.Base.Text.{strip}
use multi_channel_ai_gateway.Models.{Time}
use multi_channel_ai_gateway.Binding.Tables.{BindCode, BindDb, ChannelIdentity}
use multi_channel_ai_gateway.Binding.Merge.{merge_into, Stats}

abbrev pub bind_code_ttl_minutes : ℕ
bind_code_ttl_minutes = 10

abbrev pub has_code : String → BindCode → Bool
has_code code r = r.code == code

abbrev pub code_of : String → BindCode → Bool
code_of user r = r.user_id == user

-- How a use of a code ends.
pub data Used : Type 0 where
  unknown expired own_code no_identity : Used
  merged : Stats → Used

-- `code` is the random code that the loop ends with, which no other row has.
unfoldable pub create_bind_code : Time → String → BindDb → String → BindDb
create_bind_code now code db user_id = record db {
  codes =
      insert_row
        (record { code = code; user_id = user_id; expires_at = now + bind_code_ttl_minutes * 60 })
        (delete_where (code_of user_id) db.codes);
}

abbrev pub delete_code : BindCode → BindDb → BindDb
delete_code row db = record db { codes = delete_where (has_code row.code) db.codes }

abbrev pub this_identity : String → String → String → ChannelIdentity → Bool
this_identity user channel account r =
    (r.user_id == user) && ((r.channel == channel) && (r.account_id == account))

-- The merge, and the deletion of the code.
unfoldable pub merge_and_delete : BindCode → String → String → BindDb → BindDb × Used
merge_and_delete row source target db =
    let (db', stats) = merge_into source target db in (delete_code row db', merged stats)

resolve_row : Time → String → String → String → Option BindCode → BindDb → BindDb × Used
unfolding merge_and_delete
resolve_row now user_id channel account_id none db = (db, unknown)
resolve_row now user_id channel account_id (some row) db =
    if ltb row.expires_at now
    then (delete_code row db, expired)
    else if row.user_id == user_id
    then (delete_code row db, own_code)
    else if is_some (find (this_identity user_id channel account_id) db.identities)
    then merge_and_delete row user_id row.user_id db
    else (db, no_identity)

unfoldable pub resolve_bind : Time → BindDb → String → String → String → String → BindDb × Used
unfolding resolve_row
resolve_bind now db code user_id channel account_id =
    resolve_row now user_id channel account_id (find (has_code (strip code)) db.codes) db

-- Here the owner of the code is the source. The preview that it returns too is left out.
merge_row : Time → String → Option BindCode → BindDb → BindDb × Used
unfolding merge_and_delete
merge_row now target_user_id none db = (db, unknown)
merge_row now target_user_id (some row) db =
    if ltb row.expires_at now
    then (delete_code row db, expired)
    else if row.user_id == target_user_id
    then (db, own_code)
    else merge_and_delete row row.user_id target_user_id db

unfoldable pub merge_by_code : Time → BindDb → String → String → BindDb × Used
unfolding merge_row
merge_by_code now db code target_user_id =
    merge_row now target_user_id (find (has_code (strip code)) db.codes) db
