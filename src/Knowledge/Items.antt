-- ===== src/Knowledge/Items.antt =====
-- src/wecom_ai_gateway/knowledge.py: adding, indexing and deleting documents.
-- The encryption of security.py and the keyed fingerprint are parameters; decryption may raise. The
-- embedding of a chunk, a vector of floats, is left out.
use multi_channel_ai_gateway.Base.{
  ℕ, suc, String, Bool, true, false, ◌&&◌, ◌||◌, Option, none, some, List, [], ◌∷◌, ◌++◌, ◌==◌,
  if◌then◌else◌, find, delete_where, update_where, insert_row, or_else,
}
use multi_channel_ai_gateway.Base.Text.{text_length, strip, take_chars}
use multi_channel_ai_gateway.Models.{Time}
use multi_channel_ai_gateway.Knowledge.Chunks.{normalize_text, chunk_text}

pub record KnowledgeItem : Type 0 where
  pub id : String
  pub user_id : String
  pub title : String
  pub content : String
  pub content_encrypted : Option String
  pub content_sha256 : Option String
  pub source_type : String
  pub source_name : Option String
  pub source_url : Option String
  pub mime_type : Option String
  pub content_chars : ℕ
  pub indexed_at : Option Time

-- A row of the table `knowledge_chunks`.
pub record ItemChunk : Type 0 where
  pub item_id : String
  pub user_id : String
  pub chunk_index : ℕ
  pub content_encrypted : String
  pub content_sha256 : String
  pub char_count : ℕ

pub record KnowledgeDb : Type 0 where
  pub items : List KnowledgeItem
  pub chunks : List ItemChunk

pub record Cipher : Type 0 where
  pub encrypt_secret : String → String
  pub decrypt_secret : String → Option String
  pub fingerprint : String → String

-- What the caller of `add_item` says about the document.
pub record Source : Type 0 where
  pub source_type : String
  pub source_name : Option String
  pub source_url : Option String
  pub mime_type : Option String

abbrev pub chunk_of : String → ItemChunk → Bool
chunk_of id c = c.item_id == id

abbrev pub item_has_id : String → KnowledgeItem → Bool
item_has_id id i = i.id == id

abbrev pub titled : String → String → KnowledgeItem → Bool
titled user_id title i = (i.user_id == user_id) && (i.title == title)

abbrev pub owned_item : String → String → KnowledgeItem → Bool
owned_item user_id id i = (i.id == id) && (i.user_id == user_id)

-- An empty text counts like a missing one.
abbrev pub filled_text : Option String → Option String
filled_text none = none
filled_text (some s) = if s == "" then none else some s

unfoldable pub decrypted : Cipher → String → Option String → String
decrypted cipher content none = content
decrypted cipher content (some secret) = or_else (cipher.decrypt_secret secret) ""

unfoldable pub item_text : Cipher → KnowledgeItem → String
item_text cipher item = decrypted cipher item.content (filled_text item.content_encrypted)

abbrev pub chunk_row : Cipher → String → String → ℕ → String → ItemChunk
chunk_row cipher item_id user_id index chunk = record {
  item_id = item_id;
  user_id = user_id;
  chunk_index = index;
  content_encrypted = cipher.encrypt_secret chunk;
  content_sha256 = cipher.fingerprint chunk;
  char_count = text_length chunk;
}

unfoldable pub chunk_rows : Cipher → String → String → ℕ → List String → List ItemChunk
chunk_rows cipher item_id user_id index [] = []
chunk_rows cipher item_id user_id index (chunk ∷ chunks) =
    chunk_row cipher item_id user_id index chunk
    ∷ chunk_rows cipher item_id user_id (suc index) chunks

unfoldable pub index_chunks : Cipher → KnowledgeItem → List String → KnowledgeDb → KnowledgeDb
index_chunks cipher item chunks db = record db {
  chunks =
      delete_where (chunk_of item.id) db.chunks ++ chunk_rows cipher item.id item.user_id 1 chunks;
}

-- How `add_item` ends; `endless` would be a `chunk_text` whose fuel runs out, which never happens.
pub data AddResult : Type 0 where
  value_error endless : AddResult
  added : KnowledgeItem → KnowledgeDb → AddResult

abbrev pub new_item : String → String → String → KnowledgeItem
new_item id user_id title = record {
  id = id;
  user_id = user_id;
  title = title;
  content = "";
  content_encrypted = none;
  content_sha256 = none;
  source_type = "text";
  source_name = none;
  source_url = none;
  mime_type = none;
  content_chars = 0;
  indexed_at = none;
}

abbrev cut : ℕ → Option String → Option String
cut n none = none
cut n (some s) = if s == "" then none else some (take_chars n s)

unfoldable pub filled_item : Cipher → Time → String → Source → KnowledgeItem → KnowledgeItem
filled_item cipher now content source item = record item {
  content = "";
  content_encrypted = some (cipher.encrypt_secret content);
  content_sha256 = some (cipher.fingerprint content);
  source_type = take_chars 30 source.source_type;
  source_name = some (take_chars 255 (or_else (filled_text source.source_name) item.title));
  source_url = cut 1000 source.source_url;
  mime_type = cut 160 source.mime_type;
  content_chars = text_length content;
  indexed_at = some now;
}

unfoldable pub put_item :
    Option KnowledgeItem → KnowledgeItem → List KnowledgeItem → List KnowledgeItem
put_item none item items = insert_row item items
put_item (some old) item items = update_where (item_has_id old.id) (λ _. item) items

unfoldable pub indexed : Cipher → KnowledgeItem → Option (List String) → KnowledgeDb → AddResult
indexed cipher item none db = endless
indexed cipher item (some chunks) db = added item (index_chunks cipher item chunks db)

unfoldable pub add_titled :
    Cipher → String → Time → String → String → String → Source → ℕ → KnowledgeDb → AddResult
add_titled cipher id now user_id title content source chunk_chars db =
    let found = find (titled user_id title) db.items in
    let item = filled_item cipher now content source (or_else found (new_item id user_id title)) in
    indexed cipher item (chunk_text content chunk_chars)
      (record db { items = put_item found item db.items })

-- `id` and `now` are the new row's identifier and the clock.
unfoldable pub add_item :
    Cipher → String → Time → String → String → String → Source → ℕ → KnowledgeDb → AddResult
add_item cipher id now user_id title content source chunk_chars db =
    let short = take_chars 255 (strip title) in
    let text = normalize_text content in
    if (short == "") || (text == "")
    then value_error
    else add_titled cipher id now user_id short text source chunk_chars db

-- `db.delete(row)`, with the chunks that the foreign key takes along.
abbrev pub dropped : KnowledgeItem → KnowledgeDb → KnowledgeDb
dropped row db = record {
  items = delete_where (item_has_id row.id) db.items;
  chunks = delete_where (chunk_of row.id) db.chunks;
}

abbrev drop_found : Option KnowledgeItem → KnowledgeDb → KnowledgeDb × Bool
drop_found none db = (db, false)
drop_found (some row) db = (dropped row db, true)

unfoldable pub delete_item : String → String → KnowledgeDb → KnowledgeDb × Bool
delete_item user_id title db = drop_found (find (titled user_id (strip title)) db.items) db

unfoldable pub delete_item_by_id : String → String → KnowledgeDb → KnowledgeDb × Bool
delete_item_by_id user_id id db = drop_found (find (owned_item user_id id) db.items) db

reindexed :
    Cipher → Time → KnowledgeItem → Option (List String) → KnowledgeDb → Option (KnowledgeDb × Bool)
reindexed cipher now row none db = none
reindexed cipher now row (some chunks) db =
    let item = record row { indexed_at = some now } in
    some (
      index_chunks cipher item chunks
          (record db { items = update_where (item_has_id row.id) (λ _. item) db.items }),
      true,
    )

reindex_found : Cipher → Time → ℕ → Option KnowledgeItem → KnowledgeDb → Option (KnowledgeDb × Bool)
unfolding reindexed
reindex_found cipher now chunk_chars none db = some (db, false)
reindex_found cipher now chunk_chars (some row) db =
    let content = item_text cipher row in
    if content == ""
    then some (db, false)
    else reindexed cipher now row (chunk_text content chunk_chars) db

-- `none` would be a `chunk_text` whose fuel runs out, which never happens.
unfoldable pub reindex_item :
    Cipher → Time → String → String → ℕ → KnowledgeDb → Option (KnowledgeDb × Bool)
unfolding reindex_found
reindex_item cipher now user_id id chunk_chars db =
    reindex_found cipher now chunk_chars (find (owned_item user_id id) db.items) db
