-- ===== src/Knowledge/Legacy.antt =====
-- src/wecom_ai_gateway/knowledge.py: `migrate_legacy_items` and `_ensure_chunks`, which encrypt and
-- index documents of earlier versions.
use multi_channel_ai_gateway.Base.{
  ℕ, String, Bool, not, ◌&&◌, ◌||◌, Option, none, some, List, [], ◌∷◌, ◌++◌, ◌==◌, if◌then◌else◌,
  is_just, is_some, select_where, update_where, length, or_else,
}
use multi_channel_ai_gateway.Base.Text.{text_length}
use multi_channel_ai_gateway.Knowledge.Chunks.{normalize_text, chunk_text}
use multi_channel_ai_gateway.Knowledge.Items.{
  KnowledgeItem, ItemChunk, KnowledgeDb, Cipher, chunk_of, item_has_id, filled_text, item_text,
  index_chunks,
}

-- `a or b` of the source on texts.
abbrev pub text_or : String → String → String
text_or a b = if a == "" then b else a

abbrev pub save_item : KnowledgeItem → KnowledgeDb → KnowledgeDb
save_item item db = record db { items = update_where (item_has_id item.id) (λ _. item) db.items }

unfoldable pub index_saved :
    Cipher → KnowledgeItem → Option (List String) → KnowledgeDb → Option KnowledgeDb
index_saved cipher item none db = none
index_saved cipher item (some chunks) db =
    some (index_chunks cipher item chunks (save_item item db))

-- The condition of the first query: the text is not encrypted.
abbrev pub in_plain : KnowledgeItem → Bool
in_plain row = not (is_some row.content_encrypted) || not (row.content == "")

-- The loop over the encrypted rows: the fingerprint is not that of the text.
unfoldable pub stale_print : Cipher → KnowledgeItem → Bool
stale_print cipher row =
    let content = item_text cipher row in
    is_some row.content_encrypted
    && (not (content == "") && not (is_just row.content_sha256 (cipher.fingerprint content)))

-- The dictionary by identifiers holds each row once, where it came first.
unfoldable pub legacy_rows : Cipher → List KnowledgeItem → List KnowledgeItem
legacy_rows cipher items =
    select_where in_plain items
    ++ select_where (λ row. stale_print cipher row && not (in_plain row)) items

unfoldable pub migrated : Cipher → KnowledgeItem → KnowledgeItem
migrated cipher row =
    let content = normalize_text (text_or row.content (item_text cipher row)) in
    record row {
      content = "";
      content_encrypted = some (cipher.encrypt_secret content);
      content_sha256 = some (cipher.fingerprint content);
      content_chars = text_length content;
      source_type = text_or row.source_type "legacy";
      source_name = some (or_else (filled_text row.source_name) row.title);
    }

unfoldable pub migrate_row : Cipher → ℕ → KnowledgeItem → KnowledgeDb → Option KnowledgeDb
unfolding index_saved
migrate_row cipher chunk_chars row db =
    let content = normalize_text (text_or row.content (item_text cipher row)) in
    index_saved cipher (migrated cipher row) (chunk_text content chunk_chars) db

unfoldable pub migrate_rows : Cipher → ℕ → List KnowledgeItem → KnowledgeDb → Option KnowledgeDb
migrate_rows cipher chunk_chars [] db = some db
migrate_rows cipher chunk_chars (row ∷ rows) db = elim (migrate_row cipher chunk_chars row db) [
  | none ↦ none
  | some db' ↦ migrate_rows cipher chunk_chars rows db'
]

-- `none` would be a `chunk_text` whose fuel runs out, which never happens, here and below.
unfoldable pub migrate_legacy_items : Cipher → ℕ → KnowledgeDb → Option (KnowledgeDb × ℕ)
migrate_legacy_items cipher chunk_chars db =
    let rows = legacy_rows cipher db.items in
    elim (migrate_rows cipher chunk_chars rows db) [
      | none ↦ none
      | some db' ↦ some (db', length rows)
    ]

ensured :
    Cipher
    → KnowledgeItem
    → ℕ
    → List ItemChunk
    → KnowledgeDb
    → Option (KnowledgeDb × List ItemChunk)
unfolding index_saved
ensured cipher item chunk_chars (c ∷ cs) db = some (db, c ∷ cs)
ensured cipher item chunk_chars [] db =
    let content = item_text cipher item in
    let item' = record item {
      content = "";
      content_encrypted = some (cipher.encrypt_secret content);
      content_sha256 = some (cipher.fingerprint content);
      content_chars = text_length content;
      source_type = text_or item.source_type "legacy";
    } in
    let indexed = index_saved cipher item' (chunk_text content chunk_chars) db in
    if content == "" then some (db, []) else elim indexed [
      | none ↦ none
      | some db' ↦ some (db', select_where (chunk_of item.id) db'.chunks)
    ]

-- The chunk rows of a document are written in the order of their index.
unfoldable pub ensure_chunks :
    Cipher → KnowledgeItem → ℕ → KnowledgeDb → Option (KnowledgeDb × List ItemChunk)
unfolding ensured
ensure_chunks cipher item chunk_chars db =
    ensured cipher item chunk_chars (select_where (chunk_of item.id) db.chunks) db
