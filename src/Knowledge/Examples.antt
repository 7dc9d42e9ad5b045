-- ===== src/Knowledge/Examples.antt =====
-- Runs of the indexing of documents.
use Prim.Native.String.{[] as empty, ◌∷◌ as push}
use multi_channel_ai_gateway.Base.{
  count_where, String, Option, none, some, List, [], ◌∷◌, ◌≡◌, refl, arith, All, ◌≤◌, length,
}
use multi_channel_ai_gateway.Base.Text.{text_length, strip, lstrip, rstrip, take_chars, drop_chars}
use multi_channel_ai_gateway.Knowledge.Chunks.{
  normalize_text, new_lines, one_space, two_lines, chunk_text, chunks_of_text, document_windows,
  windows, step_of, stripped,
}
use multi_channel_ai_gateway.Knowledge.Windows.{reassembled, document_windows_complete}
use multi_channel_ai_gateway.Knowledge.Items.{
  KnowledgeItem, ItemChunk, KnowledgeDb, Cipher, Source, added, add_item,
}
use multi_channel_ai_gateway.Knowledge.Legacy.{legacy_rows, migrate_legacy_items}
use multi_channel_ai_gateway.Knowledge.Migration.{migrate_legacy_items-again}
use multi_channel_ai_gateway.Knowledge.Index.{Indexed, add_item-Indexed, push-filled}

abbrev opened : String → Option String
opened empty = none
opened (push c s) = some s

abbrev cipher : Cipher
cipher = record { encrypt_secret = push "x"; decrypt_secret = opened; fingerprint = λ s. s }

abbrev plain_text : Source
plain_text = record {
  source_type = "text";
  source_name = none;
  source_url = none;
  mime_type = none;
}

abbrev old_chunk : ItemChunk
old_chunk = record {
  item_id = "k1";
  user_id = "u1";
  chunk_index = 1;
  content_encrypted = "xold";
  content_sha256 = "old";
  char_count = 3;
}

abbrev library : KnowledgeDb
library = record { items = []; chunks = old_chunk ∷ [] }

-- Sizes up to 41 advance by one character.
small_chunks : chunk_text " ab\r\n\tcd " 3 ≡ some ("ab" ∷ "b" ∷ "c" ∷ "cd" ∷ [])
unfolding chunk_text chunks_of_text normalize_text new_lines one_space two_lines strip lstrip rstrip
    take_chars drop_chars text_length document_windows windows stripped
small_chunks = refl

document_windows_complete_example :
    (w : String) × (ws : List String) × (document_windows "abcde" 3 ≡ some (w ∷ ws))
    × (reassembled (step_of 3) (w ∷ ws) ≡ "abcde")
    × All (λ v. text_length v ≤ 3) (w ∷ ws)
document_windows_complete_example = document_windows_complete "abcde" 3 (omega arith)

add_item-Indexed_example :
    (item : KnowledgeItem) × (db' : KnowledgeDb) × (add_item cipher "k2" 10 "u1" " notes " "ab cd"
        plain_text 3 library
      ≡ added item db')
    × Indexed cipher "u1"
        (take_chars 255 (strip " notes "))
        (normalize_text "ab cd")
        3
        item
        library
        db'
unfolding normalize_text new_lines one_space two_lines strip lstrip rstrip take_chars count_where
add_item-Indexed_example =
    add_item-Indexed cipher "k2" 10 "u1" " notes " "ab cd" plain_text 3 library refl (λ s. refl)
      (λ s. push-filled "x" s) refl refl

abbrev unencrypted : KnowledgeItem
unencrypted = record {
  id = "k3";
  user_id = "u1";
  title = "notes";
  content = "ab cd";
  content_encrypted = none;
  content_sha256 = none;
  source_type = "";
  source_name = none;
  source_url = none;
  mime_type = none;
  content_chars = 0;
  indexed_at = none;
}

abbrev early : KnowledgeDb
early = record { items = unencrypted ∷ []; chunks = old_chunk ∷ [] }

migrate_legacy_items-again_example :
    (db' : KnowledgeDb) × (migrate_legacy_items cipher 3 early
      ≡ some (db', length (legacy_rows cipher early.items)))
    × (migrate_legacy_items cipher 3 db' ≡ some (db', 0))
migrate_legacy_items-again_example =
    migrate_legacy_items-again cipher (λ s. refl) (λ s. push-filled "x" s) 3 early
