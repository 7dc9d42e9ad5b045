-- ===== src/Knowledge/Index.antt =====
-- The chunk rows of a document of knowledge.py, and its text.
use Prim.Native.Char.{Char}
use Prim.Native.String.{[] as empty, ◌∷◌ as push}
use mathlib.Core.List.{append-nil}
use multi_channel_ai_gateway.Base.{
  count_where, ==-eq, ℕ, suc, String, Bool, true, false, some, List, [], ◌∷◌, ◌++◌, ◌==◌, ==-refl,
  ==-eq, ◌≡◌, refl, ap, ◌∙◌, inl, inr, Bool-cases, arith, eq_iff, leb, find, select_where,
  delete_where, or_else,
}
use multi_channel_ai_gateway.Base.Text.{text_length, strip, take_chars}
use multi_channel_ai_gateway.Models.{Time}
use multi_channel_ai_gateway.Knowledge.Chunks.{
  normalize_text, chunk_text, chunks_of_text, stripped, stripped_windows,
}
use multi_channel_ai_gateway.Knowledge.Windows.{document_windows_total}
use multi_channel_ai_gateway.Knowledge.Stored.{filled-Put, filled-titled}
use multi_channel_ai_gateway.Knowledge.Items.{
  KnowledgeItem, ItemChunk, KnowledgeDb, Cipher, Source, chunk_of, titled, item_has_id, item_text,
  decrypted, chunk_row, chunk_rows, index_chunks, added, new_item, filled_item, put_item, indexed,
  add_titled, add_item,
}

module _ {ℓ} {A : Type ℓ} where
  select-append :
      (p : A → Bool) (xs ys : List A)
      → select_where p (xs ++ ys) ≡ select_where p xs ++ select_where p ys
  unfolding select_where
  select-append p [] ys = refl
  select-append p (x ∷ xs) ys = elim (Bool-cases (p x)) [
    | inl y ↦ rw y (ap (◌∷◌ x) (select-append p xs ys))
    | inr f ↦ rw f (select-append p xs ys)
  ]

  select-delete_self : (p : A → Bool) (xs : List A) → select_where p (delete_where p xs) ≡ []
  unfolding select_where delete_where
  select-delete_self p [] = refl
  select-delete_self p (x ∷ xs) = ground (arith, select-delete_self p xs)

  select-delete_disjoint :
      (p q : A → Bool) (xs : List A)
      → ((a : A) → p a ≡ true → q a ≡ false)
      → select_where q (delete_where p xs) ≡ select_where q xs
  unfolding select_where delete_where
  select-delete_disjoint p q [] d = refl
  select-delete_disjoint p q (x ∷ xs) d = ground (arith, d x, select-delete_disjoint p q xs d)

module _ (cipher : Cipher) where
  select-own_rows :
      (id user_id : String) (index : ℕ) (chunks : List String)
      → select_where (chunk_of id) (chunk_rows cipher id user_id index chunks)
        ≡ chunk_rows cipher id user_id index chunks
  unfolding select_where chunk_rows
  select-own_rows id user_id index [] = refl
  select-own_rows id user_id index (c ∷ cs) =
      rw (==-refl id)
        (ap (◌∷◌ (chunk_row cipher id user_id index c)) (select-own_rows id user_id (suc index) cs))

  select-other_rows :
      (id j user_id : String) (index : ℕ) (chunks : List String)
      → (id == j) ≡ false
      → select_where (chunk_of j) (chunk_rows cipher id user_id index chunks) ≡ []
  unfolding select_where chunk_rows
  select-other_rows id j user_id index [] h = refl
  select-other_rows id j user_id index (c ∷ cs) h =
      rw h (select-other_rows id j user_id (suc index) cs h)

  apart_rows :
      (id j : String)
      → (id == j) ≡ false
      → (c : ItemChunk) → chunk_of id c ≡ true
      → chunk_of j c ≡ false
  apart_rows id j h c mine =
      ground (arith, mine, h, eq_iff c.item_id id, eq_iff c.item_id j, eq_iff id j)

  own-chunks :
      (item : KnowledgeItem) (chunks : List String) (db : KnowledgeDb)
      → select_where (chunk_of item.id) (index_chunks cipher item chunks db).chunks
        ≡ chunk_rows cipher item.id item.user_id 1 chunks
  unfolding index_chunks
  own-chunks item chunks db =
      select-append (chunk_of item.id) (delete_where (chunk_of item.id) db.chunks)
        (chunk_rows cipher item.id item.user_id 1 chunks)
      ∙ (λ i.
          select-delete_self (chunk_of item.id) db.chunks i
          ++ select-own_rows item.id item.user_id 1 chunks i)

  other-chunks :
      (item : KnowledgeItem) (chunks : List String) (db : KnowledgeDb) (j : String)
      → (item.id == j) ≡ false
      → select_where (chunk_of j) (index_chunks cipher item chunks db).chunks
        ≡ select_where (chunk_of j) db.chunks
  unfolding index_chunks
  other-chunks item chunks db j h =
      select-append (chunk_of j) (delete_where (chunk_of item.id) db.chunks)
        (chunk_rows cipher item.id item.user_id 1 chunks)
      ∙ ((λ i.
            select-delete_disjoint (chunk_of item.id) (chunk_of j) db.chunks
              (apart_rows item.id j h) i
            ++ select-other_rows item.id j item.user_id 1 chunks h i)
          ∙ append-nil (select_where (chunk_of j) db.chunks))

pub push-filled : (c : Char) (s : String) → (push c s == "") ≡ false
unfolding text_length
push-filled c s = elim (Bool-cases (push c s == "")) [
  | inl y ↦
      let same : text_length (push c s) ≡ 0 = ap text_length (==-eq (push c s) "" y) in
      absurd (omega (arith, same))
  | inr f ↦ f
]

take_chars-filled : (n : ℕ) (s : String) → (s == "") ≡ false → (take_chars (suc n) s == "") ≡ false
unfolding take_chars
take_chars-filled n empty h = h
take_chars-filled n (push c s) h = push-filled c (take_chars n s)

chunks_of_text_total :
    (content : String) (n : ℕ) → (cs : List String) × (chunks_of_text content n ≡ some cs)
unfolding chunks_of_text
chunks_of_text_total content n = elim (Bool-cases (content == "")) [
  | inl y ↦ ([], rw y refl)
  | inr f ↦ elim (Bool-cases (leb (text_length content) n)) [
    | inl y ↦ (content ∷ [], rw (f, y) refl)
    | inr g ↦
        let (ws, e) = document_windows_total content n in
        (stripped ws, rw (f, g) (ap stripped_windows e))
  ]
]

pub chunk_text_total :
    (content : String) (n : ℕ) → (cs : List String) × (chunk_text content n ≡ some cs)
unfolding chunk_text
chunk_text_total content n = chunks_of_text_total (normalize_text content) n

-- What holds of a document and its rows right after it has been indexed.
pub record Indexed (cipher : Cipher) (user_id title content : String) (n : ℕ) (item : KnowledgeItem)
    (before after : KnowledgeDb) : Type 0 where
  pub chunks : List String
  pub cut_up : chunk_text content n ≡ some chunks
  pub named : titled user_id title item ≡ true
  pub stored : find (item_has_id item.id) after.items ≡ some item
  pub other_items :
      (j : String)
      → (item.id == j) ≡ false
      → find (item_has_id j) after.items ≡ find (item_has_id j) before.items
  pub readable : item_text cipher item ≡ content
  pub own :
      select_where (chunk_of item.id) after.chunks ≡ chunk_rows cipher item.id item.user_id 1 chunks
  pub others :
      (j : String)
      → (item.id == j) ≡ false
      → select_where (chunk_of j) after.chunks ≡ select_where (chunk_of j) before.chunks

filled-readable :
    (cipher : Cipher) (now : Time) (content : String) (source : Source) (item : KnowledgeItem)
    → cipher.decrypt_secret (cipher.encrypt_secret content) ≡ some content
    → (cipher.encrypt_secret content == "") ≡ false
    → item_text cipher (filled_item cipher now content source item) ≡ content
unfolding item_text filled_item decrypted
filled-readable cipher now content source item opens filled = rw (filled, opens) refl

titled-Indexed :
    (cipher : Cipher) (id : String) (now : Time) (user_id title content : String) (source : Source)
    (n : ℕ) (db : KnowledgeDb)
    → count_where (item_has_id id) db.items ≡ 0
    → cipher.decrypt_secret (cipher.encrypt_secret content) ≡ some content
    → (cipher.encrypt_secret content == "") ≡ false
    → (item : KnowledgeItem) × (db' : KnowledgeDb) × (add_titled cipher id now user_id title content
          source n db
        ≡ added item db')
      × Indexed cipher user_id title content n item db db'
unfolding add_titled indexed index_chunks
titled-Indexed cipher id now user_id title content source n db fresh opens filled =
    let found = find (titled user_id title) db.items in
    let old = or_else found (new_item id user_id title) in
    let item = filled_item cipher now content source old in
    let stored = record db { items = put_item found item db.items } in
    let (chunks, cut_up) = chunk_text_total content n in
    let put = filled-Put cipher id now user_id title content source db.items fresh in
    (
      item,
      index_chunks cipher item chunks stored,
      rw cut_up refl,
      record {
        chunks = chunks;
        cut_up = cut_up;
        named = filled-titled cipher id now user_id title content source db.items;
        stored = put.self;
        other_items = put.others;
        readable = filled-readable cipher now content source old opens filled;
        own = own-chunks cipher item chunks stored;
        others = λ j h. other-chunks cipher item chunks stored j h;
      },
    )

-- Adding a document whose title and text are not blank succeeds for every size, if the identifier for
-- a new row is fresh. The table then has the row, with that user and the title cut to 255
-- characters, and every other row as before. The row then gives back the normalised text, the chunk rows under its identifier are
-- exactly those of the text, numbered from 1, and the chunk rows of every other document are as
-- before. Decrypting what was encrypted is taken to give the text, and an encrypted text is never
-- empty.
pub add_item-Indexed :
    (cipher : Cipher) (id : String) (now : Time) (user_id title content : String) (source : Source)
    (n : ℕ) (db : KnowledgeDb)
    → count_where (item_has_id id) db.items ≡ 0
    → ((s : String) → cipher.decrypt_secret (cipher.encrypt_secret s) ≡ some s)
    → ((s : String) → (cipher.encrypt_secret s == "") ≡ false)
    → (strip title == "") ≡ false
    → (normalize_text content == "") ≡ false
    → (item : KnowledgeItem) × (db' : KnowledgeDb) × (add_item cipher id now user_id title content
          source n db
        ≡ added item db')
      × Indexed cipher user_id (take_chars 255 (strip title)) (normalize_text content) n item db db'
unfolding add_item
add_item-Indexed cipher id now user_id title content source n db fresh opens filled named written =
    rw (take_chars-filled 254 (strip title) named, written)
      (titled-Indexed cipher id now user_id (take_chars 255 (strip title)) (normalize_text content)
        source n db fresh (opens (normalize_text content)) (filled (normalize_text content)))
