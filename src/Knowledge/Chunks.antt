-- ===== src/Knowledge/Chunks.antt =====
-- src/wecom_ai_gateway/knowledge.py: `_normalize_text` and `chunk_text`.
use Prim.Native.Nat.{max}
use Prim.Native.Char.{Char, code}
use Prim.Native.String.{[] as empty, ◌∷◌ as push}
use multi_channel_ai_gateway.Base.{
  ℕ, zero, suc, ◌-◌, String, Bool, false, ◌||◌, ◌&&◌, Option, none, some, List, [], ◌∷◌, ◌==◌,
  nat_eq, leb, if◌then◌else◌,
}
use multi_channel_ai_gateway.Base.Text.{text_length, strip, take_chars, drop_chars}

-- `_MAX_DOCUMENT_CHARS` and `_CHUNK_OVERLAP`
abbrev max_document_chars : ℕ
max_document_chars = 500000

abbrev chunk_overlap : ℕ
chunk_overlap = 40

abbrev next_is : (Char → Bool) → String → Bool
next_is p empty = false
next_is p (push c s) = p c

abbrev is_code : ℕ → Char → Bool
is_code n c = nat_eq (code c) n

abbrev is_blank : Char → Bool
is_blank c = is_code 0x20 c || is_code 0x09 c

-- The three calls of `replace`.
unfoldable pub new_lines : String → String
new_lines empty = empty
new_lines (push c s) =
    let rest = new_lines s in
    if is_code 0 c
    then push " " rest
    else if is_code 0x0d c
    then if next_is (is_code 0x0a) s then rest else push "\n" rest
    else push c rest

-- `re.sub(r"[\t ]+", " ", value)`: the last of a run of blanks becomes a space.
unfoldable pub one_space : String → String
one_space empty = empty
one_space (push c s) =
    let rest = one_space s in
    if is_blank c then if next_is is_blank s then rest else push " " rest else push c rest

-- `re.sub(r"\n{3}", "\n\n", value)`: of a run the last two are kept.
unfoldable pub two_lines : String → String
two_lines empty = empty
two_lines (push c s) =
    let rest = two_lines s in
    if is_code 0x0a c && (next_is (is_code 0x0a) s && next_is (is_code 0x0a) (drop_chars 1 s))
    then rest
    else push c rest

unfoldable pub normalize_text : String → String
unfolding new_lines one_space two_lines
normalize_text value =
    take_chars max_document_chars (strip (two_lines (one_space (new_lines value))))

abbrev pub after_window : String → Option (List String) → Option (List String)
after_window w none = none
after_window w (some ws) = some (w ∷ ws)

-- The pieces `content[start:end]` of the loop, before they are stripped; `none` means that the fuel
-- ran out.
unfoldable pub windows : ℕ → ℕ → ℕ → String → Option (List String)
windows zero size step rest = none
windows (suc fuel) size step rest =
    let more = windows fuel size step (drop_chars step rest) in
    if leb (text_length rest) size
    then some (take_chars size rest ∷ [])
    else after_window (take_chars size rest) more

-- `[chunk for chunk in chunks if chunk]`, of stripped pieces.
unfoldable pub stripped : List String → List String
stripped [] = []
stripped (w ∷ ws) = let rest = stripped ws in if strip w == "" then rest else strip w ∷ rest

abbrev pub step_of : ℕ → ℕ
step_of chunk_chars = max (chunk_chars - chunk_overlap) 1

unfoldable pub document_windows : String → ℕ → Option (List String)
document_windows content chunk_chars =
    windows (suc (text_length content)) chunk_chars (step_of chunk_chars) content

abbrev pub stripped_windows : Option (List String) → Option (List String)
stripped_windows none = none
stripped_windows (some ws) = some (stripped ws)

unfoldable pub chunks_of_text : String → ℕ → Option (List String)
chunks_of_text content chunk_chars =
    if content == ""
    then some []
    else if leb (text_length content) chunk_chars
    then some (content ∷ [])
    else stripped_windows (document_windows content chunk_chars)

-- The loop takes at most one round for each character.
unfoldable pub chunk_text : String → ℕ → Option (List String)
chunk_text content chunk_chars = chunks_of_text (normalize_text content) chunk_chars
