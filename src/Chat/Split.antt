-- ===== src/Chat/Split.antt =====
-- src/wecom_ai_gateway/services.py: `_split_reply`.
use Prim.Native.Nat.{max}
use Prim.Native.Char.{code}
use Prim.Native.String.{[] as empty, ◌∷◌ as push}
use multi_channel_ai_gateway.Base.{
  ℕ, zero, suc, ◌/◌, String, Option, none, some, List, [], ◌∷◌, ◌==◌, nat_eq, ltb, leb,
  if◌then◌else◌,
}
use multi_channel_ai_gateway.Base.Text.{text_length, strip, lstrip, drop_chars, take_chars}

-- `text.rfind(c, 0, limit)`, where `none` is -1.
unfoldable pub rfind : ℕ → String → ℕ → Option ℕ
rfind c s zero = none
rfind c empty (suc n) = none
rfind c (push x s) (suc n) = elim (rfind c s n) [
  | some i ↦ some (suc i)
  | none ↦ if nat_eq (code x) c then some 0 else none
]

abbrev later : Option ℕ → Option ℕ → Option ℕ
later none b = b
later (some a) none = some a
later (some a) (some b) = some (max a b)

-- The greatest position of a character of the list.
last_of : List ℕ → String → ℕ → Option ℕ
last_of [] s limit = none
last_of (c ∷ cs) s limit = later (rfind c s limit) (last_of cs s limit)

-- `break_chars`
abbrev break_chars : List ℕ
break_chars = 0x3002 ∷ 0xff01 ∷ 0xff1f ∷ 0xff1b ∷ 0xff0c ∷ 0x2e ∷ 0x21 ∷ 0x3f ∷ 0x3b ∷ 0x2c ∷ []

abbrev above : ℕ → Option ℕ → Option ℕ
above half none = none
above half (some i) = if ltb half i then some i else none

-- `cut`
unfoldable pub cut_at : String → ℕ → ℕ
unfolding last_of
cut_at rest limit = elim (above (limit / 2) (rfind 0x0a rest limit)) [
  | some newline ↦ newline
  | none ↦ elim (above (limit / 2) (last_of break_chars rest limit)) [ some i ↦ i | none ↦ limit ]
]

unfoldable pub chunk_at : String → ℕ → ℕ → String
chunk_at rest limit cut = strip (take_chars (if ltb cut limit then suc cut else limit) rest)

-- `[c for c in chunks if c]` drops an empty piece.
abbrev pub kept : String → List String
kept piece = if piece == "" then [] else piece ∷ []

abbrev pub after_chunk : String → Option (List String) → Option (List String)
after_chunk chunk none = none
after_chunk chunk (some chunks) = some (chunk ∷ chunks)

-- The pieces of the loop and what is left; `none` means that the fuel ran out.
unfoldable pub split_loop : ℕ → ℕ → String → Option (List String)
unfolding cut_at chunk_at
split_loop zero limit rest = none
split_loop (suc fuel) limit rest =
    let chunk = chunk_at rest limit (cut_at rest limit) in
    let more =
      after_chunk chunk (split_loop fuel limit (lstrip (drop_chars (text_length chunk) rest))) in
    let skip = split_loop fuel limit (drop_chars limit rest) in
    if leb (text_length rest) limit
    then some (kept (strip rest))
    else if chunk == ""
    then skip
    else more

unfoldable pub split_long : String → ℕ → Option (List String)
split_long text limit =
    if leb (text_length text) limit
    then some (text ∷ [])
    else split_loop (suc (text_length text)) limit text

-- The loop takes at most one round for each character.
unfoldable pub split_reply : String → ℕ → Option (List String)
unfolding split_long
split_reply text limit = if text == "" then some [] else split_long text limit
