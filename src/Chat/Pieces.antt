-- ===== src/Chat/Pieces.antt =====
-- The pieces that `_split_reply` of services.py makes.
use Prim.Native.String.{[] as empty, ◌∷◌ as push}
use multi_channel_ai_gateway.Base.{
  ℕ, zero, suc, ◌≤◌, ◌<◌, String, false, Option, some, List, [], ◌∷◌, ◌==◌, ◌≡◌, refl, ltb, leb,
  leb→le, if◌then◌else◌, inl, inr, Bool-cases, arith, All,
}
use multi_channel_ai_gateway.Base.Text.{text_length, strip, lstrip, drop_chars, take_chars}
use multi_channel_ai_gateway.Base.TextLength.{
  length-lstrip-le, length-strip-le, length-take_chars-le, length-drop_chars,
}
use multi_channel_ai_gateway.Chat.Split.{
  kept, after_chunk, cut_at, chunk_at, split_loop, split_reply,
}

length-chunk-le : (rest : String) (limit cut : ℕ) → text_length (chunk_at rest limit cut) ≤ limit
unfolding chunk_at
length-chunk-le rest limit cut =
    let size = if ltb cut limit then suc cut else limit in
    let short = length-strip-le (take_chars size rest) in
    let taken = length-take_chars-le size rest in ground (arith, short, taken)

length-nonempty : (s : String) → (s == "") ≡ false → 1 ≤ text_length s
unfolding text_length
length-nonempty empty h = absurd (cc h)
length-nonempty (push c s) h = omega arith

-- A piece that can be sent: it is not empty and fits into the limit.
abbrev pub Fits : ℕ → String → Type 0
Fits limit piece = ((piece == "") ≡ false) × (text_length piece ≤ limit)

abbrev Pieces : ℕ → Option (List String) → Type 0
Pieces limit result = (pieces : List String) × (result ≡ some pieces) × All (Fits limit) pieces

kept-Pieces :
    (limit : ℕ) (rest : String) → text_length rest ≤ limit → Pieces limit (some (kept (strip rest)))
kept-Pieces limit rest short = elim (Bool-cases (strip rest == "")) [
  | inl y ↦ ([], rw y refl, tt)
  | inr f ↦ (strip rest ∷ [], rw f refl, ((f, omega (arith, length-strip-le rest)), tt))
]

chunk-Pieces :
    (limit : ℕ) (chunk : String) (result : Option (List String))
    → Fits limit chunk
    → Pieces limit result
    → Pieces limit (after_chunk chunk result)
chunk-Pieces limit chunk result fits (pieces, e, all) = (chunk ∷ pieces, rw e refl, (fits, all))

split_loop-Pieces :
    (fuel limit : ℕ) (rest : String)
    → 1 ≤ limit
    → text_length rest < fuel
    → Pieces limit (split_loop fuel limit rest)
unfolding split_loop
split_loop-Pieces zero limit rest pos enough = absurd (omega arith)
split_loop-Pieces (suc fuel) limit rest pos enough =
    let chunk = chunk_at rest limit (cut_at rest limit) in
    elim (Bool-cases (leb (text_length rest) limit)) [
      | inl y ↦ rw y (kept-Pieces limit rest (leb→le (text_length rest) limit y))
      | inr long ↦ elim (Bool-cases (chunk == "")) [
        | inl blank ↦
            let less = length-drop_chars limit rest in
            rw (long, blank)
              (split_loop-Pieces fuel limit (drop_chars limit rest) pos
                (ground (arith, long, less)))
        | inr filled ↦
            let less = length-drop_chars (text_length chunk) rest in
            let strips = length-lstrip-le (drop_chars (text_length chunk) rest) in
            let some_chars = length-nonempty chunk filled in
            let next = lstrip (drop_chars (text_length chunk) rest) in
            rw (long, filled)
              (chunk-Pieces limit chunk (split_loop fuel limit next)
                (filled, length-chunk-le rest limit (cut_at rest limit))
                (split_loop-Pieces fuel limit next pos
                  (ground (arith, long, less, strips, some_chars))))
      ]
    ]

-- Splitting a reply ends for every text and every limit of at least one character, and each piece
-- has at least one character and at most as many as the limit.
pub split_reply-Fits :
    (text : String) (limit : ℕ)
    → 1 ≤ limit
    → (pieces : List String) × (split_reply text limit ≡ some pieces) × All (Fits limit) pieces
unfolding split_reply
split_reply-Fits text limit pos = elim (Bool-cases (text == "")) [
  | inl y ↦ ([], rw y refl, tt)
  | inr filled ↦ elim (Bool-cases (leb (text_length text) limit)) [
    | inl short ↦
        (text ∷ [], rw (filled, short) refl, ((filled, leb→le (text_length text) limit short), tt))
    | inr long ↦
        rw (filled, long) (split_loop-Pieces (suc (text_length text)) limit text pos (omega arith))
  ]
]
