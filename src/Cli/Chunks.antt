-- ===== src/Cli/Chunks.antt =====
-- packages/mcp/src/cli.ts: `lineReader`, over the bytes of the chunks.
use arky_foundation.Common.{
  ℕ, zero, suc, ◌==◌, if◌then◌else◌, length, List, [], ◌∷◌, ◌++◌, Option, none, some, Text,
}
use arky_foundation.Platform.{Bytes}

-- `buf.indexOf("\n")` with the text before it and the text behind it
unfoldable pub break_line : Text → Option (Text × Text)
break_line [] = none
break_line (c ∷ s) =
    let later : Option (Text × Text) = elim (break_line s) [
      | none ↦ none
      | some (line, rest) ↦ some (c ∷ line, rest)
    ] in
    if c == 10 then some ([], s) else later

-- `line.replace(/\r$/, "")`
unfoldable pub strip_return : Text → Text
strip_return [] = []
strip_return (c ∷ []) = if c == 13 then [] else c ∷ []
strip_return (c ∷ d ∷ s) = c ∷ strip_return (d ∷ s)

-- a line that is not empty is passed on
unfoldable pub emit : Text → List Text → List Text
unfolding strip_return
emit line ls = elim (strip_return line) [ [] ↦ ls | c ∷ s ↦ (c ∷ s) ∷ ls ]

-- The loop over the buffer: the lines, and the buffer that is left. Each round takes a character.
unfoldable pub drain : ℕ → Text → List Text × Text
unfolding break_line emit
drain zero buf = ([], buf)
drain (suc fuel) buf = elim (break_line buf) [
  | none ↦ ([], buf)
  | some (line, rest) ↦ (emit line (drain fuel rest).0, (drain fuel rest).1)
]

-- A text that comes is put behind the buffer.
unfoldable pub read_text : Text → Text → List Text × Text
unfolding drain
read_text buf text = drain (length (buf ++ text)) (buf ++ text)

-- `decode` is `chunk.toString("utf8")`; what it gives for a part of a character is not known.
module _ (decode : Bytes → Text) where
  unfoldable pub read_chunk : Text → Bytes → List Text × Text
  unfolding read_text
  read_chunk buf chunk = read_text buf (decode chunk)

  -- The lines of chunks that come one after another.
  unfoldable pub read_chunks : Text → List Bytes → List Text × Text
  unfolding read_chunk
  read_chunks buf [] = ([], buf)
  read_chunks buf (c ∷ cs) = (
    (read_chunk buf c).0 ++ (read_chunks (read_chunk buf c).1 cs).0,
    (read_chunks (read_chunk buf c).1 cs).1,
  )

  -- the texts of all chunks, each decoded by itself
  unfoldable pub joined : List Bytes → Text
  joined [] = []
  joined (c ∷ cs) = decode c ++ joined cs
