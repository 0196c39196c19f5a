-- ===== src/Cli/Tests.antt =====
-- Concrete lines, and a concrete key file.
use arky_foundation.Common.{
  ◌≡◌, refl, codes, [], ◌∷◌, ◌++◌, some, none, replicate, arith, Text, map, ltb, if◌then◌else◌,
}
use arky_foundation.SamplePlatform.{sample_platform}
use arky_foundation.Platform.{Bytes}
use arky_foundation.Codec.Cid.{from_seed}
use arky_foundation.Cli.Chunks.{read_text, read_chunks, joined}
use arky_foundation.Cli.Lines.{read_chunks-joined}
use arky_foundation.Cli.Keys.{load_keys, load_keys-new}

-- A chunk of ASCII characters; a part of another character is replaced.
abbrev decode : Bytes → Text
decode = map (λ b. if ltb b 128 then b else 65533)

abbrev first_chunk : Bytes
first_chunk = codes "{\"a\":1}\r\n{\""

-- ends in the first byte of a character of two
abbrev second_chunk : Bytes
second_chunk = codes "b\":2}\n\n[" ++ 195 ∷ []

abbrev third_chunk : Bytes
third_chunk = 169 ∷ codes "]\n"

read_lines :
    read_chunks decode [] (first_chunk ∷ second_chunk ∷ third_chunk ∷ [])
    ≡ (codes "{\"a\":1}" ∷ codes "{\"b\":2}" ∷ (b'[' ∷ 65533 ∷ 65533 ∷ b']' ∷ []) ∷ [], [])
unfolding read_chunks
read_lines = refl

read_chunks-joined_example :
    read_chunks decode [] (first_chunk ∷ second_chunk ∷ third_chunk ∷ [])
    ≡ read_text [] (joined decode (first_chunk ∷ second_chunk ∷ third_chunk ∷ []))
read_chunks-joined_example =
    read_chunks-joined decode (first_chunk ∷ second_chunk ∷ third_chunk ∷ [])

abbrev seed : Bytes
seed = replicate 32 171

load_keys-new_example :
    ((load_keys seed none).0 ≡ some (from_seed seed))
    × (load_keys (7 ∷ []) (some (load_keys seed none).1) ≡ load_keys seed none)
load_keys-new_example = load_keys-new seed (7 ∷ []) (omega arith) refl
