-- ===== src/Audit/Bundle.antt =====
-- packages/mcp/src/audit.ts: `BundleWriter`, over the files that it has written.
use arky_foundation.Common.{
  ℕ, suc, ◌-◌, length, replicate, List, [], ◌∷◌, ◌++◌, map, Option, none, some, Text, codes,
  or_else,
}
use arky_foundation.Number.{integer}
use arky_foundation.Engine.{Engine}
use arky_foundation.Platform.{Platform}
use arky_foundation.Json.{str, Fields, get_field, object, array, as_text}
use arky_foundation.Codec.Cid.{KeyPair}
use arky_foundation.Audit.Artifacts.{sign_artifact}

pub record SessionMeta : Type 0 where
  pub did : Text
  pub server : Text
  pub started : Text
  pub policy_source : Text
  pub commitment_cids : List Text

-- A file in `calls`: the sequence number, the kind, and the artifact.
pub record CallFile : Type 0 where
  pub seq : Text
  pub kind : Text
  pub artifact : Fields

-- `seq`, and the files in the order in which they were written
pub record BundleWriter : Type 0 where
  pub next : ℕ
  pub session : Fields
  -- by the name of the file
  pub commitments : List (Text × Fields)
  pub calls : List CallFile

module _ ⦃engine : Engine⦄ where
  -- `String(n)`
  abbrev pub decimal : ℕ → Text
  decimal n = engine.text_of_number (integer n)

  -- `String(n).padStart(5, '0')`
  unfoldable pub padded : ℕ → Text
  padded n = replicate (5 - length (decimal n)) b'0' ++ decimal n

  unfoldable pub next_seq : BundleWriter → Text × BundleWriter
  unfolding padded
  next_seq w = (padded w.next, record w { next = suc w.next })

unfoldable pub write_call : Text → Text → Fields → BundleWriter → BundleWriter
write_call seq kind artifact w = record w {
  calls = w.calls ++ record { seq = seq; kind = kind; artifact = artifact } ∷ [];
}

module _ ⦃engine : Engine⦄ where
  -- `artifact.cid` is a text in every artifact that is signed
  unfoldable pub write_commitment : ℕ → Fields → BundleWriter → BundleWriter
  unfolding get_field
  write_commitment index artifact w =
      let cid = or_else (as_text (get_field (codes "cid") artifact)) (codes "undefined") in
      record w {
        commitments =
            w.commitments
            ++ (codes "c" ++ (decimal index ++ (codes "-" ++ (cid ++ codes ".json"))), artifact)
              ∷ [];
      }

module _ ⦃engine : Engine⦄ ⦃platform : Platform⦄ where
  -- the constructor; `none` where the canonicalization raises
  unfoldable pub new_writer : SessionMeta → KeyPair → Option BundleWriter
  unfolding sign_artifact
  new_writer meta keys =
      elim (sign_artifact
        ((codes "@type", str (codes "ARKY:McpSession@v1"))
          ∷ (codes "identity", object ((codes "id", str meta.did) ∷ []))
          ∷ (codes "server", str meta.server)
          ∷ (codes "time", object ((codes "ts", str meta.started) ∷ []))
          ∷ (codes "policy_source", str meta.policy_source)
          ∷ (codes "commitments", array (map str meta.commitment_cids))
          ∷ [])
        keys) [
          | none ↦ none
          | some session ↦
              some (record { next = 0; session = session; commitments = []; calls = [] })
        ]
