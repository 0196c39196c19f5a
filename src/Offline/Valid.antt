-- ===== src/Offline/Valid.antt =====
-- packages/mcp/src/verify.ts: what a valid report of `verifyBundle` guarantees.
use arky_foundation.Common.{
  true, List, [], ◌∷◌, Option, is_some, Text, codes, Run, returns, ◌≡◌, refl, All, arith,
}
use arky_foundation.Engine.{Engine}
use arky_foundation.Platform.{Platform}
use arky_foundation.Json.{Value, str, get}
use arky_foundation.Kernel.Types.{Decision}
use arky_foundation.Tim.Verify.{is_empty}
use arky_foundation.Offline.Values.{elements, get_value, or_empty_text}
use arky_foundation.Offline.Checks.{File, load}
use arky_foundation.Offline.Verify.{Directory, listed, grouped, check_commitments, load_session}
use arky_foundation.Offline.Signed.{IsSigned}
use arky_foundation.Offline.Sound.{IsSoundCall}

pub empty_of : (es : List Text) → is_empty es ≡ true → es ≡ []
empty_of [] h = refl
empty_of (e ∷ es) h = absurd (ground arith)

module _ ⦃engine : Engine⦄ ⦃platform : Platform⦄ where
  -- The file holds an artifact that its actor has signed.
  pub record IsCommitment (file : File) : Type 0 where
    pub artifact : Value
    pub loaded : load file.1 ≡ returns artifact
    pub signed : IsSigned artifact (or_empty_text (get (codes "actor") artifact))

  module _ (odd : Value → List Value → Value → Run Decision) (message : Option Text → Text) where
    -- A bundle whose session is signed under its identity, whose commitments are signed by their
    -- actors and include the declared ones, and whose calls are all sound.
    pub record IsSoundBundle (dir : Directory) : Type 0 where
      pub session : Value
      pub did : Text
      pub commitment_files : List File
      pub commitments : List (Value × Value)
      pub declared : List Value
      pub call_files : List File
      pub loaded : load_session odd message dir.session ≡ returns session
      pub identity : get (codes "id") (get (codes "identity") session) ≡ str did
      pub signed : IsSigned session (str did)
      pub committed : listed dir.commitments ≡ returns commitment_files
      pub collected : check_commitments commitment_files [] ≡ returns ([], commitments)
      pub attested : All IsCommitment commitment_files
      pub declares : elements (get (codes "commitments") session) ≡ returns declared
      pub present : All (λ c. is_some (get_value c commitments) ≡ true) declared
      pub called : listed dir.calls ≡ returns call_files
      pub sound : All (λ g. IsSoundCall odd commitments g.1) (grouped call_files [])
