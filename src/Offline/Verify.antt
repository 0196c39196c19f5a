-- ===== src/Offline/Verify.antt =====
-- packages/mcp/src/verify.ts: `verifyBundle`.
use arky_foundation.Common.{
  ℕ, Bool, false, ◌==◌, if◌then◌else◌, length, List, [], ◌∷◌, ◌++◌, Option, none, some, Text, codes,
  Run, returns, throws, is_some, Ordering, text_eq,
}
use arky_foundation.Engine.{Engine}
use arky_foundation.Platform.{Platform}
use arky_foundation.Sorting.{sort}
use arky_foundation.Sorting.Comparison.{compare_texts}
use arky_foundation.Json.{Value, str, get}
use arky_foundation.Kernel.Types.{Decision}
use arky_foundation.Tim.Verify.{is_empty}
use arky_foundation.Offline.Values.{elements, text_of, get_value, set_value, or_empty_text, checked}
use arky_foundation.Offline.Checks.{File, and_then, also, load, verify_artifact}
use arky_foundation.Offline.Call.{check_call}

pub record BundleReport : Type 0 where
  pub valid : Bool
  pub errors : List Text
  pub calls : ℕ
  pub commitments : ℕ

-- The directory of a bundle: the content of `session.json`, and the files of the directories
-- `commitments` and `calls`. `none` is what cannot be read.
pub record Directory : Type 0 where
  pub session : Option Text
  pub commitments : Option (List File)
  pub calls : Option (List File)

abbrev file_order : File → File → Ordering
file_order a b = compare_texts a.0 b.0

-- `readdirSync(…).sort()`
unfoldable pub listed : Option (List File) → Run (List File)
unfolding sort compare_texts
listed none = throws
listed (some files) = returns (sort file_order files)

-- `f.split("-")[0]`
unfoldable pub prefix_of : Text → Text
prefix_of [] = []
prefix_of (c ∷ s) = let rest = prefix_of s in if c == b'-' then [] else c ∷ rest

-- the files with the prefixes that they share, in the order of their first files
unfoldable pub add_file : Text → File → List (Text × List File) → List (Text × List File)
unfolding text_eq
add_file seq f [] = (seq, f ∷ []) ∷ []
add_file seq f ((s, fs) ∷ groups) =
    if text_eq s seq then (s, fs ++ f ∷ []) ∷ groups else (s, fs) ∷ add_file seq f groups

unfoldable pub grouped : List File → List (Text × List File) → List (Text × List File)
unfolding add_file prefix_of
grouped [] groups = groups
grouped (f ∷ fs) groups = grouped fs (add_file (prefix_of f.0) f groups)

abbrev pub failure : Text → BundleReport
failure message = record { valid = false; errors = message ∷ []; calls = 0; commitments = 0 }

abbrev pub report : List Text → ℕ → ℕ → BundleReport
report errors calls commitments = record {
  valid = is_empty errors;
  errors = errors;
  calls = calls;
  commitments = commitments;
}

module _ ⦃engine : Engine⦄ ⦃platform : Platform⦄ where
  -- the commitments by their cid, and their errors
  unfoldable pub check_commitments :
      List File → List (Value × Value) → Run (List Text × List (Value × Value))
  unfolding load verify_artifact set_value get
  check_commitments [] commitments = returns ([], commitments)
  check_commitments ((name, content) ∷ files) commitments = and_then (load content) λ artifact.
      and_then
        (verify_artifact artifact (or_empty_text (get (codes "actor") artifact))
          (codes "commitment " ++ name))
        λ es.
          let rest =
            check_commitments files (set_value (get (codes "cid") artifact) artifact commitments) in
          and_then rest λ (fs, all). returns (es ++ fs, all)

  unfoldable pub check_declared : List (Value × Value) → List Value → Run (List Text)
  unfolding get_value text_of
  check_declared commitments [] = returns []
  check_declared commitments (c ∷ cs) =
      let rest = check_declared commitments cs in
      let missing : Run (List Text) = and_then (text_of c) λ s.
        returns
          ((codes "session: declared commitment " ++ (s ++ codes " missing from bundle")) ∷ []) in
      also (if is_some (get_value c commitments) then returns [] else missing) rest

  -- `odd` is as in the check of a call; `message s` is the message of the exception that reading or
  -- parsing `session.json` raises, where its content is `s`.
  module _ (odd : Value → List Value → Value → Run Decision) (message : Option Text → Text) where
    unfoldable pub check_calls : List (Value × Value) → List (Text × List File) → Run (List Text)
    unfolding check_call
    check_calls commitments [] = returns []
    check_calls commitments (g ∷ groups) =
        also (check_call odd commitments g) (check_calls commitments groups)

    unfoldable pub verify_calls :
        List Text → List (Value × Value) → List (Text × List File) → Run BundleReport
    unfolding check_calls
    verify_calls errors commitments groups =
        and_then (check_calls commitments groups)
          λ es. returns (report (errors ++ es) (length groups) (length commitments))

    unfoldable pub verify_session : Value → Text → Directory → Run BundleReport
    unfolding verify_artifact listed check_commitments elements check_declared grouped verify_calls
        get
    verify_session session did dir =
        and_then (verify_artifact session (str did) (codes "session")) λ es.
          and_then (listed dir.commitments) λ files.
            and_then (check_commitments files []) λ (fs, commitments).
              and_then (elements (get (codes "commitments") session)) λ declared.
                and_then (check_declared commitments declared) λ gs.
                  and_then (listed dir.calls)
                    λ calls. verify_calls (es ++ (fs ++ gs)) commitments (grouped calls [])

    unfoldable pub verify_loaded_session : Value → Directory → Run BundleReport
    unfolding verify_session get
    verify_loaded_session session dir =
        checked session (elim (get (codes "id") (get (codes "identity") session)) [
          | str did ↦ verify_session session did dir
          | _ ↦ returns (failure (codes "session.json: missing identity.id"))
        ])

    unfoldable pub load_session : Option Text → Run Value
    unfolding load
    load_session none = throws
    load_session (some s) = load s

    unfoldable pub verify_bundle : Directory → Run BundleReport
    unfolding load_session verify_loaded_session
    verify_bundle dir = elim (load_session dir.session) [
      | throws ↦ returns (failure (codes "session.json: " ++ message dir.session))
      | returns session ↦ verify_loaded_session session dir
    ]
