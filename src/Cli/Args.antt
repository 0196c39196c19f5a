-- ===== src/Cli/Args.antt =====
-- packages/mcp/src/cli.ts: the arguments of the commands, and what `verify` writes.
use arky_foundation.Common.{
  ℕ, ◌==◌, some-injective, Option-cases, subst, Bool, true, false, if◌then◌else◌, List, [], ◌∷◌,
  ◌++◌, Option, none, some, or_else, Text, codes, text_eq, ◌≡◌, ◌≢◌, All, ap, inl, inr, Bool-cases,
  text_eq_iff,
}
use arky_foundation.Engine.{Engine}
use arky_foundation.Offline.Verify.{BundleReport}
use arky_foundation.Audit.Bundle.{decimal}

-- `argv` before and behind the first `--`
unfoldable pub split_args : List Text → Option (List Text × List Text)
unfolding text_eq
split_args [] = none
split_args (a ∷ argv) =
    let later : Option (List Text × List Text) = elim (split_args argv) [
      | none ↦ none
      | some (flags, cmd) ↦ some (a ∷ flags, cmd)
    ] in
    if text_eq a (codes "--") then some ([], argv) else later

-- A command to run. Without one, the call fails with the usage.
abbrev with_command : Option (List Text × List Text) → Option (List Text × Text × List Text)
with_command none = none
with_command (some (flags, [])) = none
with_command (some (flags, cmd ∷ args)) = some (flags, cmd, args)

unfoldable pub run_args : List Text → Option (List Text × Text × List Text)
unfolding split_args
run_args argv = with_command (split_args argv)

abbrev first_of : List Text → Option Text
first_of [] = none
first_of (a ∷ as') = some a

-- `flags[flags.indexOf(name) + 1]`, where the name is there
unfoldable pub option_of : Text → List Text → Option Text
unfolding text_eq
option_of name [] = none
option_of name (a ∷ flags) =
    let later = option_of name flags in if text_eq a name then first_of flags else later

-- `s.split("/").pop()`
unfoldable pub base_name : Text → Text
base_name [] = []
base_name (c ∷ s) = let rest = base_name s in if has_slash (c ∷ s) then rest else c ∷ s
  where
    has_slash : Text → Bool
    has_slash [] = false
    has_slash (d ∷ t) = if d == b'/' then true else has_slash t

pub record RunOptions : Type 0 where
  pub policy_path : Text
  pub key_path : Text
  pub server_name : Text
  pub out_root : Text
  pub command : Text
  pub arguments : List Text

-- The options of `runCommand`, `none` where it fails. `env_key` is the variable ARKY_MCP_KEY, and
-- `home_key` and `dated_root` are the paths that stand where nothing is given.
unfoldable pub run_options : Option Text → Text → Text → List Text → Option RunOptions
unfolding run_args option_of base_name
run_options env_key home_key dated_root argv = elim (run_args argv) [
  | none ↦ none
  | some (flags, cmd, args) ↦ elim (option_of (codes "--policy") flags) [
    | none ↦ none
    | some policy ↦ some (record {
      policy_path = policy;
      key_path = or_else (option_of (codes "--key") flags) (or_else env_key home_key);
      server_name = or_else (option_of (codes "--name") flags) (base_name cmd);
      out_root = or_else (option_of (codes "--out") flags) dated_root;
      command = cmd;
      arguments = args;
    })
  ]
]

-- What `verifyCommand` writes, and its exit code.
unfoldable pub verify_output : ⦃engine : Engine⦄ → BundleReport → Text × ℕ
verify_output report = (
  (if report.valid then codes "VALID" else codes "INVALID")
      ++ (codes " — "
          ++ (decimal report.calls
              ++ (codes " call(s), "
                  ++ (decimal report.commitments
                      ++ (codes " commitment(s)\n" ++ failures report.errors))))),
  if report.valid then 0 else 1,
)
  where
    failures : List Text → Text
    failures [] = []
    failures (e ∷ es) = codes "  [FAIL] " ++ (e ++ 10 ∷ failures es)

none-ne : {p : List Text × List Text} → none ≢ some p
none-ne e = cc

-- The flags hold no `--`, and the command stands behind the first one.
split_args-some :
    (argv flags cmd : List Text)
    → split_args argv ≡ some (flags, cmd)
    → (argv ≡ flags ++ codes "--" ∷ cmd) × All (λ a. text_eq a (codes "--") ≡ false) flags
unfolding split_args
split_args-some [] flags cmd h = absurd (none-ne h)
split_args-some (a ∷ argv) flags cmd h = elim (Bool-cases (text_eq a (codes "--"))) [
  | inl e ↦
      let p = some-injective (rw e at h) in
      (
        subst (λ x. a ∷ argv ≡ x.0 ++ codes "--" ∷ x.1) p
            (ap (λ b. b ∷ argv) ((text_eq_iff a (codes "--")).0 e)),
        subst (λ x. All (λ b. text_eq b (codes "--") ≡ false) x.0) p tt,
      )
  | inr e ↦ elim (Option-cases (split_args argv)) [
    | inl f ↦ absurd (none-ne (rw (e, split_args, f) at h))
    | inr ((first, later), f) ↦
        let p = some-injective (rw (e, split_args, f) at h) in
        let (q, u) = split_args-some argv first later f in
        (
          subst (λ x. a ∷ argv ≡ x.0 ++ codes "--" ∷ x.1) p (ap (λ x. a ∷ x) q),
          subst (λ x. All (λ b. text_eq b (codes "--") ≡ false) x.0) p (e, u),
        )
  ]
]
