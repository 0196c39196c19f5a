-- ===== src/Offline/Sound.antt =====
-- packages/mcp/src/verify.ts: what a call of a bundle satisfies where its checks give no error.
use arky_foundation.Common.{
  Bool, true, false, not, length, find, keep, List, [], ◌++◌, Option, none, some, Text, codes, Run,
  returns, ◌≡◌, refl, ap, ◌∙◌, ◌⊎◌, inl, inr, Bool-cases, Option-cases, All, returns-injective,
  throws-ne, ==_iff, arith,
}
use arky_foundation.Engine.{Engine}
use arky_foundation.Platform.{Platform}
use arky_foundation.Json.{Value, get, is_undefined}
use arky_foundation.Tim.Create.{is_truthy}
use arky_foundation.Tim.Verify.{is_value, unless}
use arky_foundation.Kernel.Types.{Decision}
use arky_foundation.Settler.Execute.{args_hash}
use arky_foundation.Offline.Values.{
  set_of, elements, same_value, includes_value, get_value, text_of,
}
use arky_foundation.Offline.Checks.{File, load, verify_artifact, check_tims, check_cited}
use arky_foundation.Offline.Call.{
  is_tim_file, is_decision_file, is_xr_file, approves, did_of, recorded_arguments, replay,
  is_same_verdict, check_replay, check_verdict, check_evidence, check_arguments, is_status,
  check_receipt, check_decided, label_of, check_call,
}
use arky_foundation.Offline.Signed.{
  and_then-returns, append-eq_nil, unless-eq_nil, cons-ne, also-eq_nil, IsSigned,
  verify_artifact-IsSigned, AreValid, check_tims-AreValid, check_cited-All,
}

not-true : (b : Bool) → not b ≡ true → b ≡ false
not-true b h = ground arith

module _ ⦃engine : Engine⦄ ⦃platform : Platform⦄
    (odd : Value → List Value → Value → Run Decision) where
  -- The decision cites each TIM by its cid, and as many identifiers as there are TIMs.
  pub record IsCited (decision : Value) (tims : List Value) : Type 0 where
    pub cids : List Value
    pub listed : elements (get (codes "evidence") decision) ≡ returns cids
    pub cites : All (λ t. includes_value (get (codes "cid") t) (set_of cids) ≡ true) tims
    pub no_more : length (set_of cids) ≡ length tims

  -- The Kernel, run on the commitment that the decision names, gives the verdict of the decision.
  pub record IsReplayed (commitments : List (Value × Value)) (decision : Value) (tims : List Value)
      : Type 0 where
    pub commitment : Value
    pub verdict : Decision
    pub found : get_value (get (codes "commitment_cid") decision) commitments ≡ some commitment
    pub replayed :
        replay odd commitment tims (get (codes "ts") (get (codes "time") decision))
        ≡ returns verdict
    pub same : is_same_verdict odd verdict decision ≡ returns true

  -- The receipt of an approved decision is signed, names the decision and its commitment, has a
  -- status and the hash of the recorded arguments.
  pub record IsReceipted (decision : Value) (tims : List Value) (file : File) : Type 0 where
    pub xr : Value
    pub hash : Text
    pub loaded : load file.1 ≡ returns xr
    pub approved : approves decision ≡ true
    pub signed : IsSigned xr (did_of xr)
    pub names : same_value (get (codes "decision_cid") xr) (get (codes "cid") decision) ≡ true
    pub commits :
        same_value (get (codes "commitment_cid") xr) (get (codes "commitment_cid") decision) ≡ true
    pub settled : is_status odd (get (codes "status") xr) ≡ true
    pub hashed : args_hash (recorded_arguments tims) ≡ some hash
    pub records : is_value hash (get (codes "args_hash") xr) ≡ true

  pub record IsSoundDecision (commitments : List (Value × Value)) (files : List File)
      (decision : Value) (tims : List Value) : Type 0 where
    pub signed : IsSigned decision (did_of decision)
    pub cited : IsCited decision tims
    pub judged : IsReplayed commitments decision tims ⊎ (approves decision ≡ false)
    pub receipted :
        (find is_xr_file files ≡ none)
        ⊎ ((file : File) × (find is_xr_file files ≡ some file) × IsReceipted decision tims file)

  -- The files of a call hold valid TIMs and a sound decision about them.
  pub record IsSoundCall (commitments : List (Value × Value)) (files : List File) : Type 0 where
    pub tims : List Value
    pub decision : Value
    pub file : File
    pub valid : AreValid (keep is_tim_file files) tims
    pub decided : find is_decision_file files ≡ some file
    pub loaded : load file.1 ≡ returns decision
    pub sound : IsSoundDecision commitments files decision tims

  check_evidence-IsCited :
      (label : Text) (decision : Value) (tims : List Value)
      → check_evidence odd label decision tims ≡ returns []
      → IsCited decision tims
  unfolding check_evidence
  check_evidence-IsCited label decision tims h =
      let (cids, e, h₁) = and_then-returns (elements (get (codes "evidence") decision)) _ h in
      let (p, q) = also-eq_nil (check_cited label (set_of cids) tims) _ h₁ in
      record {
        cids = cids;
        listed = e;
        cites = check_cited-All label (set_of cids) tims p;
        no_more = (==_iff _ _).0 (unless-eq_nil _ _ (returns-injective q));
      }

  check_replay-same :
      (label : Text) (decision : Value) (tims : List Value) (commitment : Value)
      → check_replay odd label decision tims commitment ≡ returns []
      → (d : Decision) × (replay odd commitment tims
            (get (codes "ts") (get (codes "time") decision))
          ≡ returns d)
        × (is_same_verdict odd d decision ≡ returns true)
  unfolding check_replay
  check_replay-same label decision tims commitment h =
      let (d, r, h₁) = and_then-returns (replay odd commitment tims _) _ h in
      let (same, s, h₂) = and_then-returns (is_same_verdict odd d decision) _ h₁ in
      elim (Bool-cases same) [
        | inl e ↦ (d, r, rw (← e) s)
        | inr e ↦
            let (status, t, h₃) =
              and_then-returns (text_of (get (codes "status") decision)) _ (rw e at h₂) in
            absurd (cons-ne (returns-injective h₃))
      ]

  check_verdict-judged :
      (label : Text) (commitments : List (Value × Value)) (decision : Value) (tims : List Value)
      → check_verdict odd label commitments decision tims ≡ returns []
      → IsReplayed commitments decision tims ⊎ (approves decision ≡ false)
  unfolding check_verdict
  check_verdict-judged label commitments decision tims h =
      let cid = get (codes "commitment_cid") decision in
      elim (Bool-cases (is_truthy cid)) [
        | inr e ↦ inr (not-true _ (unless-eq_nil _ _ (returns-injective (rw e at h))))
        | inl e ↦ elim (Option-cases (get_value cid commitments)) [
          | inl f ↦
              let (s, t, h₁) = and_then-returns (text_of cid) _ (rw (e, check_verdict, f) at h) in
              absurd (cons-ne (returns-injective h₁))
          | inr (commitment, f) ↦
              let (d, r, s) =
                check_replay-same label decision tims commitment (rw (e, check_verdict, f) at h) in
              inl
                (record { commitment = commitment; verdict = d; found = f; replayed = r; same = s })
        ]
      ]

  check_arguments-hashed :
      (label : Text) (xr : Value) (tims : List Value)
      → check_arguments odd label xr tims ≡ returns []
      → (hash : Text) × (args_hash (recorded_arguments tims) ≡ some hash)
        × (is_value hash (get (codes "args_hash") xr) ≡ true)
  unfolding check_arguments
  check_arguments-hashed label xr tims h =
      elim (Bool-cases (is_undefined (recorded_arguments tims))) [
        | inl e ↦ absurd (cons-ne (returns-injective (rw e at h)))
        | inr e ↦ elim (Option-cases (args_hash (recorded_arguments tims))) [
          | inl f ↦ absurd (throws-ne (rw (e, check_arguments, f) at h))
          | inr (hash, f) ↦
              let h₁ : returns (
                    unless (is_value hash (get (codes "args_hash") xr))
                      (label ++ codes ": xr.args_hash does not match recorded arguments"))
                  ≡ returns [] =
                rw (e, check_arguments, f) at h in
              (hash, f, unless-eq_nil _ _ (returns-injective h₁))
        ]
      ]

  check_receipt-IsReceipted :
      (label : Text) (decision : Value) (tims : List Value) (file : File)
      → check_receipt odd label decision tims (some file) ≡ returns []
      → IsReceipted decision tims file
  unfolding check_receipt
  check_receipt-IsReceipted label decision tims file h =
      let (a, h₁) = also-eq_nil _ _ h in
      let (xr, l, h₂) = and_then-returns (load file.1) _ h₁ in
      let (s, h₃) = also-eq_nil (verify_artifact xr (did_of xr) (label ++ codes " xr")) _ h₂ in
      let (k, g) = also-eq_nil _ (check_arguments odd label xr tims) h₃ in
      let (k₁, k₂) = append-eq_nil _ _ (returns-injective k) in
      let (k₃, k₄) = append-eq_nil _ _ k₂ in
      let (hash, f, m) = check_arguments-hashed label xr tims g in
      record {
        xr = xr;
        hash = hash;
        loaded = l;
        approved = unless-eq_nil _ _ (returns-injective a);
        signed = verify_artifact-IsSigned xr (did_of xr) _ s;
        names = unless-eq_nil _ _ k₁;
        commits = unless-eq_nil _ _ k₃;
        settled = unless-eq_nil _ _ k₄;
        hashed = f;
        records = m;
      }

  receipted :
      (label : Text) (decision : Value) (tims : List Value) (o : Option File)
      → check_receipt odd label decision tims o ≡ returns []
      → (o ≡ none) ⊎ ((file : File) × (o ≡ some file) × IsReceipted decision tims file)
  receipted label decision tims none h = inl refl
  receipted label decision tims (some file) h =
      inr (file, refl, check_receipt-IsReceipted label decision tims file h)

  check_decided-IsSoundDecision :
      (label : Text) (commitments : List (Value × Value)) (files : List File) (decision : Value)
      (tims : List Value)
      → check_decided odd label commitments files decision tims ≡ returns []
      → IsSoundDecision commitments files decision tims
  unfolding check_decided
  check_decided-IsSoundDecision label commitments files decision tims h =
      let (s, h₁) =
        also-eq_nil (verify_artifact decision (did_of decision) (label ++ codes " decision")) _ h in
      let (c, h₂) = also-eq_nil (check_evidence odd label decision tims) _ h₁ in
      let (v, r) = also-eq_nil (check_verdict odd label commitments decision tims) _ h₂ in
      record {
        signed = verify_artifact-IsSigned decision (did_of decision) _ s;
        cited = check_evidence-IsCited label decision tims c;
        judged = check_verdict-judged label commitments decision tims v;
        receipted = receipted label decision tims (find is_xr_file files) r;
      }

  pub check_call-IsSoundCall :
      (commitments : List (Value × Value)) (seq : Text) (files : List File)
      → check_call odd commitments (seq, files) ≡ returns []
      → IsSoundCall commitments files
  unfolding check_call
  check_call-IsSoundCall commitments seq files h =
      let ((errors, tims), t, h₁) =
        and_then-returns (check_tims (label_of odd seq) (keep is_tim_file files)) _ h in
      let (e, h₂) = also-eq_nil (returns errors) _ h₁ in
      elim (Option-cases (find is_decision_file files)) [
        | inl d ↦ absurd (cons-ne (returns-injective (rw (d, check_call) at h₂)))
        | inr (file, d) ↦
            let (decision, l, h₃) = and_then-returns (load file.1) _ (rw (d, check_call) at h₂) in
            record {
              tims = tims;
              decision = decision;
              file = file;
              valid =
                  check_tims-AreValid (label_of odd seq) (keep is_tim_file files) tims
                    (t ∙ ap (λ es. returns (es, tims)) (returns-injective e));
              decided = d;
              loaded = l;
              sound =
                  check_decided-IsSoundDecision (label_of odd seq) commitments files decision tims
                    h₃;
            }
      ]
