-- ===== src/Proxy/Counted.antt =====
-- packages/mcp/src/proxy.ts: how many pending calls and receipts have a sequence number.
use native.Mathlib.Nat.{le_refl}
use arky_foundation.Common.{
  ℕ, suc, ◌+◌, ◌≤◌, Bool, true, false, ◌&&◌, length, keep, List, [], ◌∷◌, ◌++◌, Option, none, some,
  Text, codes, text_eq, text_eq_iff, lookup, insert, erase, ◌≡◌, refl, ap, ◌∙◌, subst, Bool-cases,
  inl, inr, some-injective, arith,
}
use arky_foundation.Engine.{Engine}
use arky_foundation.Json.{Fields}
use arky_foundation.Audit.Bundle.{BundleWriter, CallFile, padded, next_seq, write_call, decimal}
use arky_foundation.Proxy.State.{PendingCall, take_seq, record_call}
use arky_foundation.Proxy.Client.{record_tims}

-- the number of the pending calls with this sequence number
abbrev pub calls_of : Text → List (Text × PendingCall) → ℕ
calls_of s pending = length (keep (λ p. text_eq p.1.seq s) pending)

-- the number of the receipts with this sequence number
abbrev pub receipts_of : Text → List CallFile → ℕ
receipts_of s files = length (keep (λ f. text_eq f.kind (codes "xr") && text_eq f.seq s) files)

abbrev one : Bool → ℕ
one true = 1
one false = 0

receipts_of-append :
    (s : Text) (files : List CallFile) (f : CallFile)
    → receipts_of s (files ++ f ∷ [])
      ≡ receipts_of s files + one (text_eq f.kind (codes "xr") && text_eq f.seq s)
receipts_of-append s [] f = elim (Bool-cases (text_eq f.kind (codes "xr") && text_eq f.seq s)) [
  | inl e ↦ rw e (omega arith)
  | inr e ↦ rw e (omega arith)
]
receipts_of-append s (g ∷ files) f =
    let later = receipts_of-append s files f in
    elim (Bool-cases (text_eq g.kind (codes "xr") && text_eq g.seq s)) [
      | inl e ↦ rw e (omega (arith, later))
      | inr e ↦ rw e later
    ]

xr_kind : text_eq (codes "xr") (codes "xr") ≡ true
unfolding text_eq
xr_kind = refl

receipt_of-append :
    (s : Text) (files : List CallFile) (f : CallFile)
    → f.kind ≡ codes "xr"
    → receipts_of s (files ++ f ∷ []) ≡ receipts_of s files + one (text_eq f.seq s)
receipt_of-append s files f k =
    receipts_of-append s files f
    ∙ ap (λ b. receipts_of s files + one (b && text_eq f.seq s))
        (ap (λ x. text_eq x (codes "xr")) k ∙ xr_kind)

calls_of-insert :
    (s k : Text) (c : PendingCall) (m : List (Text × PendingCall))
    → calls_of s (insert k c m) ≤ calls_of s m + one (text_eq c.seq s)
unfolding insert
calls_of-insert s k c [] = ground arith
calls_of-insert s k c ((j, d) ∷ m) = let later = calls_of-insert s k c m in ground arith

calls_of-erase :
    (s k : Text) (m : List (Text × PendingCall)) → calls_of s (erase k m) ≤ calls_of s m
unfolding erase
calls_of-erase s k [] = ground arith
calls_of-erase s k ((j, d) ∷ m) = let later = calls_of-erase s k m in ground arith

calls_of-erase_found :
    (s k : Text) (c : PendingCall) (m : List (Text × PendingCall))
    → lookup k m ≡ some c
    → calls_of s (erase k m) + one (text_eq c.seq s) ≤ calls_of s m
unfolding erase lookup
calls_of-erase_found s k c [] h = cc
calls_of-erase_found s k c ((j, d) ∷ m) h = elim (Bool-cases (text_eq j k)) [
  | inl e ↦
      let same : d ≡ c = some-injective (rw e at h) in
      let fewer = calls_of-erase s k m in
      rw e (
        subst (λ x. calls_of s (erase k m) + one (text_eq x.seq s) ≤ calls_of s ((j, d) ∷ m)) same
          (ground arith))
  | inr e ↦ let later = calls_of-erase_found s k c m (rw e at h) in rw e (ground arith)
]

module _ ⦃engine : Engine⦄ where
  -- A number has at most one call, pending or with a receipt, and the numbers to come have none.
  pub record Counts (pending : List (Text × PendingCall)) (w : BundleWriter) : Type 0 where
    pub at_most_one : (s : Text) → calls_of s pending + receipts_of s w.calls ≤ 1
    pub unused :
        (n : ℕ) → w.next ≤ n → calls_of (padded n) pending + receipts_of (padded n) w.calls ≡ 0

  abbrev pub IsCounted : List (Text × PendingCall) → Option BundleWriter → Type 0
  IsCounted pending none = Unit
  IsCounted pending (some w) = Counts pending w

  -- The number has no call, and is none of the numbers to come.
  pub record Unused (seq : Text) (pending : List (Text × PendingCall)) (w : BundleWriter)
      : Type 0 where
    pub no_call : calls_of seq pending + receipts_of seq w.calls ≡ 0
    pub apart : (n : ℕ) → w.next ≤ n → text_eq seq (padded n) ≡ false

  abbrev pub IsUnused : Text → List (Text × PendingCall) → Option BundleWriter → Type 0
  IsUnused seq pending none = Unit
  IsUnused seq pending (some w) = Unused seq pending w

  -- Two numbers of calls are written differently.
  abbrev pub IsNumbering : Type 0
  IsNumbering = (m n : ℕ) → padded m ≡ padded n → m ≡ n

  pub take_seq-IsCounted :
      IsNumbering
      → (pending : List (Text × PendingCall)) (w : Option BundleWriter) → IsCounted pending w
      → IsCounted pending (take_seq w).1 × IsUnused (take_seq w).0 pending (take_seq w).1
  unfolding take_seq next_seq
  take_seq-IsCounted i pending none h = (tt, tt)
  take_seq-IsCounted i pending (some w) h = (
    record { at_most_one = h.at_most_one; unused = λ n l. h.unused n (omega arith) },
    record {
      no_call = h.unused w.next (le_refl w.next);
      apart = λ n l. elim (Bool-cases (text_eq (padded w.next) (padded n))) [
        | inr e ↦ e
        | inl e ↦
            let same = i w.next n ((text_eq_iff (padded w.next) (padded n)).0 e) in
            absurd (omega arith)
      ];
    },
  )

  -- A file that is no receipt does not count.
  other_file :
      (s : Text) (files : List CallFile) (f : CallFile)
      → text_eq f.kind (codes "xr") ≡ false
      → receipts_of s (files ++ f ∷ []) ≡ receipts_of s files
  other_file s files f e = let sum = receipts_of-append s files f in sum ∙ rw e (omega arith)

  pub record_call-IsCounted :
      (pending : List (Text × PendingCall)) (w : Option BundleWriter) (seq number kind : Text)
      (artifact : Fields)
      → text_eq kind (codes "xr") ≡ false
      → IsCounted pending w × IsUnused seq pending w
      → IsCounted pending (record_call number kind artifact w)
        × IsUnused seq pending (record_call number kind artifact w)
  unfolding record_call write_call
  record_call-IsCounted pending none seq number kind artifact e h = (tt, tt)
  record_call-IsCounted pending (some w) seq number kind artifact e (h, u) =
      let f : CallFile = record { seq = number; kind = kind; artifact = artifact } in
      (
        record {
          at_most_one = λ s. rw (other_file s w.calls f e) (h.at_most_one s);
          unused = λ n l. rw (other_file (padded n) w.calls f e) (h.unused n l);
        },
        record { no_call = rw (other_file seq w.calls f e) u.no_call; apart = u.apart },
      )

  tim-ne_xr : (s : Text) → text_eq (codes "tim-" ++ s) (codes "xr") ≡ false
  unfolding text_eq
  tim-ne_xr s = refl

  pub record_tims-IsCounted :
      (pending : List (Text × PendingCall)) (seq : Text) (i : ℕ) (ts : List Fields)
      (w : Option BundleWriter)
      → IsCounted pending w × IsUnused seq pending w
      → IsCounted pending (record_tims seq i ts w) × IsUnused seq pending (record_tims seq i ts w)
  unfolding record_tims
  record_tims-IsCounted pending seq i [] w h = h
  record_tims-IsCounted pending seq i (t ∷ ts) w h =
      record_tims-IsCounted pending seq (suc i) ts _
        (record_call-IsCounted pending w seq seq (codes "tim-" ++ decimal i) t (tim-ne_xr _) h)

  -- A number that has no call can be given to one.
  pub admit-IsCounted :
      (pending : List (Text × PendingCall)) (w : Option BundleWriter) (k : Text)
      (call : PendingCall)
      → IsCounted pending w × IsUnused call.seq pending w
      → IsCounted (insert k call pending) w
  admit-IsCounted pending none k call h = tt
  admit-IsCounted pending (some w) k call (h, u) = record {
    at_most_one = λ s.
        let more = calls_of-insert s k call pending in
        elim (Bool-cases (text_eq call.seq s)) [
          | inr e ↦
              let most = h.at_most_one s in
              let more' : calls_of s (insert k call pending) ≤ calls_of s pending + 0 =
                rw e at more in
              omega arith
          | inl e ↦
              let zero_of =
                subst (λ x. calls_of x pending + receipts_of x w.calls ≡ 0)
                  ((text_eq_iff call.seq s).0 e) u.no_call in
              let more' : calls_of s (insert k call pending) ≤ calls_of s pending + 1 =
                rw e at more in
              omega arith
        ];
    unused = λ n l.
        let more : calls_of (padded n) (insert k call pending) ≤ calls_of (padded n) pending + 0 =
          rw (u.apart n l) at (calls_of-insert (padded n) k call pending) in
        let no = h.unused n l in omega arith;
  }

  pub erase-IsCounted :
      (pending : List (Text × PendingCall)) (w : Option BundleWriter) (k : Text)
      → IsCounted pending w
      → IsCounted (erase k pending) w
  erase-IsCounted pending none k h = tt
  erase-IsCounted pending (some w) k h = record {
    at_most_one =
        λ s. let fewer = calls_of-erase s k pending in let most = h.at_most_one s in omega arith;
    unused = λ n l.
        let fewer = calls_of-erase (padded n) k pending in let no = h.unused n l in omega arith;
  }

  -- The receipt of a pending call takes the place of the call.
  pub settle-IsCounted :
      (pending : List (Text × PendingCall)) (w : Option BundleWriter) (k : Text)
      (call : PendingCall) (xr : Fields)
      → lookup k pending ≡ some call
      → IsCounted pending w
      → IsCounted (erase k pending) (record_call call.seq (codes "xr") xr w)
  unfolding record_call write_call
  settle-IsCounted pending none k call xr l h = tt
  settle-IsCounted pending (some w) k call xr l h =
      let f : CallFile = record { seq = call.seq; kind = codes "xr"; artifact = xr } in
      record {
        at_most_one = λ s.
            let fewer = calls_of-erase_found s k call pending l in
            let sum = receipt_of-append s w.calls f refl in
            let most = h.at_most_one s in omega arith;
        unused = λ n m.
            let fewer = calls_of-erase_found (padded n) k call pending l in
            let sum = receipt_of-append (padded n) w.calls f refl in
            let no = h.unused n m in omega arith;
      }
