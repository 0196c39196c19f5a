-- ===== src/Proxy/Backed.antt =====
-- packages/mcp/src/proxy.ts: what the bundle has for pending calls and for receipts.
use mathlib.Core.List.{Memᴰ}
use arky_foundation.Common.{
  ℕ, suc, List, [], ◌∷◌, ◌++◌, Option, none, some, Text, codes, text_eq, lookup, insert, erase, All,
  All-map, All-append, ◌≡◌, ◌≢◌, refl, Bool-cases, inl, inr, subst, some-injective,
}
use arky_foundation.Engine.{Engine}
use arky_foundation.Json.{str, Fields, get_field}
use arky_foundation.Audit.Bundle.{BundleWriter, CallFile, next_seq, write_call}
use arky_foundation.Proxy.State.{PendingCall, cid_of, take_seq, record_call}
use arky_foundation.Proxy.Client.{record_tims}

abbrev pub decision_file : Text → Fields → CallFile
decision_file seq artifact = record { seq = seq; kind = codes "decision"; artifact = artifact }

-- The files hold a decision with the status APPROVED, under this number and with this cid.
pub record IsApproved (files : List CallFile) (seq cid : Text) : Type 0 where
  pub artifact : Fields
  pub recorded : Memᴰ (decision_file seq artifact) files
  pub approved : get_field (codes "status") artifact ≡ str (codes "APPROVED")
  pub cited : cid_of artifact ≡ cid

-- If a file is a receipt, it names an approved decision under its own number.
abbrev pub IsBackedFile : List CallFile → CallFile → Type 0
IsBackedFile files f =
    f.kind ≡ codes "xr"
    → (cid : Text) × (get_field (codes "decision_cid") f.artifact ≡ str cid)
      × IsApproved files f.seq cid

abbrev pub IsBackedCall : List CallFile → Text × PendingCall → Type 0
IsBackedCall files p = IsApproved files p.1.seq p.1.decision_cid

abbrev pub IsBacked : List CallFile → List (Text × PendingCall) → Type 0
IsBacked files pending = All (IsBackedCall files) pending × All (IsBackedFile files) files

-- With a writer, all pending calls and all receipts are backed by the files that it has written.
abbrev pub IsRecorded : List (Text × PendingCall) → Option BundleWriter → Type 0
IsRecorded pending none = Unit
IsRecorded pending (some w) = IsBacked w.calls pending

Mem-append {ℓ} : {A : Type ℓ} {x : A} (xs ys : List A) → Memᴰ x xs → Memᴰ x (xs ++ ys)
Mem-append [] ys m = elim m [ ]
Mem-append (y ∷ xs) ys (Memᴰ.head e) = Memᴰ.head e
Mem-append (y ∷ xs) ys (Memᴰ.tail m) = Memᴰ.tail (Mem-append xs ys m)

Mem-last {ℓ} : {A : Type ℓ} (xs : List A) (x : A) → Memᴰ x (xs ++ x ∷ [])
Mem-last [] x = Memᴰ.head refl
Mem-last (y ∷ xs) x = Memᴰ.tail (Mem-last xs x)

IsApproved-append :
    (files : List CallFile) (f : CallFile) (seq cid : Text)
    → IsApproved files seq cid
    → IsApproved (files ++ f ∷ []) seq cid
IsApproved-append files f seq cid h = record {
  artifact = h.artifact;
  recorded = Mem-append files (f ∷ []) h.recorded;
  approved = h.approved;
  cited = h.cited;
}

IsBacked-append :
    (files : List CallFile) (pending : List (Text × PendingCall)) (f : CallFile)
    → IsBacked files pending
    → IsBackedFile (files ++ f ∷ []) f
    → IsBacked (files ++ f ∷ []) pending
IsBacked-append files pending f h k = (
  All-map _ _ pending (λ p q. IsApproved-append files f p.1.seq p.1.decision_cid q) h.0,
  All-append _ files (f ∷ [])
      (All-map _ _ files
        (λ g q e. let (cid, r, a) = q e in (cid, r, IsApproved-append files f g.seq cid a)) h.1)
      (k, tt),
)

record_call-IsRecorded :
    (pending : List (Text × PendingCall)) (w : Option BundleWriter) (seq kind : Text)
    (artifact : Fields)
    → kind ≢ codes "xr"
    → IsRecorded pending w
    → IsRecorded pending (record_call seq kind artifact w)
unfolding record_call write_call
record_call-IsRecorded pending none seq kind artifact n h = tt
record_call-IsRecorded pending (some w) seq kind artifact n h =
    IsBacked-append w.calls pending (record { seq = seq; kind = kind; artifact = artifact }) h
      (λ e. absurd (n e))

pub take_seq-IsRecorded :
    ⦃engine : Engine⦄ (pending : List (Text × PendingCall)) (w : Option BundleWriter)
    → IsRecorded pending w
    → IsRecorded pending (take_seq w).1
unfolding take_seq next_seq
take_seq-IsRecorded pending none h = tt
take_seq-IsRecorded pending (some w) h = h

tim-ne : (s : Text) → codes "tim-" ++ s ≢ codes "xr"
tim-ne s e = cc

pub record_tims-IsRecorded :
    ⦃engine : Engine⦄ (pending : List (Text × PendingCall)) (seq : Text) (i : ℕ) (ts : List Fields)
    (w : Option BundleWriter)
    → IsRecorded pending w
    → IsRecorded pending (record_tims seq i ts w)
unfolding record_tims
record_tims-IsRecorded pending seq i [] w h = h
record_tims-IsRecorded pending seq i (t ∷ ts) w h =
    record_tims-IsRecorded pending seq (suc i) ts _
      (record_call-IsRecorded pending w seq _ t (tim-ne _) h)

-- Once the decision is written, a call that it approves can be pending.
pub decision-IsRecorded :
    (pending : List (Text × PendingCall)) (w : Option BundleWriter) (seq : Text) (artifact : Fields)
    → IsRecorded pending w
    → IsRecorded pending (record_call seq (codes "decision") artifact w)
decision-IsRecorded pending w seq artifact h =
    record_call-IsRecorded pending w seq (codes "decision") artifact (λ e. cc) h

All-insert :
    (P : Text × PendingCall → Type 0) (k : Text) (v : PendingCall) (m : List (Text × PendingCall))
    → ((k : Text) → P (k, v))
    → All P m
    → All P (insert k v m)
unfolding insert
All-insert P k v [] h a = (h k, tt)
All-insert P k v ((j, w) ∷ m) h a = elim (Bool-cases (text_eq j k)) [
  | inl e ↦ rw e (h j, a.1)
  | inr e ↦ rw e (a.0, All-insert P k v m h a.1)
]

All-erase :
    (P : Text × PendingCall → Type 0) (k : Text) (m : List (Text × PendingCall))
    → All P m
    → All P (erase k m)
unfolding erase
All-erase P k [] a = tt
All-erase P k ((j, w) ∷ m) a = elim (Bool-cases (text_eq j k)) [
  | inl e ↦ rw e (All-erase P k m a.1)
  | inr e ↦ rw e (a.0, All-erase P k m a.1)
]

All-lookup :
    (files : List CallFile) (k : Text) (v : PendingCall) (m : List (Text × PendingCall))
    → All (IsBackedCall files) m
    → lookup k m ≡ some v
    → IsApproved files v.seq v.decision_cid
unfolding lookup
All-lookup files k v [] a e = cc
All-lookup files k v ((j, w) ∷ m) a e = elim (Bool-cases (text_eq j k)) [
  | inl t ↦ subst (λ u. IsApproved files u.seq u.decision_cid) (some-injective (rw t at e)) a.0
  | inr t ↦ All-lookup files k v m a.1 (rw t at e)
]

pub admit-IsRecorded :
    (pending : List (Text × PendingCall)) (w : Option BundleWriter) (k : Text) (call : PendingCall)
    (artifact : Fields)
    → get_field (codes "status") artifact ≡ str (codes "APPROVED")
    → cid_of artifact ≡ call.decision_cid
    → IsRecorded pending w
    → IsRecorded (insert k call pending) (record_call call.seq (codes "decision") artifact w)
unfolding record_call write_call
admit-IsRecorded pending none k call artifact s c h = tt
admit-IsRecorded pending (some w) k call artifact s c h =
    let (p, f) = decision-IsRecorded pending (some w) call.seq artifact h in
    (
      All-insert _ k call pending
          (λ k. record {
            artifact = artifact;
            recorded = Mem-last w.calls _;
            approved = s;
            cited = c;
          })
          p,
      f,
    )

pub erase-IsRecorded :
    (pending : List (Text × PendingCall)) (w : Option BundleWriter) (k : Text)
    → IsRecorded pending w
    → IsRecorded (erase k pending) w
erase-IsRecorded pending none k h = tt
erase-IsRecorded pending (some w) k h = (All-erase _ k pending h.0, h.1)

-- The receipt of a pending call names the decision that approved it.
pub settle-IsRecorded :
    (pending : List (Text × PendingCall)) (w : Option BundleWriter) (k : Text) (call : PendingCall)
    (xr : Fields)
    → lookup k pending ≡ some call
    → get_field (codes "decision_cid") xr ≡ str call.decision_cid
    → IsRecorded pending w
    → IsRecorded (erase k pending) (record_call call.seq (codes "xr") xr w)
unfolding record_call write_call
settle-IsRecorded pending none k call xr l d h = tt
settle-IsRecorded pending (some w) k call xr l d h =
    IsBacked-append w.calls (erase k pending)
      (record { seq = call.seq; kind = codes "xr"; artifact = xr })
      (erase-IsRecorded pending (some w) k h)
      (λ e. (
        call.decision_cid,
        d,
        IsApproved-append w.calls _ call.seq call.decision_cid
            (All-lookup w.calls k call pending h.0 l),
      ))
