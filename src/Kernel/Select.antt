-- ===== src/Kernel/Select.antt =====
-- packages/core/src/kernel.ts: `selectLatest`.
use arky_foundation.Common.{
  ℕ, Bool, true, false, not, ◌&&◌, if◌then◌else◌, Ordering, length, keep, List, [], ◌∷◌, Option,
  none, some, or_else, Text, text_eq, text_lt, includes,
}
use arky_foundation.Number.{Number, num_zero, num_lt, num_le, num_eq, integer}
use arky_foundation.Engine.{Engine}
use arky_foundation.Sorting.{sort, last}
use arky_foundation.Kernel.Types.{Window, Require, MeasureSpec, Tim}
use arky_foundation.Kernel.Duration.{within_window}

-- The sign of `a < b ? -1 : 1` for texts that differ.
unfoldable pub text_order : Text → Text → Ordering
unfolding text_lt
text_order a b = if text_lt a b then Ordering.lt else Ordering.gt

-- The sign of `a - b`; NaN counts as 0.
unfoldable pub number_order : Number → Number → Ordering
unfolding num_lt
number_order a b =
    if num_lt a b then Ordering.lt else if num_lt b a then Ordering.gt else Ordering.eq

unfoldable pub same_cid : Option Text → Option Text → Bool
unfolding text_eq
same_cid none none = true
same_cid (some a) (some b) = text_eq a b
same_cid _ _ = false

unfoldable pub cid_order : Option Text → Option Text → Ordering
unfolding same_cid text_lt
cid_order a b =
    if text_lt (or_else a []) (or_else b [])
    then Ordering.lt
    else if same_cid a b
    then Ordering.eq
    else Ordering.gt

abbrev pub lamport : Tim → Number
lamport t = or_else t.lamport num_zero

-- The comparator of the Notary tuple (ts, lamport, identity.id, cid), as a sign.
unfoldable pub notary_order : Tim → Tim → Ordering
unfolding text_order number_order cid_order num_eq text_eq
notary_order a b =
    if not (text_eq a.ts b.ts)
    then text_order a.ts b.ts
    else if not (num_eq (lamport a) (lamport b))
    then number_order (lamport a) (lamport b)
    else if not (text_eq a.identity b.identity)
    then text_order a.identity b.identity
    else cid_order a.cid b.cid

-- `list?.length` is truthy and `list.includes(x)` fails
unfoldable pub outside : Option (List Text) → Option Text → Bool
unfolding includes
outside none x = false
outside (some []) x = false
outside (some (c ∷ cs)) none = true
outside (some (c ∷ cs)) (some x) = not (includes x (c ∷ cs))

abbrev count_witnesses : Tim → ℕ
count_witnesses t = elim t.witnesses [ none ↦ 0 | some ws ↦ length ws ]

unfoldable pub has_witnesses : Option Number → Tim → Bool
unfolding num_le
has_witnesses none t = true
has_witnesses (some n) t = num_le n (integer (count_witnesses t))

unfoldable pub meets : Option Require → Tim → Bool
unfolding has_witnesses outside
meets none t = true
meets (some r) t =
    has_witnesses r.min_witnesses t
    && (not (outside r.device_class t.device) && not (outside r.code t.code))

module _ ⦃engine : Engine⦄ where
  unfoldable pub in_window : Option Window → Text → Tim → Bool
  unfolding within_window
  in_window none eval_time t = true
  in_window (some w) eval_time t = within_window t.ts w eval_time

  -- The successive filters.
  unfoldable pub candidates : MeasureSpec → List Tim → Text → List Tim
  unfolding meets in_window
  candidates spec tims eval_time =
      keep (in_window spec.window eval_time) (keep (meets spec.require) tims)

  unfoldable pub select_latest : MeasureSpec → List Tim → Text → Option Tim
  unfolding candidates sort last notary_order
  select_latest spec tims eval_time = last (sort notary_order (candidates spec tims eval_time))
