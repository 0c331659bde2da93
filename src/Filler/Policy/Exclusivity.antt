-- ===== src/Filler/Policy/Exclusivity.antt =====
-- packages/beta-filler/src/policy.ts: exclusivityFor beside the SDK's exclusivityOverrideFor.
use delta_x.Prelude.{ℕ, ◌≡◌, ◌≢◌, arith, Option, false, List, Result, ok, err, Error}
use delta_x.Sdk.Order.{Address, Order, filler_set_sentinel}
use delta_x.Sdk.Timing.{flag, block_clock_bit, delta_verify_outputs_bit}
use delta_x.Sdk.Filling.{exclusivity_override_for, excludes, outsider_override}
use delta_x.Filler.Policy.{ExclusivityKind, open_to_us, soft, hard, exclusivity_for}

-- What the gate answers a filler that reads its window so.
abbrev pub Agrees : ExclusivityKind → Result ℕ → Type 0
Agrees open_to_us answer = answer ≡ ok 0
Agrees (soft ends_at override_bps) answer = answer ≡ ok override_bps
Agrees (hard ends_at) answer = (thrown : Error) × (answer ≡ err thrown)

-- For a pull order on the wall clock whose filler is no set, the filler's reading of exclusivity
-- is that of exclusivityOverrideFor: open where the gate asks for no premium, soft where it asks
-- for that premium, hard where it throws.
pub exclusivity_for-Agrees :
    (order : Order) (me : Address) (now : ℕ) (filler_set : Option (List Address))
    → flag order.timing delta_verify_outputs_bit ≡ false
    → flag order.timing block_clock_bit ≡ false
    → order.exclusive_filler ≢ filler_set_sentinel
    → Agrees (exclusivity_for order me now) (exclusivity_override_for order me now filler_set)
unfolding exclusivity_for exclusivity_override_for excludes outsider_override
exclusivity_for-Agrees order me now filler_set pull wall named = ground arith
