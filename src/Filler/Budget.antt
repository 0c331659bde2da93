-- ===== src/Filler/Budget.antt =====
-- packages/beta-filler/src/policy.ts: the rolling budget of what the wallet pays out. `amount` is kept
-- as a decimal text in the source, which reads back as the number. `ref` is a hash, as a number.
pub mod Window
use delta_x.Prelude.{
  ℕ, ◌+◌, ◌-◌, Option, none, some, Bool, true, false, ◌&&◌, List, [], ◌∷◌, ◌++◌, ltb, ◌==◌,
  if◌then◌else◌,
}
use delta_x.Sdk.Order.{Address}

pub record SpendEntry : Type 0 where
  pub spend_token : Address
  pub spent : ℕ
  pub at : ℕ
  pub ref : Option ℕ

-- The fields that the constructor sets once, and `spends`.
pub record BudgetLimits : Type 0 where
  pub caps : Address → ℕ
  pub window_ms : ℕ

unfoldable pub prune_spends : ℕ → ℕ → List SpendEntry → List SpendEntry
prune_spends window_ms now [] = []
prune_spends window_ms now (s ∷ spends) =
    let rest = prune_spends window_ms now spends in
    if ltb now (s.at + window_ms) then s ∷ rest else rest

-- the amounts of a token, added up
unfoldable pub used : Address → List SpendEntry → ℕ
used token [] = 0
used token (s ∷ spends) =
    let rest = used token spends in if s.spend_token == token then s.spent + rest else rest

-- `remaining` prunes and answers.
unfoldable pub remaining : BudgetLimits → Address → ℕ → List SpendEntry → ℕ × List SpendEntry
remaining limits token now spends =
    let pruned = prune_spends limits.window_ms now spends in
    (
      if ltb (used token pruned) (limits.caps token)
          then limits.caps token - used token pruned
          else 0,
      pruned,
    )

unfoldable pub same_ref : Option ℕ → ℕ → Bool
same_ref none ref = false
same_ref (some r) ref = r == ref

unfoldable pub is_reservation : ℕ → Address → SpendEntry → Bool
is_reservation ref token s = same_ref s.ref ref && s.spend_token == token

-- `this.spends[i] = entry` at the first reservation, or `push` where there is none
unfoldable pub put_spend : ℕ → SpendEntry → List SpendEntry → List SpendEntry
put_spend ref entry [] = entry ∷ []
put_spend ref entry (s ∷ spends) =
    let rest = put_spend ref entry spends in
    if is_reservation ref entry.spend_token s then entry ∷ spends else s ∷ rest

unfoldable pub spend : BudgetLimits → Address → ℕ → ℕ → Option ℕ → List SpendEntry → List SpendEntry
spend limits token amount now none spends =
    prune_spends limits.window_ms now spends
    ++ (record { spend_token = token; spent = amount; at = now; ref = none } ∷ [])
spend limits token amount now (some r) spends =
    put_spend r (record { spend_token = token; spent = amount; at = now; ref = some r })
      (prune_spends limits.window_ms now spends)

-- the amount of the first reservation replaced, or the reservation dropped at zero
unfoldable pub settle_spend : ℕ → Address → ℕ → List SpendEntry → List SpendEntry
settle_spend ref token amount [] = []
settle_spend ref token amount (s ∷ spends) =
    let rest = settle_spend ref token amount spends in
    if is_reservation ref token s
    then if amount == 0 then spends else record s { spent = amount } ∷ spends
    else s ∷ rest
