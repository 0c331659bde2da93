-- ===== src/Filler/Budget/Window.antt =====
-- packages/beta-filler/src/policy.ts: what the class Budget lets out in a window.
use delta_x.Prelude.{ℕ, ◌+◌, ◌≤◌, Option, List, [], ◌∷◌, ltb, ◌==◌, if◌then◌else◌}
use delta_x.Sdk.Order.{Address}
use delta_x.Filler.Budget.{SpendEntry, BudgetLimits, remaining, is_reservation, spend, settle_spend}

-- What was spent of a token in the window that ends at `now`.
abbrev pub outflow : ℕ → Address → ℕ → List SpendEntry → ℕ
outflow window token now [] = 0
outflow window token now (s ∷ spends) =
    let rest = outflow window token now spends in
    if s.spend_token == token
    then (if ltb now (s.at + window) then s.spent + rest else rest)
    else rest

-- What the first reservation holds.
abbrev pub reserved : ℕ → Address → List SpendEntry → ℕ
reserved ref token [] = 0
reserved ref token (s ∷ spends) =
    let rest = reserved ref token spends in if is_reservation ref token s then s.spent else rest

-- The budgets that a filler comes to by time `now`, which asks what is left before it spends and
-- settles a reservation at no more than it holds.
pub data Reaches (limits : BudgetLimits) : ℕ → List SpendEntry → Type 0 where
  fresh : (now : ℕ) → Reaches limits now []
  asked :
      (now later : ℕ) (token : Address) (spends : List SpendEntry)
      → Reaches limits now spends
      → now ≤ later
      → Reaches limits later (remaining limits token later spends).1
  spent_some :
      (now later : ℕ) (token : Address) (amount : ℕ) (ref : Option ℕ) (spends : List SpendEntry)
      → Reaches limits now spends
      → now ≤ later
      → amount ≤ (remaining limits token later spends).0
      → Reaches limits later (spend limits token amount later ref spends)
  settled_at :
      (now : ℕ) (ref : ℕ) (token : Address) (amount : ℕ) (spends : List SpendEntry)
      → Reaches limits now spends
      → amount ≤ reserved ref token spends
      → Reaches limits now (settle_spend ref token amount spends)
