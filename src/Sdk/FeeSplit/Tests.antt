-- ===== src/Sdk/FeeSplit/Tests.antt =====
-- A fee of 30 bps on an output that falls from 20,000 to 10,000.
use delta_x.Prelude.{◌≡◌, refl, ok}
use delta_x.Sdk.Order.{LegOut}
use delta_x.Sdk.FeeSplit.{fee_split_legs}

abbrev leg : LegOut
leg = record { token = 5; start = 19_940; end = 9_970; recipient = 0 }

abbrev fee : LegOut
fee = record { token = 5; start = 60; end = 30; recipient = 9 }

splits : fee_split_legs 5 20_000 10_000 9 30 ≡ ok (leg, fee)
unfolding fee_split_legs
splits = refl
