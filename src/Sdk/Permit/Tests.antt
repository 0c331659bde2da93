-- ===== src/Sdk/Permit/Tests.antt =====
-- A batch nonce and a transfer nonce of the same sequence number.
use delta_x.Prelude.{ℕ, ◌+◌, ◌*◌, ◌^◌, ◌≡◌, refl, err, wrong_namespace}
use delta_x.Sdk.Permit.{
  transfer, permit3_nonce, permit3_nonce_kind, is_kind, assert_permit3_nonce, permit3_nonce_word,
  permit3_nonce_mask,
}
use delta_x.Sdk.Permit.Namespaces.{permit3_nonce_disjoint}

runs : Unit {0}
unfolding permit3_nonce permit3_nonce_kind is_kind assert_permit3_nonce permit3_nonce_word
    permit3_nonce_mask
runs = tt

wrong_kind : assert_permit3_nonce 300 transfer ≡ err wrong_namespace
unfolding runs
wrong_kind = refl

permit3_nonce_disjoint_example : (transfer ≡ transfer) × ◌≡◌ {A = ℕ} 300 300
unfolding runs
permit3_nonce_disjoint_example =
    permit3_nonce_disjoint transfer transfer 300 300 (300 + 2 * 2 ^ 248) (300 + 2 * 2 ^ 248) refl
      refl refl refl
