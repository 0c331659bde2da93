-- ===== src/Orderbook/Cancels/Tests.antt =====
-- A cancel of a maker that is a contract.
use delta_x.Prelude.{ℕ, ◌≡◌, refl, none, some, [], ◌∷◌}
use delta_x.Orderbook.Messages.{SignedSoftCancel}
use delta_x.Orderbook.Cancels.{
  CancelLimits, ChainReads, check_shape, word, recover_with, recover_ecdsa, has_code, is_valid_1271,
  is_live_delegate, verify_for, verify_maker, verify_contract, verify_code, verify_signature,
  verify_cancel, erc1271_magic,
}
use delta_x.Orderbook.Cancels.Signers.{IsFresh, IsSigned, verify_cancel-IsSigned}

-- Every account has code that takes every signature.
abbrev chain : ChainReads
chain = record {
  recover_address = λ digest r s v. none;
  get_code = λ account. some (some (1 ∷ []));
  order_signer_expiry = λ maker signer. some 0;
  is_valid_signature = λ account digest sig. some erc1271_magic;
}

abbrev limits : CancelLimits
limits = record { max_skew = 60; max_hashes = 256 }

abbrev signed : SignedSoftCancel
signed = record {
  cancel = record { maker = 5; order_hashes = 11 ∷ []; issued_at = 120; expiry = 400 };
  sig = 7 ∷ [];
}

runs : Unit {0}
unfolding check_shape word recover_with recover_ecdsa has_code is_valid_1271 is_live_delegate
    verify_for verify_maker verify_contract verify_code verify_signature verify_cancel
runs = tt

verify_cancel-IsSigned_example :
    (◌≡◌ {A = ℕ} 5 5) × IsFresh limits 100 signed.cancel × IsSigned chain 100 5 77 (7 ∷ [])
unfolding runs
verify_cancel-IsSigned_example = verify_cancel-IsSigned chain 100 limits (λ c. 77) signed 5 refl
