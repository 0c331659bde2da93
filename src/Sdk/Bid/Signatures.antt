-- ===== src/Sdk/Bid/Signatures.antt =====
-- What a signature on a bid stands for.
use delta_x.Prelude.{
  ℕ, none, some, ◌≡◌, arith, ok, Result-cases, >>=-eq-ok, inl, inr, ◌<◌, ◌^◌, ap, ◌∙◌, refl, List,
}
use delta_x.Sdk.Bid.{
  Viem, QuoteBinding, BidPayload, SignedBid, QuoteSigner, sign_bid, verify_bid, recover_bidder,
  bid_digest, assert_bid, is_address,
}

-- What `signBid` returned, with the digest that was signed.
sign_bid-returns :
    (viem : Viem) (signer : QuoteSigner) (bid : BidPayload) (binding : QuoteBinding)
    {signed : SignedBid}
    → sign_bid viem signer bid binding ≡ ok signed
    → (digest : ℕ) × (bid_digest viem bid binding ≡ ok digest)
      × (signer.address ≡ bid.filler)
      × (signed ≡ record { payload = bid; signature = signer.sign digest })
unfolding sign_bid
sign_bid-returns viem signer bid binding signs = elim (Result-cases (bid_digest viem bid binding)) [
  | inl (digest, e) ↦ (digest, e, ground (arith, e), ground (arith, e))
  | inr (thrown, e) ↦ absurd (ground (arith, e))
]

assert_bid-bid_digest :
    (viem : Viem) (bid : BidPayload) (binding : QuoteBinding) {digest : ℕ}
    → bid_digest viem bid binding ≡ ok digest
    → (bump : ℕ) × (assert_bid bid ≡ ok bump)
unfolding bid_digest
assert_bid-bid_digest viem bid binding signs =
    let (bump, e, rest) = >>=-eq-ok _ _ signs in (bump, e)

recover_bidder-signed :
    (viem : Viem) (bid : BidPayload) (binding : QuoteBinding) (digest : ℕ) (signature : List ℕ)
    → bid_digest viem bid binding ≡ ok digest
    → recover_bidder viem (record { payload = bid; signature = signature }) binding
      ≡ viem.recover_address digest signature
unfolding recover_bidder
recover_bidder-signed viem bid binding digest signature digests = rw (recover_bidder, digests) refl

-- Where the recovery reads a signer's own signatures back, a bid that `signBid` returns for an
-- address of twenty bytes passes `verifyBid` under the same binding.
pub verify_bid-sign_bid :
    (viem : Viem) (signer : QuoteSigner) (bid : BidPayload) (binding : QuoteBinding)
    (signed : SignedBid)
    → ((digest : ℕ) → viem.recover_address digest (signer.sign digest) ≡ some signer.address)
    → bid.filler < 2 ^ 160
    → sign_bid viem signer bid binding ≡ ok signed
    → verify_bid viem signed binding ≡ none
unfolding verify_bid is_address
verify_bid-sign_bid viem signer bid binding signed recovers short signs =
    let (digest, digests, own, e) = sign_bid-returns viem signer bid binding signs in
    let (bump, asserted) = assert_bid-bid_digest viem bid binding digests in
    ap (λ s. verify_bid viem s binding) e
    ∙ ground (
      arith,
      asserted,
      recover_bidder-signed viem bid binding digest (signer.sign digest) digests,
      recovers digest,
    )
