-- ===== src/Sdk/Quote/Cosigned.antt =====
-- What a cosigner's signature stands for.
use delta_x.Prelude.{ℕ, ◌≤◌, ◌≡◌, arith, some, none, ok, false, >>=-eq-ok}
use delta_x.Sdk.Bid.{Viem, QuoteBinding, QuoteSigner}
use delta_x.Sdk.Quote.{
  PriceQuote, SignedQuote, ExpectedQuote, sign_quote, verify_quote, quote_digest, assert_quote,
  check_signer, for_another, out_of_band,
}

out_of_band-assert_quote :
    (quote : PriceQuote) {n : ℕ} → assert_quote quote ≡ ok n → out_of_band quote.bump_bps ≡ false
unfolding assert_quote out_of_band
out_of_band-assert_quote quote e = ground (arith, e)

out_of_band-quote_digest :
    (viem : Viem) (quote : PriceQuote) (binding : QuoteBinding) {d : ℕ}
    → quote_digest viem quote binding ≡ ok d
    → out_of_band quote.bump_bps ≡ false
unfolding quote_digest
out_of_band-quote_digest viem quote binding e =
    let (n, asserted, rest) = >>=-eq-ok _ _ e in out_of_band-assert_quote quote asserted

check_signer-signed :
    (viem : Viem) (signer : QuoteSigner) (quote : PriceQuote) (binding : QuoteBinding) (d : ℕ)
    → quote_digest viem quote binding ≡ ok d
    → viem.recover_address d (signer.sign d) ≡ some signer.address
    → check_signer viem
        (record { quote = quote; binding = binding; digest = d; signature = signer.sign d })
        signer.address
      ≡ none
unfolding check_signer
check_signer-signed viem signer quote binding d digests recovers =
    rw (check_signer, digests, recovers) (ground arith)

-- Where the recovery reads the cosigner's own signatures back, a quote that `signQuote` returns passes
-- `verifyQuote` until its deadline, for a filler that it names or for any where it is open.
pub verify_quote-sign_quote :
    (viem : Viem) (signer : QuoteSigner) (quote : PriceQuote) (binding : QuoteBinding)
    (expected : ExpectedQuote) (now : ℕ) (signed : SignedQuote)
    → ((digest : ℕ) → viem.recover_address digest (signer.sign digest) ≡ some signer.address)
    → expected.cosigner ≡ signer.address
    → for_another expected quote ≡ false
    → now ≤ quote.deadline
    → sign_quote viem signer quote binding ≡ ok signed
    → verify_quote viem signed expected now ≡ none
unfolding sign_quote verify_quote
verify_quote-sign_quote viem signer quote binding expected now signed recovers own fits timely
      signs =
    let (d, digests, returns) = >>=-eq-ok (quote_digest viem quote binding) _ signs in
    ground (
      arith,
      returns,
      out_of_band-quote_digest viem quote binding digests,
      check_signer-signed viem signer quote binding d digests (recovers d),
    )
