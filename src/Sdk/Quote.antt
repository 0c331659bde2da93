-- ===== src/Sdk/Quote.antt =====
-- packages/sdk/src/quote.ts: cosigned quotes and the clock's ceiling. `deadline` and `prevFilled` are
-- naturals, so their tests in `assertQuote` hold. The blob that carries a quote is not modelled.
pub mod Ceiling
pub mod Cosigned
use delta_x.Prelude.{
  ℕ, ◌*◌, ◌/◌, ◌-◌, ◌%◌, ◌^◌, Option, none, some, List, [], ◌∷◌, Result, ok, err, not, ◌&&◌, ◌||◌,
  ltb, leb, ◌==◌, if◌then◌else◌, ◌>>=◌, invalid_bump, Bool, true, false,
}
use delta_x.Sdk.Order.{Address, bps, zero_address}
use delta_x.Sdk.Selection.{Number, whole, negative, other}
use delta_x.Sdk.Bid.{Viem, QuoteBinding, QuoteSigner, bytes32, address, uint256}

pub record PriceQuote : Type 0 where
  pub order_hash : ℕ
  pub filler : Address
  pub bump_bps : Number
  pub deadline : ℕ
  pub prev_filled : ℕ

pub record SignedQuote : Type 0 where
  pub quote : PriceQuote
  pub binding : QuoteBinding
  pub digest : ℕ
  pub signature : List ℕ

pub data QuoteRefusal : Type 0 where
  bump_out_of_range quote_expired quote_not_for_filler not_the_cosigner : QuoteRefusal
  not_standard_ecdsa : QuoteRefusal

-- `expected` of `verifyQuote`
pub record ExpectedQuote : Type 0 where
  pub cosigner : Address
  pub filler : Option Address

-- The bump of `assertQuote`, or its exception.
unfoldable pub assert_quote : PriceQuote → Result ℕ
assert_quote quote = elim quote.bump_bps [
  | whole n ↦ if leb n bps then ok n else err invalid_bump
  | negative n ↦ err invalid_bump
  | other ↦ err invalid_bump
]

-- `bumpBps < 0 || bumpBps > BPS`, where a number that is no integer passes to the digest
unfoldable pub out_of_band : Number → Bool
out_of_band (whole n) = ltb bps n
out_of_band (negative n) = true
out_of_band other = false

unfoldable pub for_another : ExpectedQuote → PriceQuote → Bool
for_another expected quote = elim expected.filler [
  | none ↦ false
  | some filler ↦ not (quote.filler == zero_address) && not (quote.filler == filler)
]

module _ (viem : Viem) where
  unfoldable pub quote_typehash : ℕ
  quote_typehash = viem.keccak256 (
      viem.to_hex
        "PriceQuote(bytes32 orderHash,address filler,uint256 bumpBps,uint256 deadline,uint256 prevFilled)")

  unfoldable pub quote_digest : PriceQuote → QuoteBinding → Result ℕ
  quote_digest quote binding = do
    bump ← assert_quote quote
    ok (
        viem.keccak256 (
          viem.encode_abi_parameters
            (bytes32 ∷ bytes32 ∷ address ∷ uint256 ∷ uint256 ∷ uint256 ∷ uint256 ∷ address ∷ [])
            (quote_typehash ∷ quote.order_hash ∷ quote.filler ∷ bump ∷ quote.deadline
              ∷ quote.prev_filled ∷ binding.chain_id ∷ binding.quote_module ∷ [])))

  unfoldable pub sign_quote : QuoteSigner → PriceQuote → QuoteBinding → Result SignedQuote
  sign_quote signer quote binding = do
    digest ← quote_digest quote binding
    ok (record {
      quote = quote;
      binding = binding;
      digest = digest;
      signature = signer.sign digest;
    })

  -- The recovered signer of a quote in force, against the cosigner.
  unfoldable pub check_signer : SignedQuote → Address → Option QuoteRefusal
  check_signer signed cosigner = elim (quote_digest signed.quote signed.binding) [
    | err thrown ↦ some not_standard_ecdsa
    | ok digest ↦ elim (viem.recover_address digest signed.signature) [
      | none ↦ some not_standard_ecdsa
      | some signer ↦ if signer == cosigner then none else some not_the_cosigner
    ]
  ]

  unfoldable pub verify_quote : SignedQuote → ExpectedQuote → ℕ → Option QuoteRefusal
  verify_quote signed expected now =
      if out_of_band signed.quote.bump_bps
      then some bump_out_of_range
      else if ltb signed.quote.deadline now
      then some quote_expired
      else if for_another expected signed.quote
      then some quote_not_for_filler
      else check_signer signed expected.cosigner

unfoldable pub clock_bump : ℕ → ℕ → ℕ
clock_bump order_timing now =
    let start = order_timing % 2 ^ 32 in
    let duration = order_timing / 2 ^ 32 % 2 ^ 32 in
    if duration == 0 || leb now start
    then 0
    else if leb duration (now - start)
    then bps
    else bps * (now - start) / duration

unfoldable pub effective_quoted_bump : Option ℕ → ℕ → ℕ → ℕ
effective_quoted_bump none order_timing now = 0
effective_quoted_bump (some quoted) order_timing now =
    if ltb quoted (clock_bump order_timing now) then quoted else clock_bump order_timing now
