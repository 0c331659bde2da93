-- ===== src/Auction/Executor.antt =====
-- packages/auction/src/executor.ts: a bid that also names the contract that will fill.
use delta_x.Prelude.{
  ℕ, Option, none, some, List, [], ◌∷◌, not, Result, ok, ◌==◌, if◌then◌else◌, throw_if, ◌>>=◌, ◌>>◌,
  wrong_signer,
}
use delta_x.Sdk.Order.{Address}
use delta_x.Sdk.Bid.{
  Viem, QuoteBinding, QuoteSigner, SignedBid, Refusal, bytes32, address, uint256, is_address,
  incomplete_executor, executor_not_an_address, executor_unverifiable, executor_forged,
}

pub record ExecutorDeclaration : Type 0 where
  pub order_hash : ℕ
  pub filler : Address
  pub executor : Address
  pub closes_at : ℕ

pub record RoundBid : Type 0 where
  pub bid : SignedBid
  pub executor : Option Address
  pub executor_signature : Option (List ℕ)

-- What is submitted may carry a field that no signature covers.
pub record Submission : Type 0 where
  pub signed : RoundBid
  pub commitment : Option ℕ

unfoldable pub signed_projection : Submission → RoundBid
signed_projection raw = raw.signed

module _ (viem : Viem) where
  unfoldable pub bid_executor_typehash : ℕ
  bid_executor_typehash = viem.keccak256 (
      viem.to_hex "BidExecutor(bytes32 orderHash,address filler,address executor,uint256 closesAt)")

  unfoldable pub executor_digest : ExecutorDeclaration → QuoteBinding → ℕ
  executor_digest d binding = viem.keccak256 (
      viem.encode_abi_parameters
        (bytes32 ∷ bytes32 ∷ address ∷ address ∷ uint256 ∷ uint256 ∷ address ∷ [])
        (bid_executor_typehash ∷ d.order_hash ∷ d.filler ∷ d.executor ∷ d.closes_at
          ∷ binding.chain_id ∷ binding.quote_module ∷ []))

  unfoldable pub sign_executor : QuoteSigner → ExecutorDeclaration → QuoteBinding → Result (List ℕ)
  sign_executor signer d binding = do
    throw_if (not (signer.address == d.filler)) wrong_signer
    ok (signer.sign (executor_digest d binding))

  unfoldable pub declaration : SignedBid → Address → ExecutorDeclaration
  declaration bid executor = record {
    order_hash = bid.payload.order_hash;
    filler = bid.payload.filler;
    executor = executor;
    closes_at = bid.payload.closes_at;
  }

  unfoldable pub with_executor : QuoteSigner → SignedBid → Address → QuoteBinding → Result RoundBid
  with_executor signer bid executor binding = do
    signature ← sign_executor signer (declaration bid executor) binding
    ok (record { bid = bid; executor = some executor; executor_signature = some signature })

  -- The declaration of a bid that has both fields.
  unfoldable pub verify_declaration : SignedBid → Address → List ℕ → QuoteBinding → Option Refusal
  verify_declaration bid executor signature binding =
      if not (is_address executor)
      then some executor_not_an_address
      else elim (viem.recover_address (executor_digest (declaration bid executor) binding)
          signature) [
            | none ↦ some executor_unverifiable
            | some signer ↦ if signer == bid.payload.filler then none else some executor_forged
          ]

  unfoldable pub verify_executor : RoundBid → QuoteBinding → Option Refusal
  verify_executor b binding = elim b.executor [
    | none ↦ elim b.executor_signature [ none ↦ none | some signature ↦ some incomplete_executor ]
    | some executor ↦ elim b.executor_signature [
      | none ↦ some incomplete_executor
      | some signature ↦ verify_declaration b.bid executor signature binding
    ]
  ]
