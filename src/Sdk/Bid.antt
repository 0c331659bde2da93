-- ===== src/Sdk/Bid.antt =====
-- packages/sdk/src/bid.ts: signed bids. The hash, the ABI encoding and the recovery of a signer are
-- viem's, fields of the parameter `Viem`. A time in seconds is a natural, so that the test of
-- `closesAt` in `assertBid` holds; `recoverBidder` stands in `try`, and an exception is `none` here.
pub mod Signatures
use Prim.Native.String.{String}
use delta_x.Prelude.{
  ℕ, Option, none, some, List, [], ◌∷◌, Bool, not, Result, ok, err, ltb, leb, ◌==◌, if◌then◌else◌,
  throw_if, ◌>>=◌, ◌>>◌, wrong_signer, invalid_bump, ◌^◌, true, false,
}
use delta_x.Sdk.Order.{Address, bps}
use delta_x.Sdk.Selection.{Number, whole, negative, other}

pub data AbiType : Type 0 where
  bytes32 address uint256 : AbiType

-- Functions of viem: `keccak256`, `encodeAbiParameters`, `toHex` of a text, and `recoverAddress`,
-- which is `none` where it throws.
pub record Viem : Type 0 where
  pub keccak256 : List ℕ → ℕ
  pub encode_abi_parameters : List AbiType → List ℕ → List ℕ
  pub to_hex : String → List ℕ
  pub recover_address : ℕ → List ℕ → Option Address

pub record QuoteBinding : Type 0 where
  pub quote_module : Address
  pub chain_id : ℕ

pub record BidPayload : Type 0 where
  pub order_hash : ℕ
  pub filler : Address
  pub bump_bps : Number
  pub closes_at : ℕ

pub record SignedBid : Type 0 where
  pub payload : BidPayload
  pub signature : List ℕ

-- Anything that signs a raw digest.
pub record QuoteSigner : Type 0 where
  pub address : Address
  pub sign : ℕ → List ℕ

-- Why a bid is refused, by the round and its audit.
pub data Refusal : Type 0 where
  already_settled round_void round_closed another_order another_round duplicate_bid : Refusal
  no_improvement at_capacity bump_out_of_range not_an_address unverifiable_signer forged : Refusal
  incomplete_executor executor_not_an_address executor_unverifiable executor_forged : Refusal
  other_rule other_outcome_rule other_min_bidders no_min_bidders does_not_follow : Refusal
  no_such_round : Refusal

-- `/^0x[0-9a-fA-F]{40}$/` on the text of an address
unfoldable pub is_address : Address → Bool
is_address a = ltb a (2 ^ 160)

-- The bump of `assertBid`, or its exception.
unfoldable pub assert_bid : BidPayload → Result ℕ
assert_bid bid = elim bid.bump_bps [
  | whole n ↦ if leb n bps then ok n else err invalid_bump
  | negative n ↦ err invalid_bump
  | other ↦ err invalid_bump
]

module _ (viem : Viem) where
  unfoldable pub bid_typehash : ℕ
  bid_typehash =
      viem.keccak256
        (viem.to_hex "QuoteBid(bytes32 orderHash,address filler,uint256 bumpBps,uint256 closesAt)")

  unfoldable pub bid_digest : BidPayload → QuoteBinding → Result ℕ
  bid_digest bid binding = do
    bump ← assert_bid bid
    ok (
        viem.keccak256 (
          viem.encode_abi_parameters
            (bytes32 ∷ bytes32 ∷ address ∷ uint256 ∷ uint256 ∷ uint256 ∷ address ∷ [])
            (bid_typehash ∷ bid.order_hash ∷ bid.filler ∷ bump ∷ bid.closes_at ∷ binding.chain_id
              ∷ binding.quote_module ∷ [])))

  unfoldable pub sign_bid : QuoteSigner → BidPayload → QuoteBinding → Result SignedBid
  sign_bid signer bid binding = do
    throw_if (not (signer.address == bid.filler)) wrong_signer
    digest ← bid_digest bid binding
    ok (record { payload = bid; signature = signer.sign digest })

  unfoldable pub recover_bidder : SignedBid → QuoteBinding → Option Address
  recover_bidder bid binding = elim (bid_digest bid.payload binding) [
    | ok digest ↦ viem.recover_address digest bid.signature
    | err thrown ↦ none
  ]

  -- The reason of a refusal, or `none` for `{ ok: true }`.
  unfoldable pub verify_bid : SignedBid → QuoteBinding → Option Refusal
  verify_bid bid binding = elim (assert_bid bid.payload) [
    | err thrown ↦ some bump_out_of_range
    | ok n ↦
        if not (is_address bid.payload.filler)
        then some not_an_address
        else elim (recover_bidder bid binding) [
          | none ↦ some unverifiable_signer
          | some signer ↦ if signer == bid.payload.filler then none else some forged
        ]
  ]
