-- ===== src/Orderbook/Messages.antt =====
-- packages/orderbook/src/messages.ts, the messages of the book; the verdicts that it is handed, of
-- packages/orderbook/src/verify.ts and packages/orderbook/src/cancels.ts; and the chain events of
-- packages/orderbook/src/watcher.ts. A hash is the number of its bytes, and so is a signature's text
-- a list of bytes. The permits of an announce, which the book only carries, are bytes.
use delta_x.Prelude.{ℕ, Option, List, Bool}
use delta_x.Sdk.Order.{Address, Order}

pub record OrderAnnounce : Type 0 where
  pub order : Order
  pub sig : List ℕ
  pub sigless : Bool
  pub permits : List ℕ

pub record SoftCancel : Type 0 where
  pub maker : Address
  pub order_hashes : List ℕ
  pub issued_at : ℕ
  pub expiry : ℕ

pub record SignedSoftCancel : Type 0 where
  pub cancel : SoftCancel
  pub sig : List ℕ

pub record OrderReplace : Type 0 where
  pub cancel : SignedSoftCancel
  pub announce : OrderAnnounce
  pub replaces : ℕ

pub data OrderStatus : Type 0 where
  invalid fillable filled cancelled expired inconclusive : OrderStatus

pub record Layer2Result : Type 0 where
  pub is_ok : Bool
  pub status : OrderStatus
  pub fillable_amount : ℕ
  pub is_signature_valid : Bool
  pub validators_pass : Bool
  pub isolated : Bool
  pub erc2612_live : Bool

-- The verdict of a cancel's signature: the maker that it was verified for, or none.
abbrev pub CancelVerdict : Type 0
CancelVerdict = Option Address

pub data ChainEvent : Type 0 where
  cancelled_by_hash : (maker : Address) (order_hash : ℕ) → ChainEvent
  cancelled_nonces : (maker : Address) (nonces : List ℕ) → ChainEvent
  rolled_back : (maker : Address) (min_valid_nonce : ℕ) → ChainEvent
  word_invalidated : (maker : Address) (word_index : ℕ) → ChainEvent
  group_claimed : (maker oco_module : Address) (group_id nonce : ℕ) → ChainEvent
  order_filled : (order_hash : ℕ) (maker : Address) → ChainEvent
