-- ===== src/Orderbook/Cancels.antt =====
-- packages/orderbook/src/cancels.ts, the class CancelVerifier, and packages/orderbook/src/ecdsa.ts. A
-- signature is its bytes, so the test that its text is hex has no branch here. The reads of the chain
-- and the recovery of viem are arguments, `none` where they throw.
pub mod Signers
mod Tests
use delta_x.Prelude.{
  ℕ, ◌+◌, ◌-◌, ◌*◌, ◌/◌, ◌%◌, ◌^◌, Option, none, some, List, [], ◌∷◌, Bool, true, false, not, ◌&&◌,
  ◌||◌, ltb, leb, ◌==◌, if◌then◌else◌, length,
}
use delta_x.Sdk.Order.{Address}
use delta_x.Orderbook.Messages.{SoftCancel, SignedSoftCancel}

pub record CancelLimits : Type 0 where
  pub max_skew : ℕ
  pub max_hashes : ℕ

pub data CancelRefusal : Type 0 where
  no_hashes too_many_hashes cancel_expired issued_later expires_before : CancelRefusal
  not_signed check_failed : CancelRefusal

pub data CancelOutcome : Type 0 where
  accepted : Address → CancelOutcome
  rejected : CancelRefusal → CancelOutcome

unfoldable pub check_shape : CancelLimits → ℕ → SoftCancel → Option CancelRefusal
check_shape limits now c =
    if length c.order_hashes == 0
    then some no_hashes
    else if ltb limits.max_hashes (length c.order_hashes)
    then some too_many_hashes
    else if leb c.expiry now
    then some cancel_expired
    else if ltb (now + limits.max_skew) c.issued_at
    then some issued_later
    else if ltb c.expiry c.issued_at
    then some expires_before
    else none

abbrev pub skip : ℕ → List ℕ → List ℕ
skip n [] = []
skip n (b ∷ bytes) = if n == 0 then b ∷ bytes else skip (n - 1) bytes

-- The number of the first `n` bytes, after `before`.
unfoldable pub word : ℕ → ℕ → List ℕ → ℕ
word before n [] = before
word before n (b ∷ bytes) = if n == 0 then before else word (before * 2 ^ 8 + b) (n - 1) bytes

pub record ChainReads : Type 0 where
  pub recover_address : ℕ → ℕ → ℕ → ℕ → Option Address
  pub get_code : Address → Option (Option (List ℕ))
  pub order_signer_expiry : Address → Address → Option ℕ
  pub is_valid_signature : Address → ℕ → List ℕ → Option ℕ

pub record Recovered : Type 0 where
  pub standard_length : Bool
  pub signer : Option Address

abbrev pub erc1271_magic : ℕ
erc1271_magic = 0x1626ba7e

abbrev answers : Option ℕ → Bool
answers none = false
answers (some magic) = magic == erc1271_magic

abbrev has_bytes : Option (List ℕ) → Bool
has_bytes none = false
has_bytes (some []) = false
has_bytes (some (b ∷ bytes)) = true

module _ (chain : ChainReads) (now : ℕ) where
  unfoldable pub recover_with : ℕ → ℕ → ℕ → ℕ → Option Address
  recover_with digest r s v =
      if v == 27 || v == 28 then chain.recover_address digest r s v else none

  unfoldable pub recover_ecdsa : ℕ → List ℕ → Recovered
  recover_ecdsa digest sig =
      let vs = word 0 32 (skip 32 sig) in
      if length sig == 65
      then record {
        standard_length = true;
        signer = recover_with digest (word 0 32 sig) vs (word 0 1 (skip 64 sig));
      }
      else if length sig == 64
      then record {
        standard_length = true;
        signer = recover_with digest (word 0 32 sig) (vs % 2 ^ 255) (vs / 2 ^ 255 + 27);
      }
      else record { standard_length = false; signer = none }

  unfoldable pub has_code : Address → Option Bool
  has_code account = elim (chain.get_code account) [
    | none ↦ none
    | some code ↦ some (has_bytes code)
  ]

  unfoldable pub is_valid_1271 : Address → ℕ → List ℕ → Bool
  is_valid_1271 account digest sig = answers (chain.is_valid_signature account digest sig)

  unfoldable pub is_live_delegate : Address → Address → Option Bool
  is_live_delegate maker signer = elim (chain.order_signer_expiry maker signer) [
    | none ↦ none
    | some expiry ↦ some (not (expiry == 0) && leb now expiry)
  ]

  abbrev is_signer : Address → Option Address → Bool
  is_signer maker none = false
  is_signer maker (some signer) = signer == maker

  unfoldable pub verify_for : Address → ℕ → List ℕ → Option Bool
  verify_for signer digest sig =
      if is_signer signer (recover_ecdsa digest sig).signer
      then some true
      else elim (has_code signer) [
        | none ↦ none
        | some code ↦ some (code && is_valid_1271 signer digest sig)
      ]

  abbrev pub outcome_of : Address → Option Bool → CancelOutcome
  outcome_of maker none = rejected check_failed
  outcome_of maker (some true) = accepted maker
  outcome_of maker (some false) = rejected not_signed

  -- The maker's own EIP-1271, where it has code.
  unfoldable pub verify_maker : Address → ℕ → List ℕ → Bool → Option Bool
  verify_maker maker digest sig code = some (code && is_valid_1271 maker digest sig)

  -- A contract delegate that the signature names, for a maker without code; else the maker's own.
  unfoldable pub verify_contract : Address → ℕ → List ℕ → Bool → Option Bool
  verify_contract maker digest sig code =
      if not (recover_ecdsa digest sig).standard_length && (ltb 20 (length sig) && not code)
      then elim (is_live_delegate maker (word 0 20 sig)) [
        | none ↦ none
        | some live ↦
            if live
            then verify_for (word 0 20 sig) digest (skip 20 sig)
            else verify_maker maker digest sig code
      ]
      else verify_maker maker digest sig code

  unfoldable pub verify_code : Address → ℕ → List ℕ → Option Bool
  verify_code maker digest sig = elim (has_code maker) [
    | none ↦ none
    | some code ↦ verify_contract maker digest sig code
  ]

  unfoldable pub verify_signature : Address → ℕ → List ℕ → Option Bool
  verify_signature maker digest sig = elim (recover_ecdsa digest sig).signer [
    | none ↦ verify_code maker digest sig
    | some signer ↦ if signer == maker then some true else elim (is_live_delegate maker signer) [
      | none ↦ none
      | some live ↦ if live then some true else verify_code maker digest sig
    ]
  ]

  -- `digest` stands for the hash of the cancel as typed data.
  unfoldable pub verify_cancel : CancelLimits → (SoftCancel → ℕ) → SignedSoftCancel → CancelOutcome
  verify_cancel limits digest signed = elim (check_shape limits now signed.cancel) [
    | some reason ↦ rejected reason
    | none ↦
        outcome_of signed.cancel.maker
          (verify_signature signed.cancel.maker (digest signed.cancel) signed.sig)
  ]

-- The hashes of a cancel whose orders are its maker's.
unfoldable pub evictable_hashes : Address → (ℕ → Option Address) → List ℕ → List ℕ
evictable_hashes maker maker_of [] = []
evictable_hashes maker maker_of (h ∷ rest) =
    let others = evictable_hashes maker maker_of rest in
    elim (maker_of h) [ none ↦ others | some m ↦ if m == maker then h ∷ others else others ]
