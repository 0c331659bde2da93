-- ===== src/Orderbook/Cancels/Signers.antt =====
-- Who can have signed a cancel that is accepted.
use delta_x.Prelude.{
  ℕ, ◌+◌, ◌≤◌, ◌<◌, ◌≡◌, ◌≢◌, ◌⊎◌, arith, none, some, List, true, false, ◌==◌, length, inl, inr,
  Option-cases, Bool-cases,
}
use delta_x.Sdk.Order.{Address}
use delta_x.Orderbook.Messages.{SoftCancel, SignedSoftCancel}
use delta_x.Orderbook.Cancels.{
  CancelLimits, accepted, ChainReads, check_shape, word, skip, recover_ecdsa, has_code,
  is_valid_1271, is_live_delegate, verify_for, verify_maker, verify_contract, verify_code,
  verify_signature, verify_cancel,
}

-- The cancel names some hashes, not too many, and is neither expired nor from the future.
pub record IsFresh (limits : CancelLimits) (now : ℕ) (c : SoftCancel) : Type 0 where
  pub some_hash : 1 ≤ length c.order_hashes
  pub few_hashes : length c.order_hashes ≤ limits.max_hashes
  pub live : now < c.expiry
  pub issued : c.issued_at ≤ now + limits.max_skew
  pub in_order : c.issued_at ≤ c.expiry

check_shape-IsFresh :
    (limits : CancelLimits) (now : ℕ) (c : SoftCancel)
    → check_shape limits now c ≡ none
    → IsFresh limits now c
unfolding check_shape
check_shape-IsFresh limits now c h = record {
  some_hash = ground (arith, h);
  few_hashes = ground (arith, h);
  live = ground (arith, h);
  issued = ground (arith, h);
  in_order = ground (arith, h);
}

module _ (chain : ChainReads) (now : ℕ) where
  -- The maker has registered the signer, for a time that is not over.
  abbrev pub IsDelegate : Address → Address → Type 0
  IsDelegate maker signer =
      (expiry : ℕ) × (chain.order_signer_expiry maker signer ≡ some expiry)
      × (expiry ≢ 0)
      × (now ≤ expiry)

  is_live_delegate-IsDelegate :
      (maker signer : Address)
      → is_live_delegate chain now maker signer ≡ some true
      → IsDelegate maker signer
  unfolding is_live_delegate
  is_live_delegate-IsDelegate maker signer h =
      elim (Option-cases (chain.order_signer_expiry maker signer)) [
        | inl failed ↦ absurd (ground (arith, h, failed))
        | inr (expiry, e) ↦ (expiry, e, (λ zero. ground (arith, h, e, zero)), ground (arith, h, e))
      ]

module _ (chain : ChainReads) (now : ℕ) (maker : Address) (digest : ℕ) (sig : List ℕ) where
  -- The maker, a live delegate of it, a live contract delegate that the signature names where the maker
  -- has no code, or the maker's own code.
  abbrev pub IsSigned : Type 0
  IsSigned =
      ((recover_ecdsa chain now digest sig).signer ≡ some maker)
      ⊎ (((d : Address) × ((recover_ecdsa chain now digest sig).signer ≡ some d)
            × IsDelegate chain now maker d)
          ⊎ (((has_code chain now maker ≡ some false)
                × IsDelegate chain now maker (word 0 20 sig)
                × (verify_for chain now (word 0 20 sig) digest (skip 20 sig) ≡ some true))
              ⊎ ((has_code chain now maker ≡ some true)
                  × (is_valid_1271 chain now maker digest sig ≡ true))))

  verify_code-IsSigned : verify_code chain now maker digest sig ≡ some true → IsSigned
  unfolding verify_code verify_contract verify_maker
  verify_code-IsSigned h = elim (Option-cases (has_code chain now maker)) [
    | inl failed ↦ absurd (ground (arith, h, failed))
    | inr (code, e) ↦ elim (Option-cases (is_live_delegate chain now maker (word 0 20 sig))) [
      | inl failed ↦ inr (inr (ground (arith, h, e, failed)))
      | inr (live, l) ↦
          let by : ((has_code chain now maker ≡ some false)
                × (is_live_delegate chain now maker (word 0 20 sig) ≡ some true)
                × (verify_for chain now (word 0 20 sig) digest (skip 20 sig) ≡ some true))
              ⊎ ((has_code chain now maker ≡ some true)
                  × (is_valid_1271 chain now maker digest sig ≡ true)) =
            ground (arith, h, e, l) in
          elim by [
            | inl (plain, delegate, signed) ↦ inr (
                inr (
                  inl (
                    plain,
                    is_live_delegate-IsDelegate chain now maker (word 0 20 sig) delegate,
                    signed,
                  )))
            | inr own ↦ inr (inr (inr own))
          ]
    ]
  ]

  verify_signature-IsSigned : verify_signature chain now maker digest sig ≡ some true → IsSigned
  unfolding verify_signature
  verify_signature-IsSigned h = elim (Option-cases (recover_ecdsa chain now digest sig).signer) [
    | inl unsigned ↦ verify_code-IsSigned (ground (arith, h, unsigned))
    | inr (signer, e) ↦ elim (Bool-cases (signer == maker)) [
      | inl own ↦ inl (ground (arith, e, own))
      | inr other ↦ elim (Option-cases (is_live_delegate chain now maker signer)) [
        | inl failed ↦ absurd (ground (arith, h, e, other, failed))
        | inr (live, l) ↦ elim (Bool-cases live) [
          | inl yes_live ↦ inr (
              inl (
                signer,
                e,
                is_live_delegate-IsDelegate chain now maker signer (ground (arith, l, yes_live)),
              ))
          | inr dead ↦ verify_code-IsSigned (ground (arith, h, e, other, l, dead))
        ]
      ]
    ]
  ]

-- A cancel is accepted only for the maker that it names, within its times and the bound on its hashes,
-- and with a signature of that maker, of a live delegate of it, or of a contract that stands for it.
pub verify_cancel-IsSigned :
    (chain : ChainReads) (now : ℕ) (limits : CancelLimits) (digest : SoftCancel → ℕ)
    (signed : SignedSoftCancel) (m : Address)
    → verify_cancel chain now limits digest signed ≡ accepted m
    → (m ≡ signed.cancel.maker)
      × IsFresh limits now signed.cancel
      × IsSigned chain now signed.cancel.maker (digest signed.cancel) signed.sig
unfolding verify_cancel
verify_cancel-IsSigned chain now limits digest signed m h =
    elim (Option-cases (check_shape limits now signed.cancel)) [
      | inr (reason, e) ↦ absurd (ground (arith, h, e))
      | inl good ↦
          elim (Option-cases
            (verify_signature chain now signed.cancel.maker (digest signed.cancel) signed.sig)) [
              | inl failed ↦ absurd (ground (arith, h, good, failed))
              | inr (valid, e) ↦ (
                ground (arith, h, good, e),
                check_shape-IsFresh limits now signed.cancel good,
                verify_signature-IsSigned chain now signed.cancel.maker (digest signed.cancel)
                    signed.sig (ground (arith, h, good, e)),
              )
            ]
    ]
