-- ===== src/Sdk/Permit.antt =====
-- packages/sdk/src/permit3nonce.ts: the nonces of the signed Permit3 messages, whose top byte is the
-- kind of the message, and the bit of the bitmap that a nonce takes.
pub mod Namespaces
mod Tests
use Prim.Native.Nat.{bit_or}
use delta_x.Prelude.{
  ℕ, ◌*◌, ◌/◌, ◌%◌, ◌^◌, Option, none, some, Bool, true, false, not, Result, ok, throw_if, ◌>>=◌,
  ◌>>◌, leb, ◌==◌, if◌then◌else◌, out_of_range, wrong_namespace,
}

abbrev pub permit3_kind_shift : ℕ
permit3_kind_shift = 248

-- A numeric constant; nothing but these three is ever cast to the type.
pub data Permit3MessageKind : Type 0 where
  batch take_kind transfer : Permit3MessageKind

abbrev pub kind_number : Permit3MessageKind → ℕ
kind_number batch = 0
kind_number take_kind = 1
kind_number transfer = 2

unfoldable pub permit3_nonce : Permit3MessageKind → ℕ → Result ℕ
permit3_nonce kind seq = do
  throw_if (leb (2 ^ permit3_kind_shift) seq) out_of_range
  ok (bit_or (kind_number kind * 2 ^ permit3_kind_shift) seq)

-- `null` for a nonce without a known kind
unfoldable pub permit3_nonce_kind : ℕ → Option Permit3MessageKind
permit3_nonce_kind nonce =
    let kind = nonce / 2 ^ permit3_kind_shift in
    if kind == 0
    then some batch
    else if kind == 1
    then some take_kind
    else if kind == 2
    then some transfer
    else none

-- `got !== kind`
unfoldable pub is_kind : Option Permit3MessageKind → Permit3MessageKind → Bool
is_kind none kind = false
is_kind (some got) kind = kind_number got == kind_number kind

unfoldable pub assert_permit3_nonce : ℕ → Permit3MessageKind → Result ℕ
assert_permit3_nonce nonce kind = do
  throw_if (not (is_kind (permit3_nonce_kind nonce) kind)) wrong_namespace
  ok nonce

unfoldable pub permit3_nonce_word : ℕ → ℕ
permit3_nonce_word nonce = nonce / 2 ^ 8

unfoldable pub permit3_nonce_mask : ℕ → ℕ
permit3_nonce_mask nonce = 2 ^ (nonce % 2 ^ 8)
