-- ===== src/Sdk/Packed.antt =====
-- packages/sdk/src/packed.ts: how an order's arrays become byte blobs and how they are read back.
-- A hex text is the list of its bytes; a blob of an odd number of digits is no such list, so `blob`
-- has no refusal left. `numberToHex` and `getAddress` of viem are parameters. A `BlobReader` is the
-- text that it has not read yet. An address is a number: its letter case is gone.
pub mod Reads
pub mod Elements
pub mod Order
pub mod Words
pub mod Layout
pub mod Wire
pub mod Total
pub mod Guards
pub mod RoundTrip
mod Tests
use delta_x.Prelude.{
  ℕ, zero, suc, ◌+◌, ◌*◌, ◌/◌, ◌%◌, ◌^◌, ◌≤◌, ◌<◌, ◌≡◌, Result, ok, err, throw_if, ◌>>=◌, ◌>>◌,
  List, [], ◌∷◌, ◌++◌, length, out_of_range, not_an_address, too_many_elements, blob_too_short,
  trailing_bytes, empty_filler_set, leb, ltb, if◌then◌else◌, Bool, true, false,
}
use delta_x.Sdk.Order.{Address, LegIn, LegOut, CurvePoint, Item, Validator}

abbrev pub Bytes : Type 0
Bytes = List ℕ

abbrev pub is_empty {ℓ} : {A : Type ℓ} → List A → Bool
is_empty [] = true
is_empty (x ∷ xs) = false

-- The bytes of a number, the highest first.
unfoldable pub big_endian : ℕ → ℕ → Bytes
big_endian zero value = []
big_endian (suc size) value = value / 256 ^ size % 256 ∷ big_endian size value

-- What viem documents of `numberToHex(value, { size })`: the number in `size` bytes, or a throw
-- where it does not fit.
abbrev pub IsNumberToHex : (ℕ → ℕ → Result Bytes) → Type 0
IsNumberToHex number_to_hex =
    (value size : ℕ)
    → number_to_hex value size
      ≡ (if leb (256 ^ size) value then err out_of_range else ok (big_endian size value))

-- What viem documents of `getAddress(address)`: the address in its checksum letter case, or a throw
-- where it is not one of 20 bytes.
abbrev pub IsGetAddress : (Address → Result Address) → Type 0
IsGetAddress get_address =
    (a : Address) → get_address a ≡ (if leb (256 ^ 20) a then err not_an_address else ok a)

unfoldable pub addr : Address → Result Bytes
addr a = if leb (256 ^ 20) a then err not_an_address else ok (big_endian 20 a)

-- `out += …` over an array
unfoldable pub write_each : {A : Type 0} → (A → Result Bytes) → List A → Result Bytes
write_each f [] = ok []
write_each f (x ∷ xs) = do front ← f x; back ← write_each f xs; ok (front ++ back)

module _ (number_to_hex : ℕ → ℕ → Result Bytes) where
  unfoldable pub count : ℕ → Result Bytes
  count n = do throw_if (ltb 255 n) too_many_elements; number_to_hex n 1

  unfoldable pub packed : {A : Type 0} → (A → Result Bytes) → List A → Result Bytes
  packed f xs = do n ← count (length xs); body ← write_each f xs; ok (n ++ body)

  unfoldable pub write_leg_in : LegIn → Result Bytes
  write_leg_in leg = do
    token ← addr leg.token
    start ← number_to_hex leg.start 32
    end ← number_to_hex leg.end 32
    ok (token ++ (start ++ end))

  unfoldable pub pack_legs_in : List LegIn → Result Bytes
  pack_legs_in legs = packed write_leg_in legs

  unfoldable pub write_leg_out : LegOut → Result Bytes
  write_leg_out leg = do
    token ← addr leg.token
    start ← number_to_hex leg.start 32
    end ← number_to_hex leg.end 32
    recipient ← addr leg.recipient
    ok (token ++ (start ++ (end ++ recipient)))

  unfoldable pub pack_legs_out : List LegOut → Result Bytes
  pack_legs_out legs = packed write_leg_out legs

  unfoldable pub write_point : CurvePoint → Result Bytes
  write_point point = do
    time_delta ← number_to_hex point.time_delta 4
    bump ← number_to_hex point.bump_bps 4
    ok (time_delta ++ bump)

  unfoldable pub pack_curve : List CurvePoint → Result Bytes
  pack_curve points = packed write_point points

  unfoldable pub write_item : Item → Result Bytes
  write_item item = do
    op ← number_to_hex item.op 1
    module_address ← addr item.module_address
    amount ← number_to_hex item.amount 32
    recipient ← addr item.recipient
    len ← number_to_hex (length item.calldata) 2
    ok (op ++ (module_address ++ (amount ++ (recipient ++ (len ++ item.calldata)))))

  unfoldable pub pack_items : List Item → Result Bytes
  pack_items items = packed write_item items

  unfoldable pub write_validator : Validator → Result Bytes
  write_validator v = do
    target ← addr v.target
    len ← number_to_hex (length v.calldata) 2
    ok (target ++ (len ++ v.calldata))

  unfoldable pub pack_validators : List Validator → Result Bytes
  pack_validators vs = packed write_validator vs

-- The test on the text of a filler is that of a 20-byte address.
unfoldable pub pack_filler_set : List Address → Result Bytes
pack_filler_set fillers = do
  throw_if (is_empty fillers) empty_filler_set
  body ← write_each addr fillers
  ok (0 ∷ body)

-- A method of `BlobReader`: what it returns, and the text after it.
abbrev pub Reader : Type 0 → Type 0
Reader A = Bytes → Result (A × Bytes)

unfoldable pub take_bytes : ℕ → Reader Bytes
take_bytes zero text = ok ([], text)
take_bytes (suc n) [] = err blob_too_short
take_bytes (suc n) (b ∷ text) = do (front, rest) ← take_bytes n text; ok (b ∷ front, rest)

-- BigInt of a hex text, the digits of `value` read before it
unfoldable pub big_int : ℕ → Bytes → ℕ
big_int value [] = value
big_int value (b ∷ text) = big_int (value * 256 + b) text

unfoldable pub int : ℕ → Reader ℕ
int n text = do (digits, rest) ← take_bytes n text; ok (big_int 0 digits, rest)

unfoldable pub read_calldata : Reader Bytes
read_calldata text = do (n, rest) ← int 2 text; take_bytes n rest

-- `Array.from({ length }, () => one(r))`
unfoldable pub repeat : {A : Type 0} → Reader A → ℕ → Reader (List A)
repeat one zero text = ok ([], text)
repeat one (suc n) text = do
  (x, text1) ← one text
  (xs, text2) ← repeat one n text1
  ok (x ∷ xs, text2)

-- BlobReader.all
unfoldable pub read_all : {A : Type 0} → Reader A → Bytes → Result (List A)
read_all one blob = do
  (n, text) ← int 1 blob
  (xs, rest) ← repeat one n text
  if is_empty rest then ok xs else err trailing_bytes

unfoldable pub read_point : Reader CurvePoint
read_point text = do
  (time_delta, text1) ← int 4 text
  (bump, text2) ← int 4 text1
  ok (record { time_delta = time_delta; bump_bps = bump }, text2)

module _ (get_address : Address → Result Address) where
  unfoldable pub read_addr : Reader Address
  read_addr text = do (digits, rest) ← int 20 text; a ← get_address digits; ok (a, rest)

  unfoldable pub read_leg_in : Reader LegIn
  read_leg_in text = do
    (token, text1) ← read_addr text
    (start, text2) ← int 32 text1
    (end, text3) ← int 32 text2
    ok (record { token = token; start = start; end = end }, text3)

  unfoldable pub read_leg_out : Reader LegOut
  read_leg_out text = do
    (token, text1) ← read_addr text
    (start, text2) ← int 32 text1
    (end, text3) ← int 32 text2
    (recipient, text4) ← read_addr text3
    ok (record { token = token; start = start; end = end; recipient = recipient }, text4)

  unfoldable pub read_item : Reader Item
  read_item text = do
    (op, text1) ← int 1 text
    (module_address, text2) ← read_addr text1
    (amount, text3) ← int 32 text2
    (recipient, text4) ← read_addr text3
    (calldata, text5) ← read_calldata text4
    ok (
      record {
        op = op;
        module_address = module_address;
        amount = amount;
        recipient = recipient;
        calldata = calldata;
      },
      text5,
    )

  unfoldable pub read_validator : Reader Validator
  read_validator text = do
    (target, text1) ← read_addr text
    (calldata, text2) ← read_calldata text1
    ok (record { target = target; calldata = calldata }, text2)
