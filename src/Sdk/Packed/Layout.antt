-- ===== src/Sdk/Packed/Layout.antt =====
-- packages/sdk/src/packed.ts: the length of a blob and the range of its bytes.
use delta_x.Prelude.{
  ℕ, zero, suc, ◌+◌, ◌^◌, ◌<◌, ◌≡◌, refl, arith, Result, ok, >>=-eq-ok, ok-injective, List, [], ◌∷◌,
  ◌++◌, length, length-append, leb, ltb, Bool-cases, throw_if, too_many_elements, inl, inr, All,
}
use delta_x.Sdk.Order.{Address, LegIn, LegOut, CurvePoint, Item, Validator}
use delta_x.Sdk.Packed.{
  Bytes, big_endian, IsNumberToHex, addr, write_each, count, packed, write_leg_in, write_leg_out,
  write_point, write_item, write_validator,
}
use delta_x.Sdk.Packed.Reads.{length-big_endian}

abbrev pub IsByte : ℕ → Type 0
IsByte b = b < 256

-- `n` bytes
abbrev pub IsBlob : ℕ → Bytes → Type 0
IsBlob n w = (length w ≡ n) × All IsByte w

All-append : (xs ys : Bytes) → All IsByte xs → All IsByte ys → All IsByte (xs ++ ys)
All-append [] ys p q = q
All-append (x ∷ xs) ys (px, p) q = (px, All-append xs ys p q)

pub append-IsBlob :
    {m n k : ℕ} (xs ys : Bytes) → IsBlob m xs → IsBlob n ys → m + n ≡ k → IsBlob k (xs ++ ys)
append-IsBlob xs ys (p, bytes) (q, bytes') e =
    (omega (arith, length-append xs ys), All-append xs ys bytes bytes')

big_endian-bytes : (n v : ℕ) → All IsByte (big_endian n v)
unfolding big_endian
big_endian-bytes zero v = tt
big_endian-bytes (suc n) v = (omega arith, big_endian-bytes n v)

big_endian-IsBlob : (n v : ℕ) → IsBlob n (big_endian n v)
big_endian-IsBlob n v = (length-big_endian n v, big_endian-bytes n v)

addr-IsBlob : (a : Address) (w : Bytes) → addr a ≡ ok w → IsBlob 20 w
unfolding addr
addr-IsBlob a w e = elim (Bool-cases (leb (256 ^ 20) a)) [
  | inl wide ↦ cc (wide, e)
  | inr fits ↦ let same : big_endian 20 a ≡ w = cc (fits, e) in rw (← same) (big_endian-IsBlob 20 a)
]

-- What the elements of a list take.
abbrev pub total_size : {A : Type 0} → (A → ℕ) → List A → ℕ
total_size size [] = 0
total_size size (x ∷ xs) = size x + total_size size xs

module _ {A : Type 0} (P : A → Type 0) (size : A → ℕ) (f : A → Result Bytes)
    (each : (x : A) (w : Bytes) → P x → f x ≡ ok w → IsBlob (size x) w) where
  write_each-IsBlob :
      (xs : List A) (w : Bytes) → All P xs → write_each f xs ≡ ok w → IsBlob (total_size size xs) w
  unfolding write_each
  write_each-IsBlob [] w p e = rw (← ok-injective e) (refl, tt)
  write_each-IsBlob (x ∷ xs) w (px, p) e =
      let (front, e1, r1) = >>=-eq-ok (f x) _ e in
      let (back, e2, r2) = >>=-eq-ok (write_each f xs) _ r1 in
      rw (← ok-injective r2)
        (append-IsBlob front back (each x front px e1) (write_each-IsBlob xs back p e2) refl)

module _ (number_to_hex : ℕ → ℕ → Result Bytes) (hexes : IsNumberToHex number_to_hex) where
  pub number-IsBlob : (n v : ℕ) (w : Bytes) → number_to_hex v n ≡ ok w → IsBlob n w
  number-IsBlob n v w e = elim (Bool-cases (leb (256 ^ n) v)) [
    | inl wide ↦ cc (hexes v n, wide, e)
    | inr fits ↦
        let same : big_endian n v ≡ w = cc (hexes v n, fits, e) in
        rw (← same) (big_endian-IsBlob n v)
  ]

  -- A packed list starts with its count.
  pub packed-IsBlob :
      {A : Type 0} (P : A → Type 0) (size : A → ℕ) (f : A → Result Bytes)
      → ((x : A) (w : Bytes) → P x → f x ≡ ok w → IsBlob (size x) w)
      → (xs : List A) (w : Bytes) → All P xs
      → packed number_to_hex f xs ≡ ok w
      → IsBlob (1 + total_size size xs) w
  unfolding packed count
  packed-IsBlob P size f each xs w p e =
      let (n, e1, r1) = >>=-eq-ok (count number_to_hex (length xs)) _ e in
      let (u, e2, r2) = >>=-eq-ok (throw_if (ltb 255 (length xs)) too_many_elements) _ e1 in
      let (body, e3, r3) = >>=-eq-ok (write_each f xs) _ r1 in
      rw (← ok-injective r3) (
        append-IsBlob n body (number-IsBlob 1 (length xs) n r2)
          (write_each-IsBlob P size f each xs body p e3) refl)

  pub leg_in-IsBlob :
      (x : LegIn) (w : Bytes) → Unit {0} → write_leg_in number_to_hex x ≡ ok w → IsBlob (84) w
  unfolding write_leg_in
  leg_in-IsBlob x w p e =
      let (w1, e1, r1) = >>=-eq-ok (addr x.token) _ e in
      let (w2, e2, r2) = >>=-eq-ok (number_to_hex x.start 32) _ r1 in
      let (w3, e3, r3) = >>=-eq-ok (number_to_hex x.end 32) _ r2 in
      rw (← ok-injective r3) (
        append-IsBlob w1 _ (addr-IsBlob x.token w1 e1)
          (append-IsBlob w2 _ (number-IsBlob 32 x.start w2 e2) (number-IsBlob 32 x.end w3 e3) refl)
          (omega arith))

  pub leg_out-IsBlob :
      (x : LegOut) (w : Bytes) → Unit {0} → write_leg_out number_to_hex x ≡ ok w → IsBlob (104) w
  unfolding write_leg_out
  leg_out-IsBlob x w p e =
      let (w1, e1, r1) = >>=-eq-ok (addr x.token) _ e in
      let (w2, e2, r2) = >>=-eq-ok (number_to_hex x.start 32) _ r1 in
      let (w3, e3, r3) = >>=-eq-ok (number_to_hex x.end 32) _ r2 in
      let (w4, e4, r4) = >>=-eq-ok (addr x.recipient) _ r3 in
      rw (← ok-injective r4) (
        append-IsBlob w1 _ (addr-IsBlob x.token w1 e1)
          (append-IsBlob w2 _ (number-IsBlob 32 x.start w2 e2)
            (append-IsBlob w3 _ (number-IsBlob 32 x.end w3 e3) (addr-IsBlob x.recipient w4 e4) refl)
            refl)
          (omega arith))

  pub point-IsBlob :
      (x : CurvePoint) (w : Bytes) → Unit {0} → write_point number_to_hex x ≡ ok w → IsBlob (8) w
  unfolding write_point
  point-IsBlob x w p e =
      let (w1, e1, r1) = >>=-eq-ok (number_to_hex x.time_delta 4) _ e in
      let (w2, e2, r2) = >>=-eq-ok (number_to_hex x.bump_bps 4) _ r1 in
      rw (← ok-injective r2) (
        append-IsBlob w1 _ (number-IsBlob 4 x.time_delta w1 e1) (number-IsBlob 4 x.bump_bps w2 e2)
          (omega arith))

  pub item-IsBlob :
      (x : Item) (w : Bytes)
      → All IsByte x.calldata
      → write_item number_to_hex x ≡ ok w
      → IsBlob (75 + length x.calldata) w
  unfolding write_item
  item-IsBlob x w p e =
      let (w1, e1, r1) = >>=-eq-ok (number_to_hex x.op 1) _ e in
      let (w2, e2, r2) = >>=-eq-ok (addr x.module_address) _ r1 in
      let (w3, e3, r3) = >>=-eq-ok (number_to_hex x.amount 32) _ r2 in
      let (w4, e4, r4) = >>=-eq-ok (addr x.recipient) _ r3 in
      let (w5, e5, r5) = >>=-eq-ok (number_to_hex (length x.calldata) 2) _ r4 in
      rw (← ok-injective r5) (
        append-IsBlob w1 _ (number-IsBlob 1 x.op w1 e1)
          (append-IsBlob w2 _ (addr-IsBlob x.module_address w2 e2)
            (append-IsBlob w3 _ (number-IsBlob 32 x.amount w3 e3)
              (append-IsBlob w4 _ (addr-IsBlob x.recipient w4 e4)
                (append-IsBlob w5 _ (number-IsBlob 2 (length x.calldata) w5 e5) (refl, p) refl)
                refl)
              refl)
            refl)
          (omega arith))

  pub validator-IsBlob :
      (x : Validator) (w : Bytes)
      → All IsByte x.calldata
      → write_validator number_to_hex x ≡ ok w
      → IsBlob (22 + length x.calldata) w
  unfolding write_validator
  validator-IsBlob x w p e =
      let (w1, e1, r1) = >>=-eq-ok (addr x.target) _ e in
      let (w2, e2, r2) = >>=-eq-ok (number_to_hex (length x.calldata) 2) _ r1 in
      rw (← ok-injective r2) (
        append-IsBlob w1 _ (addr-IsBlob x.target w1 e1)
          (append-IsBlob w2 _ (number-IsBlob 2 (length x.calldata) w2 e2) (refl, p) refl)
          (omega arith))
