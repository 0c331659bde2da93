-- ===== src/Sdk/Packed/Reads.antt =====
-- packages/sdk/src/packed.ts: the readers of a blob against their writers.
use mathlib.Core.List.{append_assoc, append-nil, map-id}
use mathlib.Core.Path.{subst}
use native.Mathlib.Nat.{pow-suc, mod-add-div', mod-eq_of_lt, div-div-eq-div-mul}
use delta_x.Prelude.{
  ℕ, zero, suc, ◌+◌, ◌*◌, ◌/◌, ◌%◌, ◌^◌, ◌<◌, ◌≡◌, refl, arith, Result, ok, >>=-eq-ok, ok-injective,
  ◌>>=◌, map, ◌∙◌, List, [], ◌∷◌, ◌++◌, length, leb, ltb, ap, Bool-cases, throw_if,
  too_many_elements, inl, inr, leb→lt,
}
use delta_x.Sdk.Order.{Address}
use delta_x.Sdk.Packed.{
  Bytes, Reader, big_endian, IsNumberToHex, IsGetAddress, addr, write_each, count, packed,
  take_bytes, big_int, int, read_addr, read_calldata, repeat, read_all,
}

-- The reader takes `written` off the front of any text and returns `a`.
abbrev pub Reads : {A : Type 0} → Reader A → Bytes → A → Type 0
Reads r written a = (rest : Bytes) → r (written ++ rest) ≡ ok (a, rest)

take_bytes-Reads : (xs : Bytes) → Reads (take_bytes (length xs)) xs xs
unfolding take_bytes
take_bytes-Reads [] rest = refl
take_bytes-Reads (x ∷ xs) rest = simp (take_bytes-Reads xs rest) refl

pub length-big_endian : (n v : ℕ) → length (big_endian n v) ≡ n
unfolding big_endian
length-big_endian zero v = refl
length-big_endian (suc n) v = omega (arith, length-big_endian n v)

-- The remainder by `256 * m` is the digit above `m` and the remainder by `m`.
mod_digit : (v m : ℕ) → v % (m * 256) ≡ v / m % 256 * m + v % m
mod_digit v m = grind (
  arith,
  div-div-eq-div-mul v m 256,
  mod-add-div' v m,
  mod-add-div' v (m * 256),
  ap (λ (t : ℕ). t * m) (mod-add-div' (v / m) 256),
)

-- Reading the bytes appends them to the digits read before.
big_int-big_endian :
    (n v before : ℕ) → big_int before (big_endian n v) ≡ before * 256 ^ n + v % 256 ^ n
unfolding big_int big_endian
big_int-big_endian zero v before = omega arith
big_int-big_endian (suc n) v before =
    rw (big_int-big_endian n v (before * 256 + v / 256 ^ n % 256), pow-suc 256 n)
      (grind (arith, mod_digit v (256 ^ n)))

int-Reads : (n v : ℕ) → v < 256 ^ n → Reads (int n) (big_endian n v) v
unfolding int
int-Reads n v fits rest =
    let taken : take_bytes n (big_endian n v ++ rest) ≡ ok (big_endian n v, rest) =
      subst (λ (k : ℕ). take_bytes k (big_endian n v ++ rest) ≡ ok (big_endian n v, rest))
        (length-big_endian n v) (take_bytes-Reads (big_endian n v) rest) in
    let value : big_int 0 (big_endian n v) ≡ v =
      omega (arith, big_int-big_endian n v 0, mod-eq_of_lt fits) in
    simp (taken, value) refl

addr-fits : (a : Address) (w : Bytes) → addr a ≡ ok w → a < 256 ^ 20
unfolding addr
addr-fits a w e = ground arith

pub addr-Reads : (a : Address) (w : Bytes) → addr a ≡ ok w → Reads (int 20) w a
unfolding addr
addr-Reads a w e rest = elim (Bool-cases (leb (256 ^ 20) a)) [
  | inl wide ↦ cc (wide, e)
  | inr fits ↦
      let same : big_endian 20 a ≡ w = cc (fits, e) in
      subst (λ (t : Bytes). int 20 (t ++ rest) ≡ ok (a, rest)) same
        (int-Reads 20 a (leb→lt (256 ^ 20) a fits) rest)
]

-- `getAddress` lets the 20 bytes of an address through.
pub read_addr-Reads :
    (get_address : Address → Result Address)
    → IsGetAddress get_address
    → (a : Address) (w : Bytes) → addr a ≡ ok w
    → Reads (read_addr get_address) w a
unfolding read_addr
read_addr-Reads get_address checks a w e rest =
    let checked : get_address a ≡ ok a = ground (arith, checks a, addr-fits a w e) in
    simp (addr-Reads a w e rest, checked) refl

-- A count and as many elements
abbrev pub counted : {A : Type 0} → Reader A → Reader (List A)
counted one text = do (n, text1) ← int 1 text; repeat one n text1

-- `BlobReader.all` accepts a list where the blob ends with it.
read_all-counted :
    {A : Type 0} (one : Reader A) (w : Bytes) (xs : List A)
    → counted one w ≡ ok (xs, [])
    → read_all one w ≡ ok xs
unfolding read_all
read_all-counted one w xs e =
    let ((n, text), e1, r1) = >>=-eq-ok (int 1 w) _ e in simp (e1, r1) refl

-- A reader that gives `g x` for what `f` wrote of `x`, over a list.
repeat-Reads :
    {A B : Type 0} (f : A → Result Bytes) (one : Reader B) (g : A → B)
    → ((x : A) (w : Bytes) → f x ≡ ok w → Reads one w (g x))
    → (xs : List A) (w : Bytes) → write_each f xs ≡ ok w
    → Reads (repeat one (length xs)) w (map g xs)
unfolding write_each repeat
repeat-Reads f one g each [] w e rest = cc e
repeat-Reads f one g each (x ∷ xs) w e rest =
    let (front, e1, e2) = >>=-eq-ok (f x) _ e in
    let (back, e3, e4) = >>=-eq-ok (write_each f xs) _ e2 in
    let same : front ++ back ≡ w = cc e4 in
    rw (← same) (
      simp (append_assoc, each x front e1 (back ++ rest), repeat-Reads f one g each xs back e3 rest)
        refl)

module _ (number_to_hex : ℕ → ℕ → Result Bytes) (hexes : IsNumberToHex number_to_hex) where
  pub number-Reads : (n v : ℕ) (w : Bytes) → number_to_hex v n ≡ ok w → Reads (int n) w v
  number-Reads n v w e rest = elim (Bool-cases (leb (256 ^ n) v)) [
    | inl wide ↦ cc (hexes v n, wide, e)
    | inr fits ↦
        let same : big_endian n v ≡ w = cc (hexes v n, fits, e) in
        subst (λ (t : Bytes). int n (t ++ rest) ≡ ok (v, rest)) same
          (int-Reads n v (leb→lt (256 ^ n) v fits) rest)
  ]

  pub read_calldata-append :
      (xs w rest : Bytes)
      → number_to_hex (length xs) 2 ≡ ok w
      → read_calldata (w ++ (xs ++ rest)) ≡ ok (xs, rest)
  unfolding read_calldata
  read_calldata-append xs w rest e =
      simp (number-Reads 2 (length xs) w e, take_bytes-Reads xs rest) refl

  -- What was packed from a list is read back as the list that the reader gives.
  pub packed-Reads :
      {A B : Type 0} (f : A → Result Bytes) (one : Reader B) (g : A → B)
      → ((x : A) (w : Bytes) → f x ≡ ok w → Reads one w (g x))
      → (xs : List A) (w : Bytes) → packed number_to_hex f xs ≡ ok w
      → Reads (counted one) w (map g xs)
  unfolding packed count
  packed-Reads f one g each xs w e rest =
      let (n, e1, r1) = >>=-eq-ok (count number_to_hex (length xs)) _ e in
      let (u, e2, r2) = >>=-eq-ok (throw_if (ltb 255 (length xs)) too_many_elements) _ e1 in
      let (body, e3, r3) = >>=-eq-ok (write_each f xs) _ r1 in
      rw (← ok-injective r3) (
        simp
          (append_assoc, number-Reads 1 (length xs) n r2, repeat-Reads f one g each xs body e3 rest)
          refl)

  -- Alone in a blob it leaves no byte.
  pub packed-read_all_as :
      {A B : Type 0} (f : A → Result Bytes) (one : Reader B) (g : A → B)
      → ((x : A) (w : Bytes) → f x ≡ ok w → Reads one w (g x))
      → (xs : List A) (w : Bytes) → packed number_to_hex f xs ≡ ok w
      → read_all one w ≡ ok (map g xs)
  packed-read_all_as f one g each xs w e =
      let whole : counted one w ≡ ok (map g xs, []) =
        subst (λ (t : Bytes). counted one t ≡ ok (map g xs, [])) (append-nil w)
          (packed-Reads f one g each xs w e []) in
      read_all-counted one w (map g xs) whole

  pub packed-read_all :
      {A : Type 0} (f : A → Result Bytes) (one : Reader A)
      → ((x : A) (w : Bytes) → f x ≡ ok w → Reads one w x)
      → (xs : List A) (w : Bytes) → packed number_to_hex f xs ≡ ok w
      → read_all one w ≡ ok xs
  packed-read_all f one each xs w e =
      packed-read_all_as f one (λ x. x) each xs w e ∙ ap ok (map-id xs)
