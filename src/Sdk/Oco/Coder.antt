-- ===== src/Sdk/Oco/Coder.antt =====
-- A coder of words of 32 bytes, for the runs of packages/sdk/src/oco.ts.
use delta_x.Prelude.{
  ℕ, ◌^◌, ◌≡◌, refl, List, [], ◌∷◌, ◌++◌, Result, ok, err, ◌>>=◌, >>=-eq-ok, out_of_range, leb,
  if◌then◌else◌,
}
use delta_x.Sdk.Packed.{Bytes, big_endian, int, IsNumberToHex}
use delta_x.Sdk.Packed.Reads.{number-Reads}
use delta_x.Sdk.Packed.Layout.{number-IsBlob, append-IsBlob}
use delta_x.Sdk.Oco.{AbiCoder, IsAbiCoder}

abbrev word_writer : ℕ → ℕ → Result Bytes
word_writer value size =
    if leb (256 ^ size) value then err out_of_range else ok (big_endian size value)

abbrev write_words : List ℕ → Result Bytes
write_words [] = ok []
write_words (n ∷ ns) = do first ← word_writer n 32; rest ← write_words ns; ok (first ++ rest)

-- the bytes of a claim
abbrev pub word_bytes : ℕ → ℕ → ℕ → Bytes
word_bytes group_id nonce min_claim =
    big_endian 32 group_id ++ (big_endian 32 nonce ++ big_endian 32 min_claim)

abbrev read_claim : Bytes → Result (ℕ × ℕ × ℕ)
read_claim text = do
  (group_id, text1) ← int 32 text
  (nonce, text2) ← int 32 text1
  (min_claim, text3) ← int 32 text2
  ok (group_id, nonce, min_claim)

abbrev claim_or_zero : Result (ℕ × ℕ × ℕ) → ℕ × ℕ × ℕ
claim_or_zero (ok claim) = claim
claim_or_zero (err thrown) = (0, 0, 0)

abbrev pub word_coder : AbiCoder
word_coder = record {
  encode = write_words;
  decode_claim = λ (text : Bytes). claim_or_zero (read_claim text);
}

word_writer_documented : IsNumberToHex word_writer
word_writer_documented value size = refl

pub word_coder-IsAbiCoder : IsAbiCoder word_coder
word_coder-IsAbiCoder group_id nonce min_claim w e =
    let (w1, e1, r1) = >>=-eq-ok (word_writer group_id 32) _ e in
    let (t1, s1, q1) = >>=-eq-ok (write_words (nonce ∷ min_claim ∷ [])) _ r1 in
    let (w2, e2, r2) = >>=-eq-ok (word_writer nonce 32) _ s1 in
    let (t2, s2, q2) = >>=-eq-ok (write_words (min_claim ∷ [])) _ r2 in
    let (w3, e3, r3) = >>=-eq-ok (word_writer min_claim 32) _ s2 in
    let reads = number-Reads word_writer word_writer_documented 32 in
    let blob = number-IsBlob word_writer word_writer_documented 32 in
    let whole : w1 ++ (w2 ++ (w3 ++ [])) ≡ w = cc (q1, q2, r3) in
    rw (← whole) (
      (append-IsBlob {m = 32} {n = 64} {k = 96} w1 _ (blob group_id w1 e1)
          (append-IsBlob {m = 32} {n = 32} {k = 64} w2 _ (blob nonce w2 e2)
            (append-IsBlob {m = 32} {n = 0} {k = 32} w3 [] (blob min_claim w3 e3) (refl, tt) refl)
            refl)
          refl).0,
      simp (reads group_id w1 e1, reads nonce w2 e2, reads min_claim w3 e3) refl,
    )
