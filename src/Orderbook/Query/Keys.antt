-- ===== src/Orderbook/Query/Keys.antt =====
-- The order of the rows, and the text of a cursor.
use delta_x.Prelude.{
  ℕ, ◌≡◌, ◌≢◌, ◌⊎◌, refl, arith, none, some, List, [], ◌∷◌, ◌++◌, Bool, true, false, ◌==◌, any, inl,
  inr,
}
use delta_x.Orderbook.Query.{
  Key, Texts, compare_keys, is_above, split_at_tilde, tilde, none_text, equal_text, encode_cursor,
  decode_cursor,
}

-- The first key sorts after the second.
abbrev pub IsPast : Bool → Key → Key → Type 0
IsPast descending a b = is_above (compare_keys descending a b) ≡ true

module _ (d : Bool) where
  pub IsPast-trans : (a b c : Key) → IsPast d a b → IsPast d b c → IsPast d a c
  unfolding compare_keys
  IsPast-trans (none, a) (none, b) (none, c) p q = ground (arith, p, q)
  IsPast-trans (none, a) (none, b) (some z, c) p q = refl
  IsPast-trans (none, a) (some y, b) (none, c) p q = absurd (ground (arith, q))
  IsPast-trans (none, a) (some y, b) (some z, c) p q = refl
  IsPast-trans (some x, a) (none, b) (none, c) p q = absurd (ground (arith, p))
  IsPast-trans (some x, a) (none, b) (some z, c) p q = absurd (ground (arith, p))
  IsPast-trans (some x, a) (some y, b) (none, c) p q = absurd (ground (arith, q))
  IsPast-trans (some x, a) (some y, b) (some z, c) p q = ground (arith, p, q)

  pub IsPast-total : (a b : Key) → a.1 ≢ b.1 → IsPast d a b ⊎ IsPast d b a
  unfolding compare_keys
  IsPast-total (none, a) (none, b) apart = ground (arith, apart)
  IsPast-total (none, a) (some y, b) apart = inl refl
  IsPast-total (some x, a) (none, b) apart = inr refl
  IsPast-total (some x, a) (some y, b) apart = ground (arith, apart)

  pub IsPast-irrefl : (a : Key) → is_above (compare_keys d a a) ≡ false
  unfolding compare_keys
  IsPast-irrefl (none, a) = ground arith
  IsPast-irrefl (some x, a) = ground arith

  pub IsPast-asym : (a b : Key) → IsPast d a b → is_above (compare_keys d b a) ≡ false
  unfolding compare_keys
  IsPast-asym (none, a) (none, b) p = ground (arith, p)
  IsPast-asym (none, a) (some y, b) p = refl
  IsPast-asym (some x, a) (none, b) p = absurd (ground (arith, p))
  IsPast-asym (some x, a) (some y, b) p = ground (arith, p)

-- What the language documents of its numbers, and what a hash is: their texts are read back, and a
-- number's text has no tilde and is not the word for none.
pub record IsReadable (texts : Texts) : Type 0 where
  pub numbers : (v : ℕ) → texts.read_number (texts.show_number v) ≡ some v
  pub hashes : (h : ℕ) → texts.read_hash (texts.show_hash h) ≡ some h
  pub no_tilde : (v : ℕ) → any (λ c. c == tilde) (texts.show_number v) ≡ false
  pub not_none : (v : ℕ) → equal_text (texts.show_number v) none_text ≡ false

split_at_tilde-append :
    (t u : List ℕ)
    → any (λ c. c == tilde) t ≡ false
    → split_at_tilde (t ++ (tilde ∷ u)) ≡ some (t, u)
unfolding split_at_tilde
split_at_tilde-append [] u h = refl
split_at_tilde-append (c ∷ t) u h = ground (arith, h, split_at_tilde-append t u)

pub decode-encode_cursor :
    (texts : Texts) (key : Key)
    → IsReadable texts
    → decode_cursor texts (encode_cursor texts key) ≡ some key
unfolding decode_cursor encode_cursor split_at_tilde
decode-encode_cursor texts (none, h) r = simp (decode_cursor, r.hashes h) refl
decode-encode_cursor texts (some v, h) r =
    simp
      (
        decode_cursor,
        split_at_tilde-append (texts.show_number v) (texts.show_hash h) (r.no_tilde v),
        r.hashes h,
        r.not_none v,
        r.numbers v,
      )
      refl
