-- ===== src/Diloco/Wire/Contents.antt =====
-- What is read are the next bytes of the stream, in order.
use panofabric_engine.Prelude.{
  ℕ, zero, suc, ◌+◌, ◌-◌, ◌≤◌, ◌<◌, ◌≡◌, ◌⊎◌, inl, inr, refl, sym, ap, subst, ◌∙◌, List, [], ◌∷◌,
  ◌++◌, ltb, ltb→lt, length, arith, Bool-cases, append_assoc, length-append,
}
use panofabric_engine.Prelude.Result.{Result, ok, err, io_error}
use panofabric_engine.Diloco.Wire.{or_closed, read_loop, read_exact_into}

module _ {Byte S : Type 0} (readinto : S → ℕ → List Byte × S) (contents : S → List Byte) where
  -- The stream's documented behaviour: a read takes at most the wanted number of bytes off the front, and
  -- takes none, where some are wanted, only at the end.
  pub record IsStream : Type 0 where
    pub takes : (s : S) (n : ℕ) → contents s ≡ (readinto s n).0 ++ contents (readinto s n).1
    pub at_most : (s : S) (n : ℕ) → length (readinto s n).0 ≤ n
    pub at_end : (s : S) (n : ℕ) → 1 ≤ n → (readinto s n).0 ≡ [] → contents s ≡ []

  -- A result of reading n bytes from a stream with the given contents: exactly these bytes, and the
  -- stream after them, or a closed connection where there are fewer.
  abbrev pub Reads : List Byte → ℕ → Result (List Byte × S) → Type 0
  Reads all n r =
      ((view : List Byte) × (s' : S) × (r ≡ ok (view, s'))
        × (length view ≡ n)
        × (all ≡ view ++ contents s'))
      ⊎ ((r ≡ err io_error) × (length all < n))

  module _ (is : IsStream) where
    -- What one read leaves of the contents.
    read : (s : S) (n : ℕ) {r : List Byte × S} → readinto s n ≡ r → contents s ≡ r.0 ++ contents r.1
    read s n q = is.takes s n ∙ ap (λ r. r.0 ++ contents r.1) q

    read_loop-Reads :
        (fuel n : ℕ) (s : S) (view all : List Byte)
        → all ≡ view ++ contents s
        → length view ≤ n
        → n ≤ length view + fuel
        → Reads all n (read_loop readinto fuel n s view)
    unfolding read_loop
    read_loop-Reads zero n s view all e h f = inl (view, s, refl, omega arith, e)
    read_loop-Reads (suc fuel) n s view all e h f = elim (Bool-cases (ltb (length view) n)) [
      | inr full ↦ inl (view, s, rw full refl, ground arith, e)
      | inl more ↦ rw more (
          go (readinto s (n - length view)) refl (ltb→lt (length view) n more)
            (λ s' v e h f. read_loop-Reads fuel n s' v all e h f))
    ]
      where
        go :
            (r : List Byte × S)
            → readinto s (n - length view) ≡ r
            → length view < n
            → ((s' : S) (v : List Byte)
                → all ≡ v ++ contents s'
                → length v ≤ n
                → n ≤ length v + fuel
                → Reads all n (read_loop readinto fuel n s' v))
            → Reads all n (or_closed readinto (read_loop readinto fuel n r.1 (view ++ r.0)) r.0)
        go ([], s') q l next =
            let over : contents s ≡ [] =
              is.at_end s (n - length view) (omega (arith, l)) (ap (λ r. r.0) q) in
            let is_view : all ≡ view ++ [] = e ∙ ap (λ c. view ++ c) over in
            inr (refl, omega (arith, l, ap length is_view, length-append view []))
        go (b ∷ chunk, s') q l next =
            let grown = length-append view (b ∷ chunk) in
            let few : length (b ∷ chunk) ≤ n - length view =
              subst (λ (r : List Byte × S). length r.0 ≤ n - length view) q
                (is.at_most s (n - length view)) in
            next s' (view ++ (b ∷ chunk))
              (e
                ∙ ap (λ c. view ++ c) (read s (n - length view) q)
                ∙ sym (append_assoc view (b ∷ chunk) (contents s')))
              (omega (arith, grown, few, l)) (omega (arith, grown, f))

    -- For every stream that behaves as documented, however it cuts its reads, the loop returns: with exactly
    -- the next bytes of the contents, as many as asked for, leaving the rest; or, where the contents are
    -- shorter, with an IOError.
    pub read_exact_into-Reads :
        (s : S) (n : ℕ) → Reads (contents s) n (read_exact_into readinto s n)
    unfolding read_exact_into
    read_exact_into-Reads s n =
        read_loop-Reads n n s [] (contents s) refl (omega arith) (omega arith)
