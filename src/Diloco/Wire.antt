-- ===== src/Diloco/Wire.antt =====
-- `_read_exact_into`: a body of known length from a stream that may give fewer bytes than asked for.
-- The stream's `readinto` is a parameter; the filled part of the view is a list of its bytes.
pub mod Contents
use panofabric_engine.Prelude.{
  ℕ, zero, suc, ◌+◌, ◌-◌, List, [], ◌∷◌, ◌++◌, if◌then◌else◌, ltb, length,
}
use panofabric_engine.Prelude.Result.{Result, ok, err, io_error}

module _ {Byte S : Type 0} (readinto : S → ℕ → List Byte × S) where
  -- Another pass of the `while`, unless the stream has ended.
  abbrev pub or_closed : Result (List Byte × S) → List Byte → Result (List Byte × S)
  or_closed again [] = err io_error
  or_closed again (b ∷ chunk) = again

  -- The fuel bounds the passes: each fills at least one byte.
  unfoldable pub read_loop : ℕ → ℕ → S → List Byte → Result (List Byte × S)
  read_loop zero nbytes stream view = ok (view, stream)
  read_loop (suc fuel) nbytes stream view =
      let (chunk, stream') = readinto stream (nbytes - length view) in
      let again = read_loop fuel nbytes stream' (view ++ chunk) in
      if ltb (length view) nbytes then or_closed again chunk else ok (view, stream)

  unfoldable pub read_exact_into : S → ℕ → Result (List Byte × S)
  unfolding read_loop
  read_exact_into stream nbytes = read_loop nbytes nbytes stream []
