-- ===== src/Tests/Wires.antt =====
-- A stream that gives at most two bytes a read.
use panofabric_engine.Prelude.{ℕ, zero, suc, ◌≤◌, ◌≡◌, refl, List, [], ◌∷◌, ◌++◌, length, arith}
use panofabric_engine.Diloco.Wire.{read_exact_into}
use panofabric_engine.Diloco.Wire.Contents.{IsStream, Reads, read_exact_into-Reads}

abbrev readinto : List ℕ → ℕ → List ℕ × List ℕ
readinto s zero = ([], s)
readinto [] (suc n) = ([], [])
readinto (b ∷ []) (suc n) = (b ∷ [], [])
readinto (b ∷ c ∷ s) (suc zero) = (b ∷ [], c ∷ s)
readinto (b ∷ c ∷ s) (suc (suc n)) = (b ∷ c ∷ [], s)

takes : (s : List ℕ) (n : ℕ) → s ≡ (readinto s n).0 ++ (readinto s n).1
takes s zero = refl
takes [] (suc n) = refl
takes (b ∷ []) (suc n) = refl
takes (b ∷ c ∷ s) (suc zero) = refl
takes (b ∷ c ∷ s) (suc (suc n)) = refl

at_most : (s : List ℕ) (n : ℕ) → length (readinto s n).0 ≤ n
at_most s zero = omega arith
at_most [] (suc n) = omega arith
at_most (b ∷ []) (suc n) = omega arith
at_most (b ∷ c ∷ s) (suc zero) = omega arith
at_most (b ∷ c ∷ s) (suc (suc n)) = omega arith

at_end : (s : List ℕ) (n : ℕ) → 1 ≤ n → (readinto s n).0 ≡ [] → s ≡ []
at_end s zero h e = absurd (omega arith)
at_end [] (suc n) h e = refl
at_end (b ∷ []) (suc n) h e = cc
at_end (b ∷ c ∷ s) (suc zero) h e = cc
at_end (b ∷ c ∷ s) (suc (suc n)) h e = cc

readinto-IsStream : IsStream readinto (λ s. s)
readinto-IsStream = record { takes = takes; at_most = at_most; at_end = at_end }

read_exact_into-Reads_example :
    Reads readinto (λ s. s) (1 ∷ 2 ∷ 3 ∷ 4 ∷ []) 3 (read_exact_into readinto (1 ∷ 2 ∷ 3 ∷ 4 ∷ []) 3)
read_exact_into-Reads_example =
    read_exact_into-Reads readinto (λ s. s) readinto-IsStream (1 ∷ 2 ∷ 3 ∷ 4 ∷ []) 3
