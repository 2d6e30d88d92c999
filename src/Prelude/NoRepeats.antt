-- ===== src/Prelude/NoRepeats.antt =====
-- Lists with no item twice.
use Prim.Native.Nat.{ℕ, zero, suc, ◌<◌}
use mathlib.Core.Logic.{◌≢◌}
use mathlib.Core.List.{List, [], ◌∷◌}
use native.Mathlib.Omega.{arith}
use tracer_agent_python.Prelude.Lists.{All, All-map, All-take, take, range_from}

abbrev pub Distinct {ℓ} : {A : Type ℓ} → List A → Type ℓ
Distinct [] = Unit
Distinct (x ∷ xs) = All (λ y. x ≢ y) xs × Distinct xs

pub Distinct-take {ℓ} : {A : Type ℓ} (n : ℕ) (xs : List A) → Distinct xs → Distinct (take n xs)
Distinct-take zero xs h = tt
Distinct-take (suc n) [] h = tt
Distinct-take (suc n) (x ∷ xs) h = (All-take (λ y. x ≢ y) n xs h.0, Distinct-take n xs h.1)

range_from-ge : (start n low : ℕ) → low < start → All (λ i. low < i) (range_from start n)
range_from-ge start zero low h = tt
range_from-ge start (suc n) low h = (h, range_from-ge (suc start) n low (omega arith))

pub range_from-Distinct : (start n : ℕ) → Distinct (range_from start n)
range_from-Distinct start zero = tt
range_from-Distinct start (suc n) = (
  All-map (λ i h. omega arith) (range_from (suc start) n)
      (range_from-ge (suc start) n start (omega arith)),
  range_from-Distinct (suc start) n,
)
