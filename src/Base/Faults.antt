-- ===== src/Base/Faults.antt =====
-- What an operation of the source yields: a value, or the fault by which the C++ program stops or
-- becomes undefined.
pub data Fault : Type 0 where
  out_of_bounds assert_failed null_pointer double_free dangling_pointer out_of_fuel : Fault

pub data Result {ℓ} (V : Type ℓ) : Type ℓ where
  err : Fault → Result V
  ok : V → Result V

-- The first fault ends a chain of operations.
infixl 5 ◌>>=◌
abbrev pub ◌>>=◌ {ℓ κ} : {V : Type ℓ} {U : Type κ} → Result V → (V → Result U) → Result U
err fault >>= next = err fault
ok value >>= next = next value
