-- ===== src/Tests/Arrays.antt =====
-- dyn_array.c on arrays of numbers.
use soter.Base.{ℕ, true, [], ◌∷◌, arith, nat_bytes}
use soter.DynArray.{DynArray, push}
use soter.DynArray.Shape.{IsValid, Grows, push-Grows}

abbrev two_elements : DynArray ℕ
two_elements = record { elements = 7 ∷ 9 ∷ []; head = 4; element_size = 8; bytes = 32 }

abbrev repeated : DynArray ℕ
repeated = record { elements = 7 ∷ 9 ∷ 7 ∷ []; head = 4; element_size = 8; bytes = 32 }

two_elements-IsValid : IsValid two_elements
two_elements-IsValid = record { room = omega arith; small = omega arith; block = λ h. omega arith }

repeated-IsValid : IsValid repeated
repeated-IsValid = record { room = omega arith; small = omega arith; block = λ h. omega arith }

push-Grows_example : Grows true repeated (7 ∷ 9 ∷ 7 ∷ 5 ∷ []) (push true repeated 5)
push-Grows_example = push-Grows true repeated 5 repeated-IsValid (omega arith, omega arith)
