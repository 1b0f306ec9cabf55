-- ===== src/Common/Predicates.antt =====
-- What holds of each element of a list, or of some element. Both compute to products and sums.
use mathlib.Core.Logic.{◌⊎◌}
use mathlib.Core.List.{List, [], ◌∷◌, ◌++◌}

abbrev pub Any {ℓ} : {A : Type ℓ} → (A → Type 0) → List A → Type 0
Any holds [] = ⊥
Any holds (a ∷ rest) = holds a ⊎ Any holds rest

abbrev pub All {κ ℓ} : {A : Type ℓ} (holds : A → Type κ) (elements : List A) → Type κ
All holds [] = Unit
All holds (a ∷ rest) = holds a × All holds rest

pub All-map {ℓ κ} :
    {A : Type ℓ} (P Q : A → Type κ) (xs : List A) → ((a : A) → P a → Q a) → All P xs → All Q xs
All-map P Q [] f h = tt
All-map P Q (x ∷ xs) f (px, hx) = (f x px, All-map P Q xs f hx)

pub All-append :
    {A : Type 0} (holds : A → Type 0) (front back : List A)
    → All holds front
    → All holds back
    → All holds (front ++ back)
All-append holds [] back _ on_back = on_back
All-append holds (a ∷ rest) back (on_a, on_rest) on_back =
    (on_a, All-append holds rest back on_rest on_back)
