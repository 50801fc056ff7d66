-- ===== src/Prelude/Orders.antt =====
-- Comparisons that order any list, and lists in their order.
use mathlib.Core.Path.{◌≡◌}
use mathlib.Core.Bool.{Bool, true, ◌||◌}
use mathlib.Core.List.{List, [], ◌∷◌}
use slashclaw.Prelude.Lists.{All}

module _ {A : Type 0} (before : A → A → Bool) where
  -- Ties are allowed.
  pub record IsOrder : Type 0 where
    pub total : (x y : A) → (before x y || before y x) ≡ true
    pub trans : (x y z : A) → before x y ≡ true → before y z ≡ true → before x z ≡ true

  -- Each element comes before all that follow it.
  abbrev pub IsSorted : List A → Type 0
  IsSorted [] = Unit
  IsSorted (x ∷ xs) = All (λ y. before x y ≡ true) xs × IsSorted xs
