-- ===== src/Base/Sets.antt =====
-- `std::set` of pointers: a list by ascending address, without duplicates.
use Prim.Native.Nat.{ℕ}
use mathlib.Core.Path.{◌≡◌, refl}
use mathlib.Core.Bool.{Bool, false, ◌||◌}
use mathlib.Core.List.{List, [], ◌∷◌}
use native.Mathlib.Omega.{arith}
use nvmordering.Base.Tests.{◌==◌, ltb, if◌then◌else◌}

abbrev pub PtrSet : Type 0
PtrSet = List ℕ

unfoldable pub member : ℕ → PtrSet → Bool
member k [] = false
member k (j ∷ s) = j == k || member k s

unfoldable pub add : ℕ → PtrSet → PtrSet
add k [] = k ∷ []
add k (j ∷ s) =
    let rest = add k s in if j == k then j ∷ s else (if ltb k j then k ∷ j ∷ s else j ∷ rest)

unfoldable pub remove : ℕ → PtrSet → PtrSet
remove k [] = []
remove k (j ∷ s) = let rest = remove k s in if j == k then rest else j ∷ rest

-- Membership after an insertion.
pub member-add : (j k : ℕ) (s : PtrSet) → member j (add k s) ≡ (k == j || member j s)
unfolding member add
member-add j k [] = refl
member-add j k (i ∷ s) = ground (arith, member-add j k s)

-- Membership after a removal.
pub member-remove :
    (j k : ℕ) (s : PtrSet) → member j (remove k s) ≡ (if k == j then false else member j s)
unfolding member remove
member-remove j k [] = ground arith
member-remove j k (i ∷ s) = ground (arith, member-remove j k s)
