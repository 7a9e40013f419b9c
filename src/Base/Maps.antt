-- ===== src/Base/Maps.antt =====
-- `std::map` from pointers: a list of entries by ascending key. `lookup` is `find`, `insert` is the
-- assignment `m[k] = v`, `has_key` is `count`, and `get` is the value that `m[k]` refers to, which
-- is the default where the key is new (`touch` is the map after that insertion).
use Prim.Native.Nat.{ℕ}
use mathlib.Core.Path.{◌≡◌, refl}
use mathlib.Core.Bool.{Bool, true, false}
use mathlib.Core.Option.{Option, none, some}
use mathlib.Core.List.{List, [], ◌∷◌}
use native.Mathlib.Omega.{arith}
use nvmordering.Base.Tests.{◌==◌, ltb, if◌then◌else◌, ==_iff}

abbrev pub Map {ℓ} : Type ℓ → Type ℓ
Map V = List (ℕ × V)

module _ {ℓ} {V : Type ℓ} where
  unfoldable pub lookup : ℕ → Map V → Option V
  lookup k [] = none
  lookup k ((j, v) ∷ m) = if j == k then some v else lookup k m

  unfoldable pub insert : ℕ → V → Map V → Map V
  insert k v [] = (k, v) ∷ []
  insert k v ((j, w) ∷ m) =
      let rest = insert k v m in
      if j == k then (k, v) ∷ m else (if ltb k j then (k, v) ∷ (j, w) ∷ m else (j, w) ∷ rest)

  abbrev pub or_default : V → Option V → V
  or_default d none = d
  or_default d (some v) = v

  abbrev pub is_some : Option V → Bool
  is_some none = false
  is_some (some v) = true

  unfoldable pub get : V → ℕ → Map V → V
  unfolding lookup
  get d k m = or_default d (lookup k m)

  unfoldable pub has_key : ℕ → Map V → Bool
  unfolding lookup
  has_key k m = is_some (lookup k m)

  unfoldable pub touch : V → ℕ → Map V → Map V
  unfolding has_key insert
  touch d k m = if has_key k m then m else insert k d m

  unfoldable pub keys : Map V → List ℕ
  keys [] = []
  keys ((k, v) ∷ m) = k ∷ keys m

  -- Reading any key after an assignment.
  pub lookup-insert :
      (j k : ℕ) (v : V) (m : Map V)
      → lookup j (insert k v m) ≡ (if k == j then some v else lookup j m)
  unfolding lookup insert
  lookup-insert j k v [] = refl
  lookup-insert j k v ((i, w) ∷ m) = ground (arith, lookup-insert j k v m)

  pub lookup-insert_self : (k : ℕ) (v : V) (m : Map V) → lookup k (insert k v m) ≡ some v
  lookup-insert_self k v m = ground (arith, lookup-insert k k v m)

  pub lookup-touch :
      (d : V) (j k : ℕ) (m : Map V)
      → lookup j (touch d k m) ≡ (if k == j then some (get d k m) else lookup j m)
  unfolding touch has_key get
  lookup-touch d j k m = ground (arith, lookup-insert j k d m, ==_iff k j)

  pub get-insert :
      (d : V) (j k : ℕ) (v : V) (m : Map V)
      → get d j (insert k v m) ≡ (if k == j then v else get d j m)
  unfolding get
  get-insert d j k v m = ground (arith, lookup-insert j k v m)

  pub get-touch : (d : V) (j k : ℕ) (m : Map V) → get d j (touch d k m) ≡ get d j m
  unfolding get
  get-touch d j k m = ground (arith, lookup-touch d j k m, ==_iff k j)

  -- An assignment makes its key present and keeps the others.
  pub has_key-insert :
      (j k : ℕ) (v : V) (m : Map V)
      → has_key j (insert k v m) ≡ (if k == j then true else has_key j m)
  unfolding has_key
  has_key-insert j k v m = ground (arith, lookup-insert j k v m)
