-- ===== src/Prelude/Sets.antt =====
-- Go maps whose keys are pointers or numbers: sets as lists of keys, and maps as association lists.
use Prim.Native.Nat.{ℕ, ◌≤◌, ◌<◌}
use mathlib.Core.Path.{◌≡◌, refl}
use mathlib.Core.Bool.{Bool, true, false, ◌||◌}
use mathlib.Core.Option.{Option, none, some}
use mathlib.Core.List.{List, [], ◌∷◌, ◌++◌}
use native.Mathlib.Omega.{arith}
use go_bitflow_collector.Prelude.Tests.{◌==◌, if◌then◌else◌}
use go_bitflow_collector.Prelude.Lists.{length}

unfoldable pub contains : ℕ → List ℕ → Bool
contains k [] = false
contains k (x ∷ s) = x == k || contains k s

-- `delete(m, k)`: every entry of the key goes.
unfoldable pub delete : ℕ → List ℕ → List ℕ
delete k [] = []
delete k (x ∷ s) = if x == k then delete k s else x ∷ delete k s

-- `m[k] = true`
unfoldable pub insert : ℕ → List ℕ → List ℕ
insert k s = if contains k s then s else k ∷ s

pub contains-delete :
    (j k : ℕ) (s : List ℕ) → contains j (delete k s) ≡ (if k == j then false else contains j s)
unfolding contains delete
contains-delete j k [] = ground arith
contains-delete j k (x ∷ s) = ground (arith, contains-delete j k s)

pub contains-insert :
    (j k : ℕ) (s : List ℕ) → contains j (insert k s) ≡ (if k == j then true else contains j s)
unfolding contains insert
contains-insert j k s = ground arith

pub contains-append : (j : ℕ) (s t : List ℕ) → contains j (s ++ t) ≡ (contains j s || contains j t)
unfolding contains
contains-append j [] t = refl
contains-append j (x ∷ s) t = ground (arith, contains-append j s t)

pub length-delete : (k : ℕ) (s : List ℕ) → length (delete k s) ≤ length s
unfolding delete
length-delete k [] = omega arith
length-delete k (x ∷ s) = ground (arith, length-delete k s)

-- Deleting a member makes the list shorter.
pub length-delete-lt : (k : ℕ) (s : List ℕ) → contains k s ≡ true → length (delete k s) < length s
unfolding delete contains
length-delete-lt k [] h = ground arith
length-delete-lt k (x ∷ s) h = ground (arith, length-delete k s, length-delete-lt k s)

-- Association lists with number keys.
module _ {ℓ} {V : Type ℓ} where
  unfoldable pub lookup : ℕ → List (ℕ × V) → Option V
  lookup k [] = none
  lookup k ((j, v) ∷ m) = if j == k then some v else lookup k m

  -- `m[k] = v`
  unfoldable pub put : ℕ → V → List (ℕ × V) → List (ℕ × V)
  put k v [] = (k, v) ∷ []
  put k v ((j, w) ∷ m) = if j == k then (k, v) ∷ m else (j, w) ∷ put k v m

  unfoldable pub remove : ℕ → List (ℕ × V) → List (ℕ × V)
  remove k [] = []
  remove k ((j, w) ∷ m) = if j == k then remove k m else (j, w) ∷ remove k m

  pub lookup-put :
      (j k : ℕ) (v : V) (m : List (ℕ × V))
      → lookup j (put k v m) ≡ (if k == j then some v else lookup j m)
  unfolding lookup put
  lookup-put j k v [] = refl
  lookup-put j k v ((i, w) ∷ m) = ground (arith, lookup-put j k v m)

  pub lookup-remove :
      (j k : ℕ) (m : List (ℕ × V)) → lookup j (remove k m) ≡ (if k == j then none else lookup j m)
  unfolding lookup remove
  lookup-remove j k [] = ground arith
  lookup-remove j k ((i, w) ∷ m) = ground (arith, lookup-remove j k m)
