-- ===== src/Prelude/Maps.antt =====
-- `std::unordered_map` and `std::map` with an unsigned key, as association lists in the order of
-- insertion. A map holds a key once; `erase` drops every occurrence that it meets.
use Prim.Native.Nat.{ℕ, suc, ◌≤◌}
use mathlib.Core.Path.{◌≡◌, refl}
use mathlib.Core.List.{List, [], ◌∷◌}
use mathlib.Core.Option.{Option, none, some}
use native.Mathlib.Omega.{arith}
use cloud_meeting_client.Prelude.Tests.{◌==◌, if◌then◌else◌}
use cloud_meeting_client.Prelude.Lists.{length}

abbrev pub Map : Type 0 → Type 0
Map V = List (ℕ × V)

module _ {V : Type 0} where
  -- `find`
  abbrev pub lookup : ℕ → Map V → Option V
  lookup k [] = none
  lookup k ((j, v) ∷ m) = if j == k then some v else lookup k m

  -- `emplace`: an entry that is there stays.
  abbrev pub emplace : ℕ → V → Map V → Map V
  emplace k v [] = (k, v) ∷ []
  emplace k v ((j, w) ∷ m) = if j == k then (j, w) ∷ m else (j, w) ∷ emplace k v m

  -- A write through a pointer to the value at `k`; nothing where there is none.
  abbrev pub put : ℕ → V → Map V → Map V
  put k v [] = []
  put k v ((j, w) ∷ m) = if j == k then (j, v) ∷ m else (j, w) ∷ put k v m

  -- `erase`
  abbrev pub erase : ℕ → Map V → Map V
  erase k [] = []
  erase k ((j, w) ∷ m) = if j == k then erase k m else (j, w) ∷ erase k m

  pub lookup-emplace :
      (k j : ℕ) (v : V) (m : Map V)
      → lookup j (emplace k v m)
        ≡ (elim (lookup k m) [ none ↦ if k == j then some v else lookup j m | some w ↦ lookup j m ])
  lookup-emplace k j v [] = refl
  lookup-emplace k j v ((i, w) ∷ m) = ground (arith, lookup-emplace k j v m)

  pub lookup-put :
      (k j : ℕ) (v : V) (m : Map V)
      → lookup j (put k v m)
        ≡ (elim (lookup j m) [ none ↦ none | some w ↦ if k == j then some v else some w ])
  lookup-put k j v [] = refl
  lookup-put k j v ((i, w) ∷ m) = ground (arith, lookup-put k j v m)

  pub lookup-erase :
      (k j : ℕ) (m : Map V) → lookup j (erase k m) ≡ (if k == j then none else lookup j m)
  lookup-erase k j [] = ground arith
  lookup-erase k j ((i, w) ∷ m) = ground (arith, lookup-erase k j m)

  pub length-emplace :
      (k : ℕ) (v : V) (m : Map V)
      → length (emplace k v m) ≡ (elim (lookup k m) [ none ↦ suc (length m) | some w ↦ length m ])
  length-emplace k v [] = refl
  length-emplace k v ((i, w) ∷ m) = ground (arith, length-emplace k v m)

  pub length-put : (k : ℕ) (v : V) (m : Map V) → length (put k v m) ≡ length m
  length-put k v [] = refl
  length-put k v ((i, w) ∷ m) = ground (arith, length-put k v m)

  pub length-erase-le : (k : ℕ) (m : Map V) → length (erase k m) ≤ length m
  length-erase-le k [] = omega arith
  length-erase-le k ((i, w) ∷ m) = ground (arith, length-erase-le k m)

  -- A map holds a key at most once.
  abbrev pub IsMap : Map V → Type 0
  IsMap [] = Unit {0}
  IsMap ((k, v) ∷ m) = (lookup k m ≡ none) × IsMap m

  pub emplace-IsMap : (k : ℕ) (v : V) (m : Map V) → IsMap m → IsMap (emplace k v m)
  emplace-IsMap k v [] h = (refl, tt)
  emplace-IsMap k v ((j, w) ∷ m) h = ground (arith, emplace-IsMap k v m h.1, lookup-emplace k j v m)

  pub put-IsMap : (k : ℕ) (v : V) (m : Map V) → IsMap m → IsMap (put k v m)
  put-IsMap k v [] h = tt
  put-IsMap k v ((j, w) ∷ m) h = ground (arith, put-IsMap k v m h.1, lookup-put k j v m)

  pub erase-IsMap : (k : ℕ) (m : Map V) → IsMap m → IsMap (erase k m)
  erase-IsMap k [] h = tt
  erase-IsMap k ((j, w) ∷ m) h = ground (arith, erase-IsMap k m h.1, lookup-erase k j m)
