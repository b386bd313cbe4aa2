-- ===== src/Prelude/Maps.antt =====
-- Go maps with string keys, `map[string]V`: the list of their entries.
use Prim.Native.Nat.{suc, ◌+◌, ◌≤◌, ◌<◌}
use mathlib.Core.Path.{◌≡◌, refl, sym, ap}
use mathlib.Core.Logic.{inl, inr}
use mathlib.Core.Option.{Option, none, some}
use mathlib.Core.List.{List, [], ◌∷◌, ◌++◌}
use native.Mathlib.Omega.{arith}
use provider_databricks.Prelude.Tests.{if◌then◌else◌, Bool-cases, some≢none}
use provider_databricks.Prelude.Lists.{length, All}
use provider_databricks.Prelude.Runes.{Text, text_eq, text_eq_iff}

abbrev pub Map {ℓ} : Type ℓ → Type ℓ
Map V = List (Text × V)

module _ {ℓ} {V : Type ℓ} where
  -- `v, ok := m[k]`
  unfoldable pub lookup : Text → Map V → Option V
  unfolding text_eq
  lookup k [] = none
  lookup k ((j, v) ∷ m) = if text_eq j k then some v else lookup k m

  -- `m[k] = v`
  unfoldable pub put : Text → V → Map V → Map V
  unfolding text_eq
  put k v [] = (k, v) ∷ []
  put k v ((j, w) ∷ m) = let rest = put k v m in if text_eq j k then (k, v) ∷ m else (j, w) ∷ rest

  -- `delete(m, k)`
  unfoldable pub delete : Text → Map V → Map V
  unfolding text_eq
  delete k [] = []
  delete k ((j, w) ∷ m) = let rest = delete k m in if text_eq j k then rest else (j, w) ∷ rest

  abbrev pub keys : Map V → List Text
  keys [] = []
  keys ((k, v) ∷ m) = k ∷ keys m

  pub length-keys : (m : Map V) → length (keys m) ≡ length m
  length-keys [] = refl
  length-keys ((k, v) ∷ m) = ap suc (length-keys m)

  pub lookup-put :
      (j k : Text) (v : V) (m : Map V)
      → lookup j (put k v m) ≡ (if text_eq k j then some v else lookup j m)
  unfolding lookup put
  lookup-put j k v [] = refl
  lookup-put j k v ((i, w) ∷ m) =
      ground (arith, text_eq_iff k j, text_eq_iff i k, text_eq_iff i j, lookup-put j k v m)

  pub lookup-delete :
      (j k : Text) (m : Map V) → lookup j (delete k m) ≡ (if text_eq k j then none else lookup j m)
  unfolding lookup delete
  lookup-delete j k [] = ground arith
  lookup-delete j k ((i, w) ∷ m) =
      ground (arith, text_eq_iff k j, text_eq_iff i k, text_eq_iff i j, lookup-delete j k m)

  pub put_absent : (k : Text) (v : V) (m : Map V) → lookup k m ≡ none → put k v m ≡ m ++ (k, v) ∷ []
  unfolding lookup put
  put_absent k v [] h = refl
  put_absent k v ((i, w) ∷ m) h = ground (arith, text_eq_iff i k, put_absent k v m)

  pub length-put : (k : Text) (v : V) (m : Map V) → length (put k v m) ≤ length m + 1
  unfolding put
  length-put k v [] = omega arith
  length-put k v ((i, w) ∷ m) = ground (arith, length-put k v m)

  pub length-put_present :
      (k : Text) (v w : V) (m : Map V) → lookup k m ≡ some w → length (put k v m) ≡ length m
  unfolding put lookup
  length-put_present k v w [] h = absurd (some≢none (sym h))
  length-put_present k v w ((i, u) ∷ m) h = ground (arith, length-put_present k v w m)

  pub keys-put_present :
      (k : Text) (v w : V) (m : Map V) → lookup k m ≡ some w → keys (put k v m) ≡ keys m
  unfolding put lookup
  keys-put_present k v w [] h = absurd (some≢none (sym h))
  keys-put_present k v w ((i, u) ∷ m) h = ground (arith, text_eq_iff i k, keys-put_present k v w m)

  pub length-delete : (k : Text) (m : Map V) → length (delete k m) ≤ length m
  unfolding delete
  length-delete k [] = omega arith
  length-delete k ((i, w) ∷ m) = ground (arith, length-delete k m)

  -- A key that is there makes the map smaller.
  pub length-delete_present :
      (k : Text) (w : V) (m : Map V) → lookup k m ≡ some w → length (delete k m) < length m
  unfolding delete lookup
  length-delete_present k w [] h = absurd (some≢none (sym h))
  length-delete_present k w ((i, u) ∷ m) h =
      ground (arith, length-delete k m, length-delete_present k w m)

  pub put-All {κ} :
      (P : Text × V → Type κ) (k : Text) (v : V) (m : Map V)
      → P (k, v)
      → All P m
      → All P (put k v m)
  unfolding put
  put-All P k v [] p h = (p, tt)
  put-All P k v ((i, w) ∷ m) p (q, h) = elim (Bool-cases (text_eq i k)) [
    | inl same ↦ rw same (p, h)
    | inr other ↦ rw other (q, put-All P k v m p h)
  ]

  pub delete-All {κ} : (P : Text × V → Type κ) (k : Text) (m : Map V) → All P m → All P (delete k m)
  unfolding delete
  delete-All P k [] h = tt
  delete-All P k ((i, w) ∷ m) (q, h) = elim (Bool-cases (text_eq i k)) [
    | inl same ↦ rw same (delete-All P k m h)
    | inr other ↦ rw other (q, delete-All P k m h)
  ]

-- Two maps with the same keys keep them under the same operations.
module _ {ℓ κ} {V : Type ℓ} {W : Type κ} where
  pub keys-put :
      (k : Text) (v : V) (w : W) (m : Map V) (n : Map W)
      → keys m ≡ keys n
      → keys (put k v m) ≡ keys (put k w n)
  unfolding put
  keys-put k v w [] [] h = refl
  keys-put k v w [] ((i, x) ∷ n) h = cc
  keys-put k v w ((j, y) ∷ m) [] h = cc
  keys-put k v w ((j, y) ∷ m) ((i, x) ∷ n) h = ground (arith, keys-put k v w m n)

  pub keys-delete :
      (k : Text) (m : Map V) (n : Map W) → keys m ≡ keys n → keys (delete k m) ≡ keys (delete k n)
  unfolding delete
  keys-delete k [] [] h = refl
  keys-delete k [] ((i, x) ∷ n) h = cc
  keys-delete k ((j, y) ∷ m) [] h = cc
  keys-delete k ((j, y) ∷ m) ((i, x) ∷ n) h = ground (arith, keys-delete k m n)

  pub lookup-keys :
      (k : Text) (v : V) (m : Map V) (n : Map W)
      → keys m ≡ keys n
      → lookup k m ≡ some v
      → (w : W) × (lookup k n ≡ some w)
  unfolding lookup
  lookup-keys k v [] n h e = absurd (some≢none (sym e))
  lookup-keys k v ((j, y) ∷ m) [] h e = cc
  lookup-keys k v ((j, y) ∷ m) ((i, x) ∷ n) h e = elim (Bool-cases (text_eq i k)) [
    | inl same ↦ (x, rw same refl)
    | inr other ↦ ground (arith, lookup-keys k v m n)
  ]

  pub lookup-keys_absent :
      (k : Text) (m : Map V) (n : Map W) → keys m ≡ keys n → lookup k m ≡ none → lookup k n ≡ none
  unfolding lookup
  lookup-keys_absent k [] [] h e = refl
  lookup-keys_absent k [] ((i, x) ∷ n) h e = cc
  lookup-keys_absent k ((j, y) ∷ m) [] h e = cc
  lookup-keys_absent k ((j, y) ∷ m) ((i, x) ∷ n) h e = ground (arith, lookup-keys_absent k m n)
