-- ===== src/Base/GoMap.antt =====
-- Go's maps with string keys. A map is a list of pairs with no key twice; the iteration order of
-- Go is unspecified, and the code never depends on it. Clients use the laws below.
use Prim.Native.String.{String}
use mathlib.Core.Path.{◌≡◌, refl, sym}
use mathlib.Core.Logic.{inl, inr}
use mathlib.Core.Bool.{Bool, true, false, ◌||◌}
use mathlib.Core.Option.{Option, none, some}
use mathlib.Core.List.{List, [], ◌∷◌}
use native.Mathlib.Omega.{arith}
use text.Mathlib.Text.{◌==◌}
use text.Mathlib.TextEquality.{eq_iff}
use text.Mathlib.TextPositions.{eq_refl}
use health_go.Base.Lists.{All}
use health_go.Base.Tests.{if◌then◌else◌, Bool-cases}

abbrev pub GoMap {ℓ} : Type ℓ → Type ℓ
GoMap V = List (String × V)

module _ {ℓ} {V : Type ℓ} where
  -- `v, ok := m[k]`
  unfoldable pub get : String → GoMap V → Option V
  get k [] = none
  get k ((j, v) ∷ m) = if j == k then some v else get k m

  -- `delete(m, k)`
  unfoldable pub delete : String → GoMap V → GoMap V
  delete k [] = []
  delete k ((j, v) ∷ m) = let rest = delete k m in if j == k then rest else (j, v) ∷ rest

  -- `m[k] = v`
  unfoldable pub put : String → V → GoMap V → GoMap V
  put k v m = (k, v) ∷ delete k m

  -- `for _, v := range m { if p(v) { return true } }; return false`
  unfoldable pub any_value : (V → Bool) → GoMap V → Bool
  any_value p [] = false
  any_value p ((j, v) ∷ m) = p v || any_value p m

  -- no key stands twice
  abbrev pub IsMap : GoMap V → Type ℓ
  IsMap [] = Unit
  IsMap ((k, v) ∷ m) = (get k m ≡ none) × IsMap m

  pub get-delete :
      (j k : String) (m : GoMap V) → get j (delete k m) ≡ (if k == j then none else get j m)
  unfolding get delete
  get-delete j k [] = ground arith
  get-delete j k ((i, v) ∷ m) = ground (arith, get-delete j k m, eq_iff i k, eq_iff i j, eq_iff k j)

  pub get-put :
      (j k : String) (v : V) (m : GoMap V)
      → get j (put k v m) ≡ (if k == j then some v else get j m)
  unfolding get put
  get-put j k v m = ground (arith, get-delete j k m)

  pub get-put_same : (k : String) (v : V) (m : GoMap V) → get k (put k v m) ≡ some v
  get-put_same k v m = rw (get-put, eq_refl) refl

  pub delete-IsMap : (k : String) (m : GoMap V) → IsMap m → IsMap (delete k m)
  unfolding delete
  delete-IsMap k [] h = tt
  delete-IsMap k ((j, v) ∷ m) h = elim (Bool-cases (j == k)) [
    | inl e ↦ rw e (delete-IsMap k m h.1)
    | inr e ↦ rw e (ground (arith, get-delete j k m), delete-IsMap k m h.1)
  ]

  pub put-IsMap : (k : String) (v : V) (m : GoMap V) → IsMap m → IsMap (put k v m)
  unfolding put
  put-IsMap k v m h = (rw (get-delete, eq_refl), delete-IsMap k m h)

  -- What the loop finds under a key, and that it finds it.
  pub any_value_of_get :
      (p : V → Bool) (k : String) (v : V) (m : GoMap V)
      → get k m ≡ some v
      → p v ≡ true
      → any_value p m ≡ true
  unfolding get any_value
  any_value_of_get p k v [] h q = cc
  any_value_of_get p k v ((j, w) ∷ m) h q = ground (arith, any_value_of_get p k v m)

  pub get_of_any_value :
      (p : V → Bool) (m : GoMap V)
      → IsMap m
      → any_value p m ≡ true
      → (k : String) × (v : V) × (get k m ≡ some v) × (p v ≡ true)
  unfolding get any_value
  get_of_any_value p [] h q = cc
  get_of_any_value p ((j, w) ∷ m) h q = elim (Bool-cases (p w)) [
    | inl e ↦ (j, w, rw eq_refl refl, e)
    | inr e ↦
        let (k, v, g, pv) = get_of_any_value p m h.1 (ground arith) in
        (k, v, ground (arith, eq_iff j k), pv)
  ]

  -- What holds of every entry, and what holds of each key and its value, are the same.
  pub All-of_get {κ} :
      (P : String → V → Type κ) (m : GoMap V)
      → IsMap m
      → ((k : String) (v : V) → get k m ≡ some v → P k v)
      → All (λ x. P x.0 x.1) m
  unfolding get
  All-of_get P [] h each = tt
  All-of_get P ((j, w) ∷ m) h each = (
    each j w (rw eq_refl refl),
    All-of_get P m h.1 (λ k v g. each k v (ground (arith, eq_iff j k))),
  )

  pub get_of_All {κ} :
      (P : String → V → Type κ) (m : GoMap V) (k : String) (v : V)
      → All (λ x. P x.0 x.1) m
      → get k m ≡ some v
      → P k v
  unfolding get
  get_of_All P [] k v all g = cc
  get_of_All P ((j, w) ∷ m) k v all g = elim (Bool-cases (j == k)) [
    | inl e ↦ let same : w ≡ v = ground arith in rw (sym ((eq_iff j k).0 e), sym same) all.0
    | inr e ↦ get_of_All P m k v all.1 (ground arith)
  ]

  -- What holds of the value that is put and of the values under other keys holds of all.
  pub put_ind {κ} :
      (P : String → V → Type κ) (k : String) (v : V) (m : GoMap V)
      → P k v
      → ((j : String) (w : V) → (k == j) ≡ false → get j m ≡ some w → P j w)
      → (j : String) (w : V) → get j (put k v m) ≡ some w
      → P j w
  put_ind P k v m own others j w g = elim (Bool-cases (k == j)) [
    | inl e ↦
        let same : v ≡ w = ground (arith, get-put j k v m) in
        rw (sym ((eq_iff k j).0 e), sym same) own
    | inr e ↦ others j w e (ground (arith, get-put j k v m))
  ]

  pub empty_of_get : (m : GoMap V) → ((k : String) → get k m ≡ none) → m ≡ []
  unfolding get
  empty_of_get [] absent = refl
  empty_of_get ((j, w) ∷ m) absent = ground (arith, absent j, eq_refl j)

pub get-empty {ℓ} : {V : Type ℓ} (k : String) → get {V = V} k [] ≡ none
unfolding get
get-empty k = refl

pub ruleset map_laws = (get-empty, get-delete, get-put)
