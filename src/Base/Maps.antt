-- ===== src/Base/Maps.antt =====
-- `BTreeMap`: an association list in key order, under the laws of lookup.
use Prim.Native.Nat.{ℕ}
use mathlib.Core.Path.{◌≡◌, refl}
use mathlib.Core.Logic.{◌↔◌}
use mathlib.Core.Bool.{Bool, true, false}
use mathlib.Core.Option.{Option, none, some}
use mathlib.Core.List.{List, [], ◌∷◌, map}
use native.Mathlib.Omega.{arith}
use uperf_linux_rev.Base.Lists.{All}
use mathlib.Core.Logic.{inl, inr}
use mathlib.Core.Path.{subst}
use uperf_linux_rev.Base.Tests.{Bool-cases, ltb, ◌==◌, ==_iff, if◌then◌else◌, is_some}

-- The derived `Ord` of a key type.
pub record Key {ℓ} (K : Type ℓ) : Type ℓ where
  pub same : K → K → Bool
  pub before : K → K → Bool
  pub same_iff : (a b : K) → (same a b ≡ true) ↔ (a ≡ b)

module _ {ℓ κ} {K : Type ℓ} {V : Type κ} ⦃key : Key K⦄ where
  unfoldable pub get : K → List (K × V) → Option V
  get k [] = none
  get k ((j, v) ∷ m) = if key.same j k then some v else get k m

  -- `insert`: a present key keeps its place and takes the new value.
  unfoldable pub insert : K → V → List (K × V) → List (K × V)
  insert k v [] = (k, v) ∷ []
  insert k v ((j, w) ∷ m) =
      let rest = insert k v m in
      if key.same j k
      then (k, v) ∷ m
      else if key.before k j
      then (k, v) ∷ (j, w) ∷ m
      else (j, w) ∷ rest

  unfoldable pub remove : K → List (K × V) → List (K × V)
  remove k [] = []
  remove k ((j, w) ∷ m) = let rest = remove k m in if key.same j k then rest else (j, w) ∷ rest

  -- `contains_key`.
  unfoldable pub contains_key : K → List (K × V) → Bool
  unfolding get
  contains_key k m = is_some (get k m)

  pub get-insert :
      (k j : K) (v : V) (m : List (K × V))
      → get j (insert k v m) ≡ (if key.same k j then some v else get j m)
  unfolding get insert
  get-insert k j v [] = refl
  get-insert k j v ((i, w) ∷ m) =
      ground (arith, key.same_iff k j, key.same_iff i k, key.same_iff i j, get-insert k j v m)

  pub get-insert_here : (k : K) (v : V) (m : List (K × V)) → get k (insert k v m) ≡ some v
  get-insert_here k v m = rw (get-insert k k v m, (key.same_iff k k).1 refl) refl

  pub get-insert_there :
      (k j : K) (v : V) (m : List (K × V)) → key.same k j ≡ false → get j (insert k v m) ≡ get j m
  get-insert_there k j v m h = rw (get-insert k j v m, h) refl

  pub get-remove :
      (k j : K) (m : List (K × V)) → get j (remove k m) ≡ (if key.same k j then none else get j m)
  unfolding get remove
  get-remove k j [] = ground arith
  get-remove k j ((i, w) ∷ m) =
      ground (arith, key.same_iff k j, key.same_iff i k, key.same_iff i j, get-remove k j m)

  pub All-insert {μ} :
      (P : K × V → Type μ) (k : K) (v : V) (m : List (K × V))
      → P (k, v)
      → All P m
      → All P (insert k v m)
  unfolding insert
  All-insert P k v [] p a = (p, tt)
  All-insert P k v ((j, w) ∷ m) p a = ground (arith, All-insert P k v m p a.1)

  pub All-remove {μ} :
      (P : K × V → Type μ) (k : K) (m : List (K × V)) → All P m → All P (remove k m)
  unfolding remove
  All-remove P k [] a = tt
  All-remove P k ((j, w) ∷ m) a = ground (arith, All-remove P k m a.1)

  pub All-get {μ} :
      (P : K × V → Type μ) (k : K) (v : V) (m : List (K × V))
      → All P m
      → get k m ≡ some v
      → P (k, v)
  unfolding get
  All-get P k v [] a e = cc
  All-get P k v ((j, w) ∷ m) a e = elim (Bool-cases (key.same j k)) [
    | inl h ↦
        let here : w ≡ v = ground (arith, h) in
        subst P (λ i. ((key.same_iff j k).0 h i, here i)) a.0
    | inr h ↦ All-get P k v m a.1 (ground (arith, h))
  ]

module _ {ℓ κ} {K : Type ℓ} {V : Type κ} where
  -- `keys` and `values`, in key order.
  abbrev pub values : List (K × V) → List V
  values = map λ e. e.1

  abbrev pub keys : List (K × V) → List K
  keys = map λ e. e.0

instance abbrev pub nat_key : Key ℕ
nat_key = record { same = λ a b. a == b; before = ltb; same_iff = ==_iff }
