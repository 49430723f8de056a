-- ===== src/Prelude/Dict.antt =====
-- Python's `dict`: an association list in insertion order, with the keys compared by `==`.
use mathlib.Core.Path.{◌≡◌, refl, sym, subst}
use mathlib.Core.Logic.{inl, inr}
use poly_meridian.Prelude.Lists.{All}
use mathlib.Core.Option.{Option, none, some}
use mathlib.Core.List.{List, [], ◌∷◌, map}
use native.Mathlib.Omega.{arith}
use poly_meridian.Prelude.Tests.{Bool-cases, Eq, ◌==◌, if◌then◌else◌}

abbrev pub Dict : Type 0 → Type 0 → Type 0
Dict K V = List (K × V)

module _ {K V : Type 0} where
  abbrev pub values : Dict K V → List V
  values = map (λ (e : K × V). e.1)

  abbrev pub keys : Dict K V → List K
  keys = map (λ (e : K × V). e.0)

module _ {K V : Type 0} ⦃e : Eq K⦄ where
  -- `d.get(k)`
  abbrev pub get : K → Dict K V → Option V
  get k [] = none
  get k ((j, v) ∷ d) = if j == k then some v else get k d

  -- `d[k] = v`
  abbrev pub insert : K → V → Dict K V → Dict K V
  insert k v [] = (k, v) ∷ []
  insert k v ((j, w) ∷ d) = if j == k then (j, v) ∷ d else (j, w) ∷ insert k v d

  -- `d.pop(k, None)`
  abbrev pub remove : K → Dict K V → Dict K V
  remove k [] = []
  remove k ((j, w) ∷ d) = let rest = remove k d in if j == k then rest else (j, w) ∷ rest

  pub get-insert :
      (k j : K) (v : V) (d : Dict K V) → get j (insert k v d) ≡ (if k == j then some v else get j d)
  get-insert k j v [] = refl
  get-insert k j v ((i, w) ∷ d) =
      ground (arith, e.beq_iff k j, e.beq_iff i k, e.beq_iff i j, get-insert k j v d)

  pub get-remove :
      (k j : K) (d : Dict K V) → get j (remove k d) ≡ (if k == j then none else get j d)
  get-remove k j [] = ground arith
  get-remove k j ((i, w) ∷ d) =
      ground (arith, e.beq_iff k j, e.beq_iff i k, e.beq_iff i j, get-remove k j d)

  pub get-insert_self : (k : K) (v : V) (d : Dict K V) → get k (insert k v d) ≡ some v
  get-insert_self k v d = ground (arith, e.beq_iff k k, get-insert k k v d)

  pub get-remove_self : (k : K) (d : Dict K V) → get k (remove k d) ≡ none
  get-remove_self k d = ground (arith, e.beq_iff k k, get-remove k k d)

  -- The keys of a Python dict are distinct.
  abbrev pub HasDistinctKeys : Dict K V → Type 0
  HasDistinctKeys [] = Unit
  HasDistinctKeys ((k, v) ∷ d) = (get k d ≡ none) × HasDistinctKeys d

  pub insert-HasDistinctKeys :
      (k : K) (v : V) (d : Dict K V) → HasDistinctKeys d → HasDistinctKeys (insert k v d)
  insert-HasDistinctKeys k v [] h = ground arith
  insert-HasDistinctKeys k v ((j, w) ∷ d) h =
      ground
        (arith, insert-HasDistinctKeys k v d h.1, get-insert k j v d, e.beq_iff k j, e.beq_iff j k)

  pub remove-HasDistinctKeys :
      (k : K) (d : Dict K V) → HasDistinctKeys d → HasDistinctKeys (remove k d)
  remove-HasDistinctKeys k [] h = tt
  remove-HasDistinctKeys k ((j, w) ∷ d) h =
      ground (arith, remove-HasDistinctKeys k d h.1, get-remove k j d)

module _ {K V : Type 0} ⦃e : Eq K⦄ where
  -- What holds of the entries holds after an insertion whose entry has it too.
  pub insert-All :
      (P : K × V → Type 0) (k : K) (v : V) (d : Dict K V)
      → P (k, v)
      → All P d
      → All P (insert k v d)
  insert-All P k v [] h hs = (h, tt)
  insert-All P k v ((j, w) ∷ d) h (first, rest) = elim (Bool-cases (j == k)) [
    | inl same ↦ rw same (subst (λ (i : K). P (i, v)) (sym ((e.beq_iff j k).0 same)) h, rest)
    | inr other ↦ rw other (first, insert-All P k v d h rest)
  ]

  -- What holds of the entries holds of the one that is found.
  pub get-All :
      (P : K × V → Type 0) (k : K) (v : V) (d : Dict K V) → get k d ≡ some v → All P d → P (k, v)
  get-All P k v [] h hs = absurd (ground arith)
  get-All P k v ((j, w) ∷ d) h (first, rest) = elim (Bool-cases (j == k)) [
    | inl same ↦
        subst (λ (u : V). P (k, u)) (ground (arith, h, same))
          (subst (λ (i : K). P (i, w)) ((e.beq_iff j k).0 same) first)
    | inr other ↦ get-All P k v d (ground (arith, h, other)) rest
  ]
