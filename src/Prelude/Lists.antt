-- ===== src/Prelude/Lists.antt =====
-- Lists over the native numbers, and predicates by recursion.
use Prim.Native.Nat.{ℕ, zero, suc, ◌+◌, ◌≤◌}
use mathlib.Core.Path.{◌≡◌, refl, sym, ap, ◌∙◌}
use mathlib.Core.Bool.{Bool, true, false}
use mathlib.Core.List.{List, [], ◌∷◌, ◌++◌, map, reverse, reverse-cons}
use native.Mathlib.Omega.{arith}
use poly_meridian.Prelude.Tests.{if◌then◌else◌, ltb, Bool-cases}
use mathlib.Core.Logic.{inl, inr}

module _ {ℓ} {A : Type ℓ} where
  abbrev pub length : List A → ℕ
  length [] = 0
  length (x ∷ xs) = suc (length xs)

  pub length-append : (xs ys : List A) → length (xs ++ ys) ≡ length xs + length ys
  length-append [] ys = omega arith
  length-append (x ∷ xs) ys = omega (arith, length-append xs ys)

  -- `[x for x in xs if p(x)]`
  abbrev pub filter : (A → Bool) → List A → List A
  filter p [] = []
  filter p (x ∷ xs) = let rest = filter p xs in if p x then x ∷ rest else rest

  -- `sum(1 for x in xs if p(x))`
  abbrev pub count : (A → Bool) → List A → ℕ
  count p [] = 0
  count p (x ∷ xs) = let rest = count p xs in if p x then suc rest else rest

module _ {A : Type 0} where
  -- `xs[:n]` and `xs[n:]`
  abbrev pub take : ℕ → List A → List A
  take zero xs = []
  take (suc n) [] = []
  take (suc n) (x ∷ xs) = x ∷ take n xs

  abbrev pub drop : ℕ → List A → List A
  drop zero xs = xs
  drop (suc n) [] = []
  drop (suc n) (x ∷ xs) = drop n xs

  -- `deque(xs, maxlen=n)`: the last `n` elements.
  abbrev pub last : ℕ → List A → List A
  last n [] = []
  last n (x ∷ xs) = let rest = last n xs in if ltb (length xs) n then x ∷ xs else rest

  -- Elements that have been dropped are not missed when others follow.
  pub last-append : (n : ℕ) (xs ys : List A) → last n (last n xs ++ ys) ≡ last n (xs ++ ys)
  last-append n [] ys = refl
  last-append n (x ∷ xs) ys = ground (arith, last-append n xs ys, length-append xs ys)

  pub last-last : (n k : ℕ) (xs : List A) → n ≤ k → last n (last k xs) ≡ last n xs
  last-last n k [] h = refl
  last-last n k (x ∷ xs) h = ground (arith, last-last n k xs)

abbrev pub All {ℓ κ} : {A : Type ℓ} → (A → Type κ) → List A → Type κ
All P [] = Unit
All P (x ∷ xs) = P x × All P xs

module _ {A : Type 0} where
  pub All-append : (P : A → Type 0) (xs ys : List A) → All P xs → All P ys → All P (xs ++ ys)
  All-append P [] ys h k = k
  All-append P (x ∷ xs) ys h k = (h.0, All-append P xs ys h.1 k)

  -- A count of zero says that no element passes the test.
  pub count-eq-zero : (p : A → Bool) (xs : List A) → count p xs ≡ 0 → All (λ x. p x ≡ false) xs
  count-eq-zero p [] h = tt
  count-eq-zero p (x ∷ xs) h = ground (arith, count-eq-zero p xs)

module _ {A : Type 0} where
  pub length-last : (n : ℕ) (xs : List A) → length (last n xs) ≤ n
  length-last n [] = omega arith
  length-last n (x ∷ xs) = ground (arith, length-last n xs)

  pub last-All : (P : A → Type 0) (n : ℕ) (xs : List A) → All P xs → All P (last n xs)
  last-All P n [] h = h
  last-All P n (x ∷ xs) h = elim (Bool-cases (ltb (length xs) n)) [
    | inl short ↦ rw short h
    | inr long ↦ rw long (last-All P n xs h.1)
  ]

module _ {A : Type 0} where
  pub take-all : (n : ℕ) (xs : List A) → length xs ≤ n → take n xs ≡ xs
  take-all zero [] h = refl
  take-all zero (x ∷ xs) h = absurd (omega arith)
  take-all (suc n) [] h = refl
  take-all (suc n) (x ∷ xs) h = ap (λ (ys : List A). x ∷ ys) (take-all n xs (omega arith))

  pub take-append : (n : ℕ) (xs ys : List A) → n ≤ length xs → take n (xs ++ ys) ≡ take n xs
  take-append zero xs ys h = refl
  take-append (suc n) [] ys h = absurd (omega arith)
  take-append (suc n) (x ∷ xs) ys h =
      ap (λ (zs : List A). x ∷ zs) (take-append n xs ys (omega arith))

  pub length-reverse : (xs : List A) → length (reverse xs) ≡ length xs
  length-reverse [] = refl
  length-reverse (x ∷ xs) =
      rw (reverse-cons x xs) (omega (arith, length-append (reverse xs) (x ∷ []), length-reverse xs))

  last-zero : (xs : List A) → last 0 xs ≡ []
  last-zero [] = refl
  last-zero (x ∷ xs) = ground (arith, last-zero xs)

  last-short : (n : ℕ) (x : A) (xs : List A) → ltb (length xs) n ≡ true → last n (x ∷ xs) ≡ x ∷ xs
  last-short n x xs h = ground arith

  last-long :
      (n : ℕ) (x : A) (xs : List A) → ltb (length xs) n ≡ false → last n (x ∷ xs) ≡ last n xs
  last-long n x xs h = ground arith

  -- The first elements of a reversed list are its last ones, reversed.
  pub take-reverse : (n : ℕ) (xs : List A) → take n (reverse xs) ≡ reverse (last n xs)
  take-reverse zero xs = sym (ap (λ (ys : List A). reverse ys) (last-zero xs))
  take-reverse (suc n) [] = refl
  take-reverse (suc n) (x ∷ xs) = elim (Bool-cases (ltb (length xs) (suc n))) [
    | inl short ↦
        take-all (suc n) (reverse (x ∷ xs)) (rw (length-reverse (x ∷ xs)) (ground (arith, short)))
        ∙ ap (λ (ys : List A). reverse ys) (sym (last-short (suc n) x xs short))
    | inr long ↦
        ap (take (suc n)) (reverse-cons x xs)
        ∙ take-append (suc n) (reverse xs) (x ∷ []) (rw (length-reverse xs) (ground (arith, long)))
        ∙ take-reverse (suc n) xs
        ∙ ap (λ (ys : List A). reverse ys) (sym (last-long (suc n) x xs long))
  ]

module _ {A B : Type 0} where
  pub length-map : (f : A → B) (xs : List A) → length (map f xs) ≡ length xs
  length-map f [] = refl
  length-map f (x ∷ xs) = omega (arith, length-map f xs)

  pub map-last : (f : A → B) (n : ℕ) (xs : List A) → map f (last n xs) ≡ last n (map f xs)
  map-last f n [] = refl
  map-last f n (x ∷ xs) = ground (arith, map-last f n xs, length-map f xs)

  pub map-append : (f : A → B) (xs ys : List A) → map f (xs ++ ys) ≡ map f xs ++ map f ys
  map-append f [] ys = refl
  map-append f (x ∷ xs) ys = ap (λ (zs : List B). f x ∷ zs) (map-append f xs ys)

  pub map-reverse : (f : A → B) (xs : List A) → map f (reverse xs) ≡ reverse (map f xs)
  map-reverse f [] = refl
  map-reverse f (x ∷ xs) =
      ap (map f) (reverse-cons x xs)
      ∙ map-append f (reverse xs) (x ∷ [])
      ∙ ap (λ (ys : List B). ys ++ f x ∷ []) (map-reverse f xs)
      ∙ sym (reverse-cons (f x) (map f xs))
