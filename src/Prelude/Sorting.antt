-- ===== src/Prelude/Sorting.antt =====
-- The standard library's stable sort, by a Boolean "comes no later than", and the order of texts.
use Prim.Native.Nat.{suc}
use Prim.Native.String.{String}
use mathlib.Core.Path.{◌≡◌, refl}
use mathlib.Core.Bool.{Bool, true, false}
use mathlib.Core.List.{List, [], ◌∷◌, Perm}
use mathlib.Core.List.Perm
use mathlib.Core.Logic.{inl, inr}
use native.Mathlib.Omega.{arith}
use agent_runner_codex.Prelude.Tests.{ltb, eqb, if◌then◌else◌, Bool-cases}
use agent_runner_codex.Prelude.Lists.{Bytes, All, length}
use agent_runner_codex.Prelude.Text.{bytes}

-- the order of byte strings
unfoldable pub bytes_leb : Bytes → Bytes → Bool
bytes_leb [] ys = true
bytes_leb (x ∷ xs) [] = false
bytes_leb (x ∷ xs) (y ∷ ys) =
    let rest = bytes_leb xs ys in if ltb x y then true else if eqb x y then rest else false

abbrev pub text_leb : String → String → Bool
text_leb s t = bytes_leb (bytes s) (bytes t)

pub bytes_leb_total : (xs ys : Bytes) → bytes_leb xs ys ≡ false → bytes_leb ys xs ≡ true
unfolding bytes_leb
bytes_leb_total [] ys h = absurd (ground arith)
bytes_leb_total (x ∷ xs) [] h = refl
bytes_leb_total (x ∷ xs) (y ∷ ys) h = ground (arith, bytes_leb_total xs ys)

pub bytes_leb_trans :
    (xs ys zs : Bytes) → bytes_leb xs ys ≡ true → bytes_leb ys zs ≡ true → bytes_leb xs zs ≡ true
unfolding bytes_leb
bytes_leb_trans [] ys zs h k = refl
bytes_leb_trans (x ∷ xs) [] zs h k = absurd (ground arith)
bytes_leb_trans (x ∷ xs) (y ∷ ys) [] h k = absurd (ground arith)
bytes_leb_trans (x ∷ xs) (y ∷ ys) (z ∷ zs) h k = ground (arith, bytes_leb_trans xs ys zs)

module _ {ℓ} {A : Type ℓ} (le : A → A → Bool) where
  unfoldable pub insert_by : A → List A → List A
  insert_by x [] = x ∷ []
  insert_by x (y ∷ ys) = let later = insert_by x ys in if le x y then x ∷ y ∷ ys else y ∷ later

  -- `sort_by`
  unfoldable pub sort_by : List A → List A
  unfolding insert_by
  sort_by [] = []
  sort_by (x ∷ xs) = insert_by x (sort_by xs)

  -- Each comes no later than those after it.
  abbrev pub IsSorted : List A → Type 0
  IsSorted [] = Unit
  IsSorted (x ∷ xs) = All (λ y. le x y ≡ true) xs × IsSorted xs

  insert_by-perm : (x : A) (xs : List A) → Perm (insert_by x xs) (x ∷ xs)
  unfolding insert_by
  insert_by-perm x [] = Perm.rfl
  insert_by-perm x (y ∷ ys) = elim (Bool-cases (le x y)) [
    | inl first ↦ rw first Perm.rfl
    | inr later ↦ rw later (Perm.trans (Perm.cons y (insert_by-perm x ys)) (Perm.swap x y ys))
  ]

  pub sort_by-perm : (xs : List A) → Perm (sort_by xs) xs
  unfolding sort_by
  sort_by-perm [] = Perm.rfl
  sort_by-perm (x ∷ xs) = Perm.trans (insert_by-perm x (sort_by xs)) (Perm.cons x (sort_by-perm xs))

  module _ {κ} (P : A → Type κ) where
    insert_by-All : (x : A) (xs : List A) → P x → All P xs → All P (insert_by x xs)
    unfolding insert_by
    insert_by-All x [] p all = (p, tt)
    insert_by-All x (y ∷ ys) p (q, all) = elim (Bool-cases (le x y)) [
      | inl first ↦ rw first (p, (q, all))
      | inr later ↦ rw later (q, insert_by-All x ys p all)
    ]

    pub sort_by-All : (xs : List A) → All P xs → All P (sort_by xs)
    unfolding sort_by
    sort_by-All [] all = tt
    sort_by-All (x ∷ xs) (p, all) = insert_by-All x (sort_by xs) p (sort_by-All xs all)

  -- A symmetric relation between every two elements.
  module _ {κ} (R : A → A → Type κ) where
    abbrev pub AllPairs : List A → Type κ
    AllPairs [] = Unit
    AllPairs (x ∷ xs) = All (R x) xs × AllPairs xs

    module _ (symmetric : (x y : A) → R x y → R y x) where
      insert_by-AllPairs :
          (x : A) (xs : List A) → All (R x) xs → AllPairs xs → AllPairs (insert_by x xs)
      unfolding insert_by
      insert_by-AllPairs x [] new pairs = (tt, tt)
      insert_by-AllPairs x (y ∷ ys) (r, new) (old, pairs) = elim (Bool-cases (le x y)) [
        | inl first ↦ rw first ((r, new), (old, pairs))
        | inr later ↦
            rw later
              (insert_by-All (R y) x ys (symmetric x y r) old, insert_by-AllPairs x ys new pairs)
      ]

      pub sort_by-AllPairs : (xs : List A) → AllPairs xs → AllPairs (sort_by xs)
      unfolding sort_by
      sort_by-AllPairs [] pairs = tt
      sort_by-AllPairs (x ∷ xs) (new, pairs) =
          insert_by-AllPairs x (sort_by xs) (sort_by-All (R x) xs new) (sort_by-AllPairs xs pairs)

  length-insert_by : (x : A) (xs : List A) → length (insert_by x xs) ≡ suc (length xs)
  unfolding insert_by
  length-insert_by x [] = refl
  length-insert_by x (y ∷ ys) = ground (arith, length-insert_by x ys)

  pub length-sort_by : (xs : List A) → length (sort_by xs) ≡ length xs
  unfolding sort_by
  length-sort_by [] = refl
  length-sort_by (x ∷ xs) = ground (arith, length-insert_by x (sort_by xs), length-sort_by xs)

  -- Of two at least one comes no later than the other, and the order is transitive.
  pub record IsOrder : Type ℓ where
    pub total : (x y : A) → le x y ≡ false → le y x ≡ true
    pub trans : (x y z : A) → le x y ≡ true → le y z ≡ true → le x z ≡ true

  module _ (order : IsOrder) where
    All-before :
        (x y : A) (zs : List A)
        → le x y ≡ true
        → All (λ z. le y z ≡ true) zs
        → All (λ z. le x z ≡ true) zs
    All-before x y [] h all = tt
    All-before x y (z ∷ zs) h (k, all) = (order.trans x y z h k, All-before x y zs h all)

    insert_by-IsSorted : (x : A) (xs : List A) → IsSorted xs → IsSorted (insert_by x xs)
    unfolding insert_by
    insert_by-IsSorted x [] sorted = (tt, tt)
    insert_by-IsSorted x (y ∷ ys) (before, sorted) = elim (Bool-cases (le x y)) [
      | inl first ↦ rw first ((first, All-before x y ys first before), (before, sorted))
      | inr later ↦ rw later (
        insert_by-All (λ z. le y z ≡ true) x ys (order.total x y later) before,
        insert_by-IsSorted x ys sorted,
      )
    ]

    pub sort_by-IsSorted : (xs : List A) → IsSorted (sort_by xs)
    unfolding sort_by
    sort_by-IsSorted [] = tt
    sort_by-IsSorted (x ∷ xs) = insert_by-IsSorted x (sort_by xs) (sort_by-IsSorted xs)
