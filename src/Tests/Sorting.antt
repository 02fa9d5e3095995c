-- ===== src/Tests/Sorting.antt =====
-- An insertion sort, the instance of `sort.Slice` that the tests run.
use mathlib.Core.List.{Permᴰ}
use complytime.Base.{
  ℕ, ◌≤◌, String, Bool-cases, inl, inr, List, [], ◌∷◌, All, leb, leb→le, refl, if◌then◌else◌, arith,
}
use complytime.Base.Members.{All-mono}
use complytime.Cache.Eviction.{IsAscending, Sorter}

module _ (key : String → ℕ) where
  unfoldable pub insert_ascending : String → List String → List String
  insert_ascending x [] = x ∷ []
  insert_ascending x (y ∷ ys) =
      let rest = insert_ascending x ys in if leb (key x) (key y) then x ∷ y ∷ ys else y ∷ rest

  unfoldable pub insertion_sort : List String → List String
  unfolding insert_ascending
  insertion_sort [] = []
  insertion_sort (x ∷ xs) = insert_ascending x (insertion_sort xs)

  Permᴰ-self : (xs : List String) → Permᴰ xs xs
  Permᴰ-self [] = Permᴰ.nil
  Permᴰ-self (x ∷ xs) = Permᴰ.cons refl (Permᴰ-self xs)

  insert_ascending-Permᴰ : (x : String) (xs : List String) → Permᴰ (insert_ascending x xs) (x ∷ xs)
  unfolding insert_ascending
  insert_ascending-Permᴰ x [] = Permᴰ-self (x ∷ [])
  insert_ascending-Permᴰ x (y ∷ ys) = elim (Bool-cases (leb (key x) (key y))) [
    | inl least ↦ rw least (Permᴰ-self (x ∷ y ∷ ys))
    | inr greater ↦
        rw greater
          (Permᴰ.trans (Permᴰ.cons refl (insert_ascending-Permᴰ x ys)) (Permᴰ.swap refl refl))
  ]

  pub insertion_sort-Permᴰ : (xs : List String) → Permᴰ (insertion_sort xs) xs
  unfolding insertion_sort
  insertion_sort-Permᴰ [] = Permᴰ.nil
  insertion_sort-Permᴰ (x ∷ xs) =
      Permᴰ.trans (insert_ascending-Permᴰ x (insertion_sort xs))
        (Permᴰ.cons refl (insertion_sort-Permᴰ xs))

  All-insert_ascending :
      (n : ℕ) (x : String) (xs : List String)
      → n ≤ key x
      → All (λ y. n ≤ key y) xs
      → All (λ y. n ≤ key y) (insert_ascending x xs)
  unfolding insert_ascending
  All-insert_ascending n x [] least all = (least, tt)
  All-insert_ascending n x (y ∷ ys) least all = elim (Bool-cases (leb (key x) (key y))) [
    | inl e ↦ rw e (least, all)
    | inr e ↦ rw e (all.0, All-insert_ascending n x ys least all.1)
  ]

  insert_ascending-IsAscending :
      (x : String) (xs : List String) → IsAscending key xs → IsAscending key (insert_ascending x xs)
  unfolding insert_ascending
  insert_ascending-IsAscending x [] h = (tt, tt)
  insert_ascending-IsAscending x (y ∷ ys) h = elim (Bool-cases (leb (key x) (key y))) [
    | inl e ↦ rw e (
      (
        leb→le (key x) (key y) e,
        All-mono (λ z (p : key y ≤ key z). omega (arith, leb→le (key x) (key y) e)) ys h.0,
      ),
      h,
    )
    | inr e ↦ rw e (
      All-insert_ascending (key y) x ys (ground arith) h.0,
      insert_ascending-IsAscending x ys h.1,
    )
  ]

  pub insertion_sort-IsAscending : (xs : List String) → IsAscending key (insertion_sort xs)
  unfolding insertion_sort
  insertion_sort-IsAscending [] = tt
  insertion_sort-IsAscending (x ∷ xs) =
      insert_ascending-IsAscending x (insertion_sort xs) (insertion_sort-IsAscending xs)

abbrev pub sorter : Sorter
sorter = record {
  sort = insertion_sort;
  permutes = λ key xs. ∣ insertion_sort-Permᴰ key xs ∣₁;
  ascends = insertion_sort-IsAscending;
}
