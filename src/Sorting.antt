-- ===== src/Sorting.antt =====
-- The order of Go's strings, and `sort.Strings` and `slices.Sorted` over it.
use mathlib.Core.List.{Memᴰ}
use external_dns_openwrt_nex.Prelude.{◌⊎◌, ◌↔◌, ◌≡◌, arith, mem-cons}
use external_dns_openwrt_nex.Prelude.{
  Bool, true, false, ◌&&◌, ◌||◌, List, [], ◌∷◌, ltb, eqb, if◌then◌else◌,
}
use external_dns_openwrt_nex.Strings.{Str}

-- `<=` on texts. The order of UTF-8's bytes is the order of the code points.
unfoldable pub le_str : Str → Str → Bool
le_str [] t = true
le_str (c ∷ s) [] = false
le_str (c ∷ s) (d ∷ t) = ltb c d || eqb c d && le_str s t

module _ {A : Type 0} (le : A → A → Bool) where
  unfoldable pub insert_sorted : A → List A → List A
  insert_sorted x [] = x ∷ []
  insert_sorted x (y ∷ ys) = if le x y then x ∷ y ∷ ys else y ∷ insert_sorted x ys

  unfoldable pub sort : List A → List A
  unfolding insert_sorted
  sort [] = []
  sort (x ∷ xs) = insert_sorted x (sort xs)

-- `sorted` of internal/provider/status.go.
unfoldable pub sorted : List Str → List Str
unfolding sort le_str
sorted = sort le_str

module _ {A : Type 0} (le : A → A → Bool) where
  mem-insert_sorted :
      (a x : A) (xs : List A) → Memᴰ a (insert_sorted le x xs) ↔ ((a ≡ x) ⊎ Memᴰ a xs)
  unfolding insert_sorted
  mem-insert_sorted a x [] = mem-cons a x []
  mem-insert_sorted a x (y ∷ ys) = ground (
    arith,
    mem-insert_sorted a x ys,
    mem-cons a x (y ∷ ys),
    mem-cons a y ys,
    mem-cons a y (insert_sorted le x ys),
  )

  -- Sorting keeps the elements.
  pub mem-sort : (a : A) (xs : List A) → Memᴰ a (sort le xs) ↔ Memᴰ a xs
  unfolding sort
  mem-sort a [] = (λ m. m, λ m. m)
  mem-sort a (x ∷ xs) =
      ground (arith, mem-insert_sorted a x (sort le xs), mem-sort a xs, mem-cons a x xs)
