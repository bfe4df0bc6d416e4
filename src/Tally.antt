-- ===== src/Tally.antt =====
-- Maps from a text to an integer that count up and down, as `m[k]++` and `m[k]--` do.
use external_dns_openwrt_nex.Prelude.{
  ℕ, zero, suc, ◌+◌, List, [], ◌∷◌, none, some, ◌≡◌, sym, ap, ◌∙◌, subst, arith, inl, inr, eqb,
  if◌then◌else◌, length, keep, Bool-cases, ◌*◌,
}
use external_dns_openwrt_nex.Strings.{Str, ◌==◌}
use external_dns_openwrt_nex.Strings.Laws.{eq_iff}
use external_dns_openwrt_nex.Ubus.Errors.{ℤ, pos, negsuc, eqb_ℤ}
use external_dns_openwrt_nex.GoMap.{GoMap, lookup, insert, str_key, lookup-insert}

abbrev pub succ_ℤ : ℤ → ℤ
succ_ℤ (pos n) = pos (suc n)
succ_ℤ (negsuc zero) = pos 0
succ_ℤ (negsuc (suc n)) = negsuc n

abbrev pub pred_ℤ : ℤ → ℤ
pred_ℤ (pos zero) = negsuc 0
pred_ℤ (pos (suc n)) = pos n
pred_ℤ (negsuc n) = negsuc (suc n)

abbrev pub Balance : Type 0
Balance = GoMap Str ℤ

-- `balance[k]`, zero for a missing key.
unfoldable pub balance_at : Str → Balance → ℤ
balance_at k b = elim (lookup k b) [ none ↦ pos 0 | some n ↦ n ]

-- `m[k] = g(m[k])` for each key.
unfoldable pub count_keys : (ℤ → ℤ) → List Str → Balance → Balance
count_keys g [] b = b
count_keys g (k ∷ ks) b = count_keys g ks (insert k (g (balance_at k b)) b)

-- How often a list has the key.
abbrev pub count : Str → List Str → ℕ
count k ks = length (keep (λ j. j == k) ks)

-- `z` is `a - b`.
abbrev pub IsDiff : ℤ → ℕ → ℕ → Type 0
IsDiff (pos n) a b = n + b ≡ a
IsDiff (negsuc n) a b = suc n + a ≡ b

succ-IsDiff : (z : ℤ) (a b : ℕ) → IsDiff z a b → IsDiff (succ_ℤ z) (suc a) b
succ-IsDiff (pos n) a b h = omega arith
succ-IsDiff (negsuc zero) a b h = omega arith
succ-IsDiff (negsuc (suc n)) a b h = omega arith

pred-IsDiff : (z : ℤ) (a b : ℕ) → IsDiff z a b → IsDiff (pred_ℤ z) a (suc b)
pred-IsDiff (pos zero) a b h = omega arith
pred-IsDiff (pos (suc n)) a b h = omega arith
pred-IsDiff (negsuc n) a b h = omega arith

pub zero-IsDiff : (z : ℤ) (a b : ℕ) → IsDiff z a b → eqb_ℤ z (pos 0) ≡ eqb a b
zero-IsDiff (pos n) a b h = ground arith
zero-IsDiff (negsuc n) a b h = ground arith

balance_at-insert :
    (k j : Str) (z : ℤ) (b : Balance)
    → balance_at j (insert k z b) ≡ (if k == j then z else balance_at j b)
unfolding balance_at
balance_at-insert k j z b = ground (arith, lookup-insert k j z b)

-- The same integer, as the difference of other numbers.
IsDiff-eq : (z : ℤ) (a b a' b' : ℕ) → a ≡ a' → b ≡ b' → IsDiff z a b → IsDiff z a' b'
IsDiff-eq (pos n) a b a' b' p q h = omega arith
IsDiff-eq (negsuc n) a b a' b' p q h = omega arith

mul_step : (d x n : ℕ) → (d + x) + d * n ≡ x + d * suc n
mul_step d x n = grind arith

count-cons :
    (k j : Str) (ks : List Str)
    → count k (j ∷ ks) ≡ (if j == k then suc (count k ks) else count k ks)
count-cons k j ks = ground arith

-- Counting a list with a step that moves the difference moves it by the count.
count_keys-IsDiff :
    (k : Str) (g : ℤ → ℤ) (dx dy : ℕ)
    → ((z : ℤ) (x y : ℕ) → IsDiff z x y → IsDiff (g z) (dx + x) (dy + y))
    → (ks : List Str) (b : Balance) (x y : ℕ) → IsDiff (balance_at k b) x y
    → IsDiff (balance_at k (count_keys g ks b)) (x + dx * count k ks) (y + dy * count k ks)
unfolding count_keys
count_keys-IsDiff k g dx dy moves [] b x y h =
    IsDiff-eq (balance_at k b) x y (x + dx * 0) (y + dy * 0) (omega arith) (omega arith) h
count_keys-IsDiff k g dx dy moves (j ∷ ks) b x y h =
    let b' = insert j (g (balance_at j b)) b in
    let stored = balance_at-insert j k (g (balance_at j b)) b in
    let after = balance_at k (count_keys g ks b') in
    let n = count k ks in
    elim (Bool-cases (j == k)) [
      | inl same ↦
          let at_k : balance_at j b ≡ balance_at k b =
            ap (λ i. balance_at i b) ((eq_iff j k).0 same) in
          let now : balance_at k b' ≡ g (balance_at k b) = rw same at stored ∙ ap g at_k in
          let here : count k (j ∷ ks) ≡ suc n = rw same at (count-cons k j ks) in
          rw here (
            IsDiff-eq after ((dx + x) + dx * n) ((dy + y) + dy * n) (x + dx * suc n)
              (y + dy * suc n) (mul_step dx x n) (mul_step dy y n)
              (count_keys-IsDiff k g dx dy moves ks b' (dx + x) (dy + y)
                (subst (λ z. IsDiff z (dx + x) (dy + y)) (sym now) (moves (balance_at k b) x y h))))
      | inr other ↦
          let now : balance_at k b' ≡ balance_at k b = rw other at stored in
          let here : count k (j ∷ ks) ≡ n = rw other at (count-cons k j ks) in
          rw here
            (count_keys-IsDiff k g dx dy moves ks b' x y (subst (λ z. IsDiff z x y) (sym now) h))
    ]

-- Counting one list up and another down leaves, for each key, the difference of its counts.
pub balance-IsDiff :
    (k : Str) (up down : List Str)
    → IsDiff
        (balance_at k (count_keys pred_ℤ down (count_keys succ_ℤ up [])))
        (count k up)
        (count k down)
balance-IsDiff k up down =
    let start : IsDiff (balance_at k []) 0 0 = unfold balance_at lookup in omega arith in
    let raised =
      count_keys-IsDiff k succ_ℤ 1 0
        (λ z x y h.
          IsDiff-eq (succ_ℤ z) (suc x) y (1 + x) (0 + y) (omega arith) (omega arith)
            (succ-IsDiff z x y h))
        up [] 0 0 start in
    let lowered =
      count_keys-IsDiff k pred_ℤ 0 1
        (λ z x y h.
          IsDiff-eq (pred_ℤ z) x (suc y) (0 + x) (1 + y) (omega arith) (omega arith)
            (pred-IsDiff z x y h))
        down (count_keys succ_ℤ up []) (0 + 1 * count k up) (0 + 0 * count k up) raised in
    IsDiff-eq (balance_at k (count_keys pred_ℤ down (count_keys succ_ℤ up []))) _ _ (count k up)
      (count k down) (omega arith) (omega arith) lowered
