-- ===== src/Common/Parts.antt =====
-- Parts of a list: what `take n (drop o xs)` reads, after a write and behind an append.
use Prim.Native.Nat.{ℕ, zero, suc, ◌+◌, ◌-◌, ◌≤◌}
use mathlib.Core.Path.{◌≡◌, refl, ap, ◌∙◌}
use mathlib.Core.List.{List, [], ◌∷◌, ◌++◌}
use native.Mathlib.Omega.{arith}
use kvs_cash_machine.Common.Lists.{length, take, drop}

module _ {ℓ} {A : Type ℓ} where
  -- The elements from `o` on, `n` of them.
  abbrev pub part : ℕ → ℕ → List A → List A
  part o n xs = take n (drop o xs)

  pub take-nil : (n : ℕ) → take {A = A} n [] ≡ []
  take-nil zero = refl
  take-nil (suc n) = refl

  pub drop-nil : (n : ℕ) → drop {A = A} n [] ≡ []
  drop-nil zero = refl
  drop-nil (suc n) = refl

  pub take-append_le : (n : ℕ) (xs ys : List A) → n ≤ length xs → take n (xs ++ ys) ≡ take n xs
  take-append_le zero xs ys h = refl
  take-append_le (suc n) [] ys h = absurd (omega arith)
  take-append_le (suc n) (x ∷ xs) ys h = ap (◌∷◌ x) (take-append_le n xs ys (omega arith))

  pub part-append_le :
      (o n : ℕ) (xs ys : List A) → o + n ≤ length xs → part o n (xs ++ ys) ≡ part o n xs
  part-append_le zero n xs ys h = take-append_le n xs ys (omega arith)
  part-append_le (suc o) n [] ys h = absurd (omega arith)
  part-append_le (suc o) n (x ∷ xs) ys h = part-append_le o n xs ys (omega arith)

  take-take : (n k : ℕ) (xs : List A) → n ≤ k → take n (take k xs) ≡ take n xs
  take-take zero k xs h = refl
  take-take (suc n) zero xs h = absurd (omega arith)
  take-take (suc n) (suc k) [] h = refl
  take-take (suc n) (suc k) (x ∷ xs) h = ap (◌∷◌ x) (take-take n k xs (omega arith))

  pub part-take : (o n k : ℕ) (xs : List A) → o + n ≤ k → part o n (take k xs) ≡ part o n xs
  part-take zero n k xs h = take-take n k xs (omega arith)
  part-take (suc o) n zero xs h = absurd (omega arith)
  part-take (suc o) n (suc k) [] h = refl
  part-take (suc o) n (suc k) (x ∷ xs) h = part-take o n k xs (omega arith)

  pub drop-append_ge :
      (o : ℕ) (xs ys : List A) → length xs ≤ o → drop o (xs ++ ys) ≡ drop (o - length xs) ys
  drop-append_ge o [] ys h = ap (λ k. drop k ys) (omega arith)
  drop-append_ge zero (x ∷ xs) ys h = absurd (omega arith)
  drop-append_ge (suc o) (x ∷ xs) ys h =
      drop-append_ge o xs ys (omega arith) ∙ ap (λ k. drop k ys) (omega arith)

  pub drop-drop : (a b : ℕ) (xs : List A) → drop a (drop b xs) ≡ drop (b + a) xs
  drop-drop a zero xs = ap (λ k. drop k xs) (omega arith)
  drop-drop a (suc b) [] = drop-nil a ∙ sym' a b
    where
      sym' : (a b : ℕ) → [] ≡ drop {A = A} (suc b + a) []
      sym' a b = rw drop-nil
  drop-drop a (suc b) (x ∷ xs) = drop-drop a b xs ∙ ap (λ k. drop k (x ∷ xs)) suc_add
    where
      suc_add : suc (b + a) ≡ suc b + a
      suc_add = omega arith

  pub take_self : (xs : List A) → take (length xs) xs ≡ xs
  take_self [] = refl
  take_self (x ∷ xs) = ap (◌∷◌ x) (take_self xs)
