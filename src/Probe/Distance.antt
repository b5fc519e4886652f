-- ===== src/Probe/Distance.antt =====
-- How far a slot lies behind another, going round the table.
use Prim.Native.Nat.{ℕ, suc, ◌+◌, ◌-◌, ◌%◌, ◌<◌}
use kvs_cash_machine.Common.{◌≡◌, ◌≢◌, leb, ◌==◌, if◌then◌else◌, arith, ◌⊎◌, inl, inr}
use native.Mathlib.Decide.{ℕ_discrete}

-- The steps from slot `h` on to slot `j` of `n`.
unfoldable pub distance : ℕ → ℕ → ℕ → ℕ
distance n h j = if leb h j then j - h else j + n - h

-- The slot behind `i` of `n`.
unfoldable pub next : ℕ → ℕ → ℕ
next n i = if suc i == n then 0 else suc i

pub next-mod : (n i : ℕ) → i < n → (i + 1) % n ≡ next n i
unfolding next
next-mod n i h = grind arith

pub next-lt : (n i : ℕ) → i < n → next n i < n
unfolding next
next-lt n i h = ground arith

module _ (n h : ℕ) (in_range : h < n) where
  pub distance-lt : (j : ℕ) → j < n → distance n h j < n
  unfolding distance
  distance-lt j k = ground arith

  pub distance_self : distance n h h ≡ 0
  unfolding distance
  distance_self = ground arith

  pub distance-injective : (i j : ℕ) → i < n → j < n → distance n h i ≡ distance n h j → i ≡ j
  unfolding distance
  distance-injective i j p q e = ground arith

  pub distance-pos : (j : ℕ) → j < n → j ≢ h → 0 < distance n h j
  unfolding distance
  distance-pos j p q = ground arith

  pub distance-next : (i : ℕ) → i < n → next n i ≢ h → distance n h (next n i) ≡ distance n h i + 1
  unfolding distance next
  distance-next i p q = ground arith

  pub distance-last : (i : ℕ) → i < n → next n i ≡ h → distance n h i + 1 ≡ n
  unfolding distance next
  distance-last i p q = ground arith

  -- One step on passes over one slot more.
  pub distance-cover :
      (i j : ℕ)
      → i < n
      → j < n
      → (next n i ≡ h) ⊎ (distance n h j < distance n h (next n i))
      → (j ≡ i) ⊎ (distance n h j < distance n h i)
  distance-cover i j p q c = elim (ℕ_discrete j i) [
    | yes e ↦ inl e
    | no ne ↦ inr (elim (ℕ_discrete (next n i) h) [
      | yes e ↦ grind (arith, distance-last i p e, distance-lt j q, distance-injective j i q p)
      | no k ↦ grind (arith, distance-next i p k, distance-lt j q, distance-injective j i q p)
    ])
  ]
