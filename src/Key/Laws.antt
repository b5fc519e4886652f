-- ===== src/Key/Laws.antt =====
-- Comparing keys decides their equality, and a key survives a copy to bytes and back.
use kvs_cash_machine.ByteArray.{ByteArray}
use kvs_cash_machine.Common.{
  ℕ, suc, true, false, Bool-cases, inl, inr, ◌++◌, length, ◌≡◌, refl, sym, ◌∙◌, ap, ◌↔◌, arith,
}
use kvs_cash_machine.Key.{Bytes, end, byte, Key, memcmp_eq, load, store, eq}
use mathlib.Core.Bool.{false≢true}
use mathlib.Core.Path.{subst}

memcmp_eq_refl : {n : ℕ} (v : Bytes n) → memcmp_eq v v ≡ true
unfolding memcmp_eq
memcmp_eq_refl end = refl
memcmp_eq_refl (byte x v) = ground (arith, memcmp_eq_refl v)

memcmp_eq_sound : {n : ℕ} (v w : Bytes n) → memcmp_eq v w ≡ true → v ≡ w
unfolding memcmp_eq
memcmp_eq_sound end end h = refl
memcmp_eq_sound (byte x v) (byte y w) h =
    let p : x ≡ y = ground arith in
    let q : memcmp_eq v w ≡ true = ground arith in λ i. byte (p i) (memcmp_eq_sound v w q i)

pub eq_refl : (a : Key) → eq a a ≡ true
unfolding eq
eq_refl a = memcmp_eq_refl a.bytes

-- Two keys compare as equal exactly when they are the same key.
pub eq_iff : (a b : Key) → (eq a b ≡ true) ↔ (a ≡ b)
unfolding eq
eq_iff a b = (
  λ h. λ i. record { bytes = memcmp_eq_sound a.bytes b.bytes h i },
  λ e. subst (λ k. eq a k ≡ true) e (eq_refl a),
)

pub length-store : {n : ℕ} (v : Bytes n) → length (store v) ≡ n
unfolding store
length-store end = refl
length-store (byte x v) = ap suc (length-store v)

-- A key's bytes, with more behind them, load as the key.
pub load-store : {n : ℕ} (v : Bytes n) (rest : ByteArray) → load n (store v ++ rest) ≡ v
unfolding load store
load-store end rest = refl
load-store (byte x v) rest = ap (byte x) (load-store v rest)

-- A statement about every key holds if it holds of one and of all others.
pub by_key :
    (k : Key) (P : Key → Type 0) → P k → ((q : Key) → eq k q ≡ false → P q) → (q : Key) → P q
by_key k P own others q = elim (Bool-cases (eq k q)) [
  | inl same ↦ subst P ((eq_iff k q).0 same) own
  | inr other ↦ others q other
]

pub eq_comm : (a b : Key) → eq a b ≡ eq b a
eq_comm a b = elim (Bool-cases (eq a b)) [
  | inl same ↦ rw ((eq_iff a b).0 same) refl
  | inr other ↦ elim (Bool-cases (eq b a)) [
    | inl same ↦ absurd (false≢true (sym other ∙ (eq_iff a b).1 (sym ((eq_iff b a).0 same))))
    | inr other' ↦ other ∙ sym other'
  ]
]
