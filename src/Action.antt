-- ===== src/Action.antt =====
-- Computations over a mutable state that may stop early. The state that they leave is there on
-- every way out, as the files and objects are that an exception leaves behind.
use kvs_cash_machine.Outcome.{Result, ok, err}

abbrev pub Action : Type 0 → Type 0 → Type 0
Action S A = S → Result A × S

abbrev pub continue : {S A B : Type 0} → Result A × S → (A → S → Result B × S) → Result B × S
continue (ok a, s) f = f a s
continue (err e, s) f = (err e, s)

infixl 5 ◌>>=◌ ◌>>◌
abbrev pub ◌>>=◌ : {S A B : Type 0} → (S → Result A × S) → (A → S → Result B × S) → S → Result B × S
◌>>=◌ m f s = continue (m s) f

abbrev pub ◌>>◌ :
    {S B : Type 0} → (S → Result (Unit {0}) × S) → (S → Result B × S) → S → Result B × S
m >> k = m >>= λ _. k

-- A computation with no state, and a value.
abbrev pub lift : {S A : Type 0} → Result A → S → Result A × S
lift r s = (r, s)

abbrev pub pure : {S A : Type 0} → A → S → Result A × S
pure a s = (ok a, s)
