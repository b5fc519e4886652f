-- ===== src/Kvs/Session.antt =====
-- Sequences of calls of the public methods of `class KVS` of include/KVS.h, and the map that they
-- compute.
use kvs_cash_machine.Action.{Action, ◌>>=◌, ◌>>◌, pure}
use kvs_cash_machine.ByteArray.{ByteArray}
use kvs_cash_machine.Common.{
  Bool, true, false, ℕ, ◌+◌, ◌-◌, ◌<◌, ◌≡◌, ◌⊎◌, true, List, [], ◌∷◌, Option, none, some, is_some,
  if◌then◌else◌, length,
}
use kvs_cash_machine.Constants.{value_size}
use kvs_cash_machine.Key
use kvs_cash_machine.Key.{Key}
use kvs_cash_machine.Kvs
use kvs_cash_machine.Kvs.{Kvs, shard_at}
use kvs_cash_machine.Kvs.Live.{lives_in}
use kvs_cash_machine.Shard.{get_shard_index}
use kvs_cash_machine.StorageHashTable.Number.{one_if}
use kvs_cash_machine.Value.{Value}

-- A call of a public method.
pub data Operation : Type 0 where
  get_value : Key → Operation
  add_value : Key → Value → Operation
  remove_value : Key → Operation

-- What a client knows of a store: its values, and how many keys of each shard have one.
pub record Model : Type 0 where
  pub values : Key → Option Value
  pub live : ℕ → ℕ

module _ (xxh3 : ByteArray → ℕ → ℕ) where
  unfoldable pub perform : Operation → Action Kvs (Option Value)
  perform (get_value k) = Kvs.get xxh3 k
  perform (add_value k v) = do Kvs.add xxh3 k v; pure none
  perform (remove_value k) = do Kvs.remove xxh3 k; pure none

  unfoldable pub run : List Operation → Action Kvs (List (Option Value))
  unfolding perform
  run [] = pure []
  run (o ∷ os) = do a ← perform o; rest ← run os; pure (a ∷ rest)

  -- The values change at one key.
  abbrev with_values : Key → (Key → Option Value) → Model → Model
  with_values k values m = record {
    values = values;
    live = λ i. m.live i + one_if (lives_in xxh3 values i k) - one_if (lives_in xxh3 m.values i k);
  }

  -- The operations on the map.
  abbrev pub step : Operation → Model → Model
  step (get_value k) m = m
  step (add_value k v) m = with_values k (λ q. if Key.eq k q then some v else m.values q) m
  step (remove_value k) m = with_values k (λ q. if Key.eq k q then none else m.values q) m

  abbrev pub answer : Operation → Model → Option Value
  answer (get_value k) m = m.values k
  answer (add_value k v) m = none
  answer (remove_value k) m = none

  abbrev pub final : List Operation → Model → Model
  final [] m = m
  final (o ∷ os) m = final os (step o m)

  abbrev pub answers : List Operation → Model → List (Option Value)
  answers [] m = []
  answers (o ∷ os) m = answer o m ∷ answers os (step o m)

  -- A value that is added has VALUE_SIZE bytes, and its key has a value already or less than 23 keys
  -- of its shard have one.
  abbrev pub IsAdmitted : Operation → Model → Type 0
  IsAdmitted (get_value k) m = Unit {0}
  IsAdmitted (add_value k v) m =
      (length v.bytes ≡ value_size)
      × ((is_some (m.values k) ≡ true) ⊎ (m.live (get_shard_index xxh3 k) < 23))
  IsAdmitted (remove_value k) m = Unit {0}

  abbrev pub AreAdmitted : List Operation → Model → Type 0
  AreAdmitted [] m = Unit {0}
  AreAdmitted (o ∷ os) m = IsAdmitted o m × AreAdmitted os (step o m)

-- No call in the list is a `remove`.
abbrev pub removes_nothing : List Operation → Bool
removes_nothing [] = true
removes_nothing (get_value k ∷ os) = removes_nothing os
removes_nothing (add_value k v ∷ os) = removes_nothing os
removes_nothing (remove_value k ∷ os) = false
