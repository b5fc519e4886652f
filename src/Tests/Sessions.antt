-- ===== src/Tests/Sessions.antt =====
-- Applications of the theorems on sequences of calls.
use kvs_cash_machine.ByteArray.{ByteArray}
use kvs_cash_machine.Common.{
  ◌*◌, ◌≤◌, ◌≡◌, refl, ◌≢◌, ==_true, inl, inr, List, [], ◌∷◌, none, some, length, arith,
}
use kvs_cash_machine.Constants.{value_size}
use kvs_cash_machine.Disk.{Disk, values}
use kvs_cash_machine.Key
use kvs_cash_machine.Kvs
use kvs_cash_machine.Kvs.{Kvs, shard_at}
use kvs_cash_machine.Kvs.Became.{Steady}
use kvs_cash_machine.Kvs.Valid.{Represents}
use kvs_cash_machine.Shard.{get_shard_index}
use kvs_cash_machine.Shard.Sound.{raw}
use kvs_cash_machine.Kvs.Life.{empty}
use kvs_cash_machine.Key.{Key}
use kvs_cash_machine.Kvs.Live.{lives_in}
use kvs_cash_machine.StorageHashTable.Keys.{IsListOf}
use kvs_cash_machine.Kvs.Ready.{Ready, Calm}
use kvs_cash_machine.Kvs.Session.{
  Operation, Model, get_value, add_value, remove_value, run, answers, final, AreAdmitted,
}
use kvs_cash_machine.Outcome.{ok}
use kvs_cash_machine.Shard
use kvs_cash_machine.Tests.Shards.{blank, value, value-whole}
use kvs_cash_machine.Tests.{key, sum_hash}

-- A value is added, read and removed.
abbrev calls : List Operation
calls =
    add_value (key 5) value
    ∷ get_value (key 5)
    ∷ remove_value (key 5)
    ∷ get_value (key 5)
    ∷ add_value (key 6) value
    ∷ []

answered : answers sum_hash calls empty ≡ none ∷ some value ∷ none ∷ none ∷ none ∷ []
unfolding Key.eq Key.load
answered = refl

calls-AreAdmitted : AreAdmitted sum_hash calls empty
unfolding Shard.get_shard_index Key.hash_key Key.store Key.load Key.eq
calls-AreAdmitted =
    ((value-whole, inr (omega arith)), (tt, (tt, (tt, ((value-whole, inr (omega arith)), tt)))))

run-new_example :
    (s : Kvs) × (d' : Disk) × (s' : Kvs) × (Kvs.new (λ n. n) blank ≡ (ok s, d'))
    × (run sum_hash calls s ≡ (ok (answers sum_hash calls empty), s'))
    × Ready sum_hash 0 (final sum_hash calls empty) s'
run-new_example =
    Kvs.Life.run-new sum_hash (λ n. n) blank (λ j. refl) calls (omega arith) calls-AreAdmitted

-- Calls on the store that is left.
abbrev more : List Operation
more = get_value (key 6) ∷ add_value (key 6) value ∷ get_value (key 5) ∷ []

more-AreAdmitted : AreAdmitted sum_hash more (final sum_hash calls empty)
unfolding Key.eq Key.load
more-AreAdmitted = (tt, ((value-whole, inl refl), (tt, tt)))

abbrev m₁ : Model
m₁ = final sum_hash calls empty

run-values_example :
    (s : Kvs) × (d' : Disk) × (s₁ : Kvs) × (s₂ : Kvs) × (ks : List Key) × (v : ByteArray) × (Kvs.new
        (λ n. n)
        blank
      ≡ (ok s, d'))
    × (run sum_hash calls s ≡ (ok (answers sum_hash calls empty), s₁))
    × (run sum_hash more s₁ ≡ (ok (answers sum_hash more m₁), s₂))
    × IsListOf (lives_in sum_hash (final sum_hash more m₁).values 6) ks
    × ((shard_at s₂ 6).alive_values_cnt ≡ length ks)
    × (s₂.disk.file (values 6) ≡ some v)
    × (length v ≤ 2 * (length ks * value_size))
run-values_example =
    Kvs.Life.run-values sum_hash (λ n. n) blank (λ j. refl) calls more (omega arith)
      calls-AreAdmitted refl more-AreAdmitted 6 (omega arith)

run-Calm_example :
    (s' : Kvs) × (run sum_hash more run-new_example.2
      ≡ (ok (answers sum_hash more (final sum_hash calls empty)), s'))
    × Calm sum_hash (final sum_hash more (final sum_hash calls empty)) s'
run-Calm_example =
    Kvs.Ready.run-Calm sum_hash more (final sum_hash calls empty) run-new_example.2 refl
      run-new_example.5.calm more-AreAdmitted

get-Steady_example :
    (s' : Kvs) × (Kvs.get sum_hash (key 7) run-new_example.2
      ≡ (ok ((final sum_hash calls empty).values (key 7)), s'))
    × Steady sum_hash
        ((final sum_hash calls empty).values)
        (length run-new_example.2.cache_map.entries)
        s'
get-Steady_example =
    Kvs.Get.get-Steady sum_hash ((final sum_hash calls empty).values) run-new_example.2
      run-new_example.5.calm.represents (key 7) run-new_example.5.calm.tight

abbrev ended : Represents sum_hash ((final sum_hash calls empty).values) run-new_example.2
ended = run-new_example.5.calm.represents

stored : raw (ended.tables (get_shard_index sum_hash (key 6))) (key 6) ≢ 127
unfolding Key.eq Key.load
stored z = omega (
  arith,
  z,
  (Kvs.Live.counter-lives_in sum_hash ((final sum_hash calls empty).values) run-new_example.2 ended
        (get_shard_index sum_hash (key 6)) (Kvs.Valid.shard_index-lt sum_hash (key 6))).1
      (key 6) (rw (==_true {a = get_shard_index sum_hash (key 6)} refl) refl),
)

add-Steady_example :
    (s' : Kvs) × (Kvs.add sum_hash (key 6) value run-new_example.2 ≡ (ok tt, s'))
    × Steady sum_hash
        (Kvs.OneKey.added ((final sum_hash calls empty).values) (key 6) value)
        (length run-new_example.2.cache_map.entries)
        s'
add-Steady_example =
    Kvs.Add.add-Steady sum_hash ((final sum_hash calls empty).values) run-new_example.2 ended
      (key 6) value value-whole run-new_example.5.calm.tight (inl stored)
