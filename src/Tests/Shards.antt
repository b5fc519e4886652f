-- ===== src/Tests/Shards.antt =====
-- Applications of the theorems on shards.
use kvs_cash_machine.ByteArray.{ByteArray, zeros}
use kvs_cash_machine.Common.{
  ℕ, zero, suc, ◌+◌, ◌%◌, ◌≤◌, ◌<◌, ◌≡◌, ◌≢◌, inr, ◌∙◌, ap, refl, false, true, lt→ltb, none, some,
  [], ◌++◌, ==_true, ==_false, length, length-replicate, arith,
}
use mathlib.Core.Path.{subst}
use native.Mathlib.Decide.{ℕ_discrete}
use kvs_cash_machine.StorageHashTable
use kvs_cash_machine.Constants.{value_size}
use kvs_cash_machine.Disk.{Disk, values, index}
use kvs_cash_machine.BloomFilter
use kvs_cash_machine.Key
use kvs_cash_machine.Key.{Key}
use kvs_cash_machine.Key.Laws.{eq_refl}
use kvs_cash_machine.Outcome.{ok, err, terminate}
use kvs_cash_machine.Probe.Table.{view}
use kvs_cash_machine.Ptr.{Ptr}
use kvs_cash_machine.Shard
use kvs_cash_machine.Shard.{Shard, State, on_disk}
use kvs_cash_machine.Shard.Directly.{write_value_directly}
use kvs_cash_machine.Shard.Methods.{read_value, write_value, remove_entry, push_remove_entry}
use kvs_cash_machine.Shard.Overwrite.{Written}
use kvs_cash_machine.Shard.Remove.{Removed, cleared}
use kvs_cash_machine.Shard.Sound.{raw, contents}
use kvs_cash_machine.Shard.Valid.{Holds}
use kvs_cash_machine.ShardBuilder.{create_shard}
use kvs_cash_machine.ShardBuilder.Create
use kvs_cash_machine.ShardBuilder.Create.{Created, start, start-raw}
use kvs_cash_machine.StorageHashTable.{StorageHashTable}
use kvs_cash_machine.Tests.{key, sum_hash}
use kvs_cash_machine.Value.{Value}

-- A disk with nothing on it.
abbrev pub blank : Disk
blank = record { file = λ p. none; has_directory = λ j. false; denied = λ j. false }

create_shard-Created_example :
    (shard : Shard) × (d' : Disk) × (create_shard 3 11 12 blank ≡ (ok shard, d'))
    × Created sum_hash 3 11 12 blank shard d'
create_shard-Created_example = Create.create_shard-Created sum_hash 3 11 12 blank refl

-- A value of the right size.
abbrev pub value : Value
value = record { bytes = zeros value_size }

pub value-whole : length value.bytes ≡ value_size
unfolding zeros
value-whole = length-replicate {A = ℕ} 2048 0

pub apart : (a b : ℕ) → a ≢ b → Key.eq (key a) (key b) ≡ false
unfolding Key.eq Key.memcmp_eq Key.load
apart a b ne = rw (==_false ne) refl

-- Shard 3 with values under the keys from 1 to `n`, and under no other key of its kind.
pub record Filled (n : ℕ) (s : State) (t : StorageHashTable) (v : ByteArray) : Type 0 where
  pub holds : Holds sum_hash 3 s t v
  pub used : t.used_size ≡ n
  pub count : s.shard.alive_values_cnt ≡ n
  pub stored : (k : ℕ) → 1 ≤ k → k ≤ n → 128 ≤ raw t (key k)
  pub free : (k : ℕ) → n < k → raw t (key k) ≡ 127

module _ (n : ℕ) (few : n < 45) (s : State) (t : StorageHashTable) (v : ByteArray)
    (f : Filled n s t v) where
  new : raw t (key (suc n)) ≡ 127
  new = f.free (suc n) (omega arith)

  module _ (p : Ptr) (s' : State) (t' : StorageHashTable) (v' : ByteArray)
      (w : Written sum_hash 3 s t v (key (suc n)) value p s' t' v') where
    self : raw t' (key (suc n)) ≡ p.raw
    self = ap Ptr.raw (w.pointers (key (suc n))) ∙ rw (eq_refl (key (suc n))) refl

    other : (k : ℕ) → suc n ≢ k → raw t' (key k) ≡ raw t (key k)
    other k ne = ap Ptr.raw (w.pointers (key k)) ∙ rw (apart (suc n) k ne) refl

    next : Filled (suc n) s' t' v'
    next = record {
      holds = w.holds;
      used = w.used ∙ rw (==_true new, f.used) (omega arith);
      count =
          w.count
          ∙ rw (lt→ltb (raw t (key (suc n))) 128 (omega (arith, new)), f.count)
              (omega (arith, few));
      stored = λ k low high. elim (ℕ_discrete (suc n) k) [
        | yes e ↦ subst (λ x. 128 ≤ raw t' (key x)) e (omega (arith, self, w.present))
        | no ne ↦ rw (other k ne) (f.stored k low (omega arith))
      ];
      free = λ k more. other k (λ e. omega arith) ∙ f.free k (omega arith);
    }

filled : (n : ℕ) → n ≤ 45 → (s : State) × (t : StorageHashTable) × (v : ByteArray) × Filled n s t v
unfolding StorageHashTable.with_size
filled zero few =
    let (shard, d, eq, c) = create_shard-Created_example in
    (
      record { shard = shard; disk = d },
      start,
      [],
      record {
        holds = c.holds;
        used = refl;
        count = c.count;
        stored = λ k low high. absurd (omega arith);
        free = λ k more. start-raw sum_hash (key k);
      },
    )
filled (suc n) few =
    let (s, t, v, f) = filled n (omega arith) in
    let (p, s', t', v', eq, w) =
      Shard.Write.write_value-Written sum_hash 3 s t v (key (suc n)) f.holds value value-whole
        (inr (omega (arith, f.used))) in
    (s', t', v', next n (omega arith) s t v f p s' t' v' w)

-- A shard with three values.
pub some_values : (s : State) × (t : StorageHashTable) × (v : ByteArray) × Filled 3 s t v
some_values = filled 3 (omega arith)

abbrev pub shard : State
shard = some_values.0

abbrev pub table : StorageHashTable
table = some_values.1

abbrev pub bytes : ByteArray
bytes = some_values.2

abbrev pub facts : Filled 3 shard table bytes
facts = some_values.3

read_value-contents_example : read_value sum_hash 3 (key 2) shard ≡ (
  ok (record { key = key 2; ptr = view table.entries (key 2) }, contents table bytes (key 2)),
  shard,
)
read_value-contents_example =
    Shard.Read.read_value-contents sum_hash 3 shard table bytes facts.holds (key 2)

write_value-Written_example :
    (p : Ptr) × (s' : State) × (t' : StorageHashTable) × (v' : ByteArray) × (write_value sum_hash 3
        (key 4)
        value
        shard
      ≡ (ok (record { key = key 4; ptr = p }), s'))
    × Written sum_hash 3 shard table bytes (key 4) value p s' t' v'
write_value-Written_example =
    Shard.Write.write_value-Written sum_hash 3 shard table bytes (key 4) facts.holds value
      value-whole (inr (omega (arith, facts.used)))

write_value_directly-Written_example :
    (s' : State) × (v' : ByteArray) × (on_disk
        (write_value_directly 3 (view table.entries (key 2)) value)
        shard
      ≡ (ok tt, s'))
    × Written sum_hash 3 shard table bytes (key 2) value (view table.entries (key 2)) s' table v'
write_value_directly-Written_example =
    Shard.Overwrite.write_value_directly-Written sum_hash 3 shard table bytes (key 2) facts.holds
      value value-whole (view table.entries (key 2))
      (Shard.Sound.raw-lt sum_hash table bytes facts.holds.sound (key 2)) refl
      (facts.stored 2 (omega arith) (omega arith))

remove_entry-Removed_example :
    (s' : State) × (t' : StorageHashTable) × (remove_entry sum_hash 3 (key 2) shard
      ≡ (ok (record { key = key 2; ptr = cleared sum_hash 3 shard table bytes (key 2) }), s'))
    × Removed sum_hash 3 shard table bytes
        (key 2)
        ((shard.shard.alive_values_cnt + 255) % 256)
        s'
        t'
remove_entry-Removed_example =
    Shard.Remove.remove_entry-Removed sum_hash 3 shard table bytes (key 2) facts.holds

push_remove_entry-Removed_example :
    (s' : State) × (t' : StorageHashTable) × (push_remove_entry sum_hash 3 (key 2) shard
      ≡ (ok (record { key = key 2; ptr = cleared sum_hash 3 shard table bytes (key 2) }), s'))
    × Removed sum_hash 3 shard table bytes (key 2) shard.shard.alive_values_cnt s' t'
push_remove_entry-Removed_example =
    Shard.Remove.push_remove_entry-Removed sum_hash 3 shard table bytes (key 2) facts.holds

-- A shard with as many values as it can take.
full : (s : State) × (t : StorageHashTable) × (v : ByteArray) × Filled 45 s t v
full = filled 45 (omega arith)

write_value-terminate_example :
    (s' : State) × (write_value sum_hash 3 (key 50) value full.0 ≡ (err terminate, s'))
    × (s'.disk.file (values 3) ≡ some (full.2 ++ value.bytes))
    × (s'.disk.file (index 3) ≡ full.0.disk.file (index 3))
    × (s'.shard.alive_values_cnt ≡ (full.0.shard.alive_values_cnt + 1) % 256)
    × (BloomFilter.check_exist sum_hash s'.shard.filter (key 50) ≡ true)
write_value-terminate_example =
    Shard.Write.write_value-terminate sum_hash 3 full.0 full.1 full.2 (key 50) full.3.holds value
      value-whole (full.3.free 50 (omega arith)) full.3.used
