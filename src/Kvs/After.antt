-- ===== src/Kvs/After.antt =====
-- The store of src/KVS.cpp after a call of one shard.
use kvs_cash_machine.ByteArray.{ByteArray}
use kvs_cash_machine.CacheMap.{CacheMap}
use kvs_cash_machine.Common.{
  ℕ, ◌==◌, ◌<◌, ◌≡◌, ◌≢◌, ◌∙◌, sym, ap, refl, if◌then◌else◌, length, set, get_or-set_self,
  get_or-set_ne, ==_true, ==_false,
}
use mathlib.Core.Path.{subst}
use native.Mathlib.Decide.{ℕ_discrete}
use kvs_cash_machine.Constants.{shard_number}
use kvs_cash_machine.Disk.{directory, values, index}
use kvs_cash_machine.Kvs.{Kvs, shard_at}
use kvs_cash_machine.Kvs.Valid.{state_at}
use kvs_cash_machine.Shard
use kvs_cash_machine.Shard.{Shard, State, hash, get_shard_index}
use kvs_cash_machine.Shard.Frame.{Framed}
use kvs_cash_machine.Shard.Valid.{Holds}
use kvs_cash_machine.StorageHashTable.{StorageHashTable}

-- A family with another member in one place.
abbrev pub at : {A : Type 0} → ℕ → A → (ℕ → A) → ℕ → A
at i x g j = if i == j then x else g j

-- The store after a method of shard `i` left `s'`, and with another cache map and other random
-- numbers.
abbrev pub after : Kvs → ℕ → State → CacheMap → (ℕ → ℕ) → Kvs
after s i s' m random = record {
  shards = set s.shards i s'.shard;
  cache_map = m;
  disk = s'.disk;
  random = random;
}

-- The new member has what the old one had.
pub at_same :
    {A B : Type 0} (g : A → B) (i : ℕ) (x : A) (h : ℕ → A)
    → g x ≡ g (h i)
    → (j : ℕ) → g (at i x h j) ≡ g (h j)
at_same g i x h e j = elim (ℕ_discrete i j) [
  | yes same ↦ rw (==_true same) (e ∙ ap (λ j. g (h j)) same)
  | no ne ↦ rw (==_false ne) refl
]

-- The same for a table with its values.
pub at_same_pair :
    {A B C : Type 0} (g : A → B → C) (i : ℕ) (x : A) (y : B) (h : ℕ → A) (k : ℕ → B)
    → g x y ≡ g (h i) (k i)
    → (j : ℕ) → g (at i x h j) (at i y k j) ≡ g (h j) (k j)
at_same_pair g i x y h k e j = elim (ℕ_discrete i j) [
  | yes same ↦ rw (==_true same) (e ∙ ap (λ j. g (h j) (k j)) same)
  | no ne ↦ rw (==_false ne) refl
]

-- The counters after a method of shard `i`.
pub count-after :
    (s : Kvs) (i : ℕ) (s' : State) (m : CacheMap) (random : ℕ → ℕ)
    → i < length s.shards
    → (j : ℕ)
    → (shard_at (after s i s' m random) j).alive_values_cnt
      ≡ at i s'.shard.alive_values_cnt (λ j. (shard_at s j).alive_values_cnt) j
count-after s i s' m random inside j = elim (ℕ_discrete i j) [
  | yes e ↦
      subst
        (λ j.
          (shard_at (after s i s' m random) j).alive_values_cnt
          ≡ at i s'.shard.alive_values_cnt (λ j. (shard_at s j).alive_values_cnt) j)
        e
        (rw (==_true {a = i} refl, get_or-set_self s.shards i s'.shard (Shard.new 0 0) inside) refl)
  | no ne ↦ rw (==_false ne, get_or-set_ne s.shards s'.shard (Shard.new 0 0) ne) refl
]

module _ (xxh3 : ByteArray → ℕ → ℕ) where
  -- A shard stays valid when the files of another change.
  Holds-elsewhere :
      (i j : ℕ) (s s' : State) (t : StorageHashTable) (v : ByteArray)
      → i ≢ j
      → Framed i s.disk s'.disk
      → s'.shard ≡ s.shard
      → Holds xxh3 j s t v
      → Holds xxh3 j s' t v
  unfolding directory
  Holds-elsewhere i j s s' t v ne framed same h = record {
    directory = framed.directories j ∙ h.directory;
    index_file = framed.files (index j) (λ e. ne (sym e)) ∙ h.index_file;
    values_file = framed.files (values j) (λ e. ne (sym e)) ∙ h.values_file;
    sound = h.sound;
    filter = rw same h.filter;
    confirmed = λ k n. rw same (h.confirmed k n);
  }

  module _ (s : Kvs) (tables : ℕ → StorageHashTable) (files : ℕ → ByteArray)
      (number : length s.shards ≡ shard_number)
      (all : (j : ℕ) → j < shard_number → Holds xxh3 j (state_at s j) (tables j) (files j)) (i : ℕ)
      (lt : i < shard_number) (s' : State) (t' : StorageHashTable) (v' : ByteArray)
      (holds : Holds xxh3 i s' t' v') (framed : Framed i s.disk s'.disk) (m' : CacheMap)
      (random : ℕ → ℕ) where
    -- All shards are valid after a call of one.
    pub shards_hold :
        (j : ℕ)
        → j < shard_number
        → Holds xxh3 j (state_at (after s i s' m' random) j) (at i t' tables j) (at i v' files j)
    shards_hold j less =
        let inside : i < length s.shards = rw number lt in
        let blank : Shard = Shard.new 0 0 in
        elim (ℕ_discrete i j) [
          | yes e ↦
              subst
                (λ j.
                  Holds xxh3 j (state_at (after s i s' m' random) j) (at i t' tables j)
                    (at i v' files j))
                e
                (rw (==_true {a = i} refl, get_or-set_self s.shards i s'.shard blank inside) holds)
          | no ne ↦ rw (==_false ne) (
              Holds-elsewhere i j (state_at s j) (state_at (after s i s' m' random) j) (tables j)
                (files j) ne framed (get_or-set_ne s.shards s'.shard blank ne) (all j less))
        ]
