-- ===== src/Tests/Overfull.antt =====
-- An application of the theorem on a cache map that is more than two thirds full.
use kvs_cash_machine.CacheMap
use kvs_cash_machine.CacheMap.{CacheMap, with_size, put_or_displace}
use kvs_cash_machine.CacheMap.Put.{Put, put_or_displace-Put}
use kvs_cash_machine.CacheMap.Valid.{IsValid}
use kvs_cash_machine.Common.{
  ℕ, zero, suc, ◌*◌, ◌≤◌, ◌<◌, ◌≡◌, ◌∙◌, sym, ap, refl, true, Option, none, some, [], length,
  length-replicate, le→ltb_false, arith,
}
use mathlib.Core.Bool.{false≢true}
use kvs_cash_machine.Entry
use kvs_cash_machine.Entry.{Entry}
use kvs_cash_machine.Kvs
use kvs_cash_machine.Kvs.{Kvs}
use kvs_cash_machine.Probe.Seek.{is_absent}
use kvs_cash_machine.Probe.Table.{view}
use kvs_cash_machine.Ptr
use kvs_cash_machine.Ptr.{Ptr}
use kvs_cash_machine.Shard.{hash}
use kvs_cash_machine.Tests.Shards.{blank, apart}
use kvs_cash_machine.Tests.{key, entry, sum_hash}

-- Nine slots, with the keys from 1 to `n`.
record Filled (n : ℕ) (m : CacheMap) : Type 0 where
  valid : IsValid (hash sum_hash) m
  size : length m.entries ≡ 9
  used : m.used_size ≡ n
  free : (k : ℕ) → n < k → view m.entries (key k) ≡ Ptr.empty

next :
    (n : ℕ) (m : CacheMap) (displaced : Option Entry) (m' : CacheMap)
    → n < 7
    → Filled n m
    → Put (hash sum_hash) m (entry (suc n) 0) displaced m'
    → Filled (suc n) m'
next n m none m' few f p =
    let absent : is_absent m.entries (key (suc n)) ≡ true =
      ground (arith, ap Ptr.raw (f.free (suc n) (omega arith))) in
    record {
      valid = p.valid;
      size = p.size ∙ f.size;
      used = p.used refl ∙ rw (absent, f.used) (omega arith);
      free = λ k more.
          p.reads (key k) ∙ rw (apart (suc n) k (λ e. omega arith)) (f.free k (omega arith));
    }
next n m (some d) m' few f p = absurd (
    false≢true (
      sym (le→ltb_false (2 * length m.entries) (3 * m.used_size) (omega (arith, f.size, f.used)))
      ∙ sym p.full))

filled : (n : ℕ) → n ≤ 7 → (m : CacheMap) × Filled n m
unfolding with_size
filled zero few =
    let (valid, empty) = CacheMap.Valid.map_with_size-IsValid (hash sum_hash) 9 (omega arith) in
    (
      with_size 9,
      record {
        valid = valid;
        size = length-replicate 9 Entry.blank;
        used = refl;
        free = λ k _. empty (key k);
      },
    )
filled (suc n) few =
    let (m, f) = filled n (omega arith) in
    let (displaced, m', _, p) =
      put_or_displace-Put (hash sum_hash) m f.valid (entry (suc n) 0) refl 4 in
    (m', next n m displaced m' (omega arith) f p)

abbrev map : CacheMap
map = (filled 7 (omega arith)).0

abbrev facts : Filled 7 map
facts = (filled 7 (omega arith)).1

abbrev store : Kvs
store = record { shards = []; cache_map = map; disk = blank; random = λ n. n }
