-- ===== src/Kvs/Overfull.antt =====
-- The loop of `rebuildShard` of src/KVS.cpp, where the cache map is more than two thirds full.
use kvs_cash_machine.ByteArray.{ByteArray}
use kvs_cash_machine.CacheMap
use kvs_cash_machine.CacheMap.{CacheMap}
use kvs_cash_machine.CacheMap.Put.{Put}
use kvs_cash_machine.Common.{ℕ, ◌≡◌, true, false, List, ◌∷◌}
use kvs_cash_machine.Entry.{Entry, is_used}
use kvs_cash_machine.Key
use kvs_cash_machine.Key.{Key}
use kvs_cash_machine.Kvs.{Kvs, update_cache}
use kvs_cash_machine.Outcome.{err, assertion_failed}
use kvs_cash_machine.Probe.Table.{view}
use kvs_cash_machine.Ptr
use kvs_cash_machine.Ptr.{Ptr}
use kvs_cash_machine.Shard.{hash}

module _ (xxh3 : ByteArray → ℕ → ℕ) (s : Kvs)
    (valid : CacheMap.Valid.IsValid (hash xxh3) s.cache_map) (e : Entry) (used : is_used e ≡ true)
    (es : List Entry) where
  -- The loop stops at the entry `e`, and `d` is lost.
  pub record Lost (s' : Kvs) (d : Entry) : Type 0 where
    pub stopped : update_cache xxh3 (e ∷ es) s ≡ (err assertion_failed, s')
    pub put : view s'.cache_map.entries e.key ≡ e.ptr
    pub was : view s.cache_map.entries d.key ≡ d.ptr
    pub gone : Key.eq e.key d.key ≡ false → view s'.cache_map.entries d.key ≡ Ptr.empty
