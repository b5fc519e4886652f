-- ===== src/Kvs/ThenPush.antt =====
-- The last steps of `get` and `add` of src/KVS.cpp: an entry is put into the cache map, whether that
-- displaces another or not, where no rebuild is due.
use kvs_cash_machine.ByteArray.{ByteArray}
use kvs_cash_machine.CacheMap
use kvs_cash_machine.CacheMap.{CacheMap}
use kvs_cash_machine.CacheMap.Put.{Put, put_or_displace-Put}
use kvs_cash_machine.Common.{
  ℕ, suc, ◌+◌, ◌≤◌, ◌<◌, ◌≡◌, ◌≢◌, ◌∙◌, sym, ap, refl, false, Option, none, some, length, arith,
}
use mathlib.Core.Path.{subst}
use kvs_cash_machine.Entry.{Entry}
use kvs_cash_machine.Key
use kvs_cash_machine.Key.{Key}
use kvs_cash_machine.Key.Laws.{eq_refl}
use kvs_cash_machine.Kvs.{Kvs, shard_at, put_and_push, put_or_displace, draw}
use kvs_cash_machine.Kvs.Became.{IsTight, AreTight, Steady, now-AreTight}
use kvs_cash_machine.Kvs.After.{after}
use kvs_cash_machine.Kvs.Change.{Changed, Changed-Represents}
use kvs_cash_machine.Kvs.Displaced
use kvs_cash_machine.Kvs.Stages.{Called, called}
use kvs_cash_machine.Kvs.Valid.{alive, Coherent, lookup, Represents}
use kvs_cash_machine.Outcome.{ok}
use kvs_cash_machine.Ptr.{Ptr}
use kvs_cash_machine.Shard.{State, hash, get_shard_index}
use kvs_cash_machine.Shard.Sound.{raw}
use kvs_cash_machine.ShardBuilder.Step.{cached}
use kvs_cash_machine.StorageHashTable.Number.{one_if}
use kvs_cash_machine.StorageHashTable.{StorageHashTable}
use kvs_cash_machine.Value.{Value}

module _ (xxh3 : ByteArray → ℕ → ℕ) where
  module _ (f : Key → Option Value) (s : Kvs) (r : Represents xxh3 f s)
      (tight : AreTight xxh3 f s r) (key : Key) (unknown : 126 ≤ cached s.cache_map key)
      (unused : cached s.cache_map key < 128) (s' : State) (t' : StorageHashTable) (v' : ByteArray)
      (c : Called xxh3 f s r key s' t' v') (own_tight : IsTight s'.shard.alive_values_cnt t')
      (p : Ptr) (used : p.raw ≢ 127) (goes : Coherent p.raw (raw t' key)) (f' : Key → Option Value)
      (others : (q : Key) → Key.eq key q ≡ false → f' q ≡ f q)
      (reads : (m' : CacheMap) → cached m' key ≡ p.raw → f' key ≡ lookup m' t' v' key)
      (counted : (m' : CacheMap)
        → cached m' key ≡ p.raw
        → s'.shard.alive_values_cnt
            + one_if (alive s.cache_map (r.tables (get_shard_index xxh3 key)) key)
          ≡ (shard_at s (get_shard_index xxh3 key)).alive_values_cnt
            + one_if (alive m' t' key)) where
    abbrev i : ℕ
    i = get_shard_index xxh3 key

    abbrev e : Entry
    e = record { key = key; ptr = p }

    abbrev random : ℕ → ℕ
    random = λ n. s.random (suc n)

    abbrev before : Kvs
    before = called xxh3 f s r key s' t' v' c

    -- Nothing is displaced.
    module _ (m' : CacheMap) (put : Put (hash xxh3) s.cache_map e none m') where
      self : cached m' key ≡ p.raw
      self = ap Ptr.raw (put.reads key) ∙ rw (eq_refl key) refl

      plain-Changed : Changed xxh3 f s r key s' t' v' m'
      plain-Changed = record {
        holds = c.holds;
        framed = c.framed;
        pointers = c.pointers;
        reads = c.reads;
        cache = put.valid;
        others = λ q other. ap Ptr.raw (put.reads q) ∙ rw other refl;
        coherent = subst (λ x. Coherent x (raw t' key)) (sym self) goes;
        counted = counted m' self;
      }

      plain-Steady : Steady xxh3 f' (length s.cache_map.entries) (after s i s' m' random)
      plain-Steady = record {
        represents =
            Changed-Represents xxh3 f s r key s' t' v' m' plain-Changed random f' (reads m' self)
              others;
        tight =
            now-AreTight xxh3 f s r key s' t' v' m' plain-Changed random f' (reads m' self) others
              own_tight tight;
        size = put.size;
      }

    abbrev Done : Type 0
    Done =
        (s'' : Kvs) × (put_and_push xxh3 e before ≡ (ok tt, s''))
        × Steady xxh3 f' (length s.cache_map.entries) s''

    finish :
        (displaced : Option Entry) (m' : CacheMap)
        → CacheMap.put_or_displace (hash xxh3) s.cache_map (s.random 0) e ≡ ok (displaced, m')
        → Put (hash xxh3) s.cache_map e displaced m'
        → Done
    unfolding put_and_push put_or_displace draw
    finish none m' eq put = (after s i s' m' random, rw eq refl, plain-Steady m' put)
    finish (some d) m' eq put =
        let (s'', t'', pushed, w) =
          Displaced.pushed xxh3 f s r key s' t' v' c p d m' put random unknown unused tight
            own_tight in
        let self =
          Displaced.self_cached xxh3 f s r key s' t' v' c p d m' put random unknown unused s'' t''
            w in
        (
          Displaced.s₂ xxh3 f s r key s' t' v' c p d m' put random unknown unused s'' t'' w,
          rw eq pushed,
          Displaced.displaced-Steady xxh3 f s r key s' t' v' c p d m' put random unknown unused s''
              t'' w f' goes (reads m' self) (counted m' self) others tight own_tight,
        )

    -- The entry is put into the cache map without an error.
    pub then_push : Done
    then_push =
        let (displaced, m', eq, put) =
          put_or_displace-Put (hash xxh3) s.cache_map r.valid.cache e (ground (arith, used))
            (s.random 0) in
        finish displaced m' eq put
