-- ===== src/Kvs/Room.antt =====
-- The calls of the cache map and of a shard in src/KVS.cpp, where the cache map has room.
use kvs_cash_machine.ByteArray.{ByteArray}
use kvs_cash_machine.CacheMap
use kvs_cash_machine.CacheMap.{CacheMap}
use kvs_cash_machine.CacheMap.Put.{map_assign_lem, Put, put_or_displace-Put}
use kvs_cash_machine.CacheMap.Valid.{locate-Refers}
use kvs_cash_machine.Common.{
  ℕ, suc, ◌%◌, ◌*◌, ◌≤◌, ◌<◌, ◌≡◌, ◌≢◌, ◌∙◌, sym, ap, refl, le→ltb_false, Bool, true, false, Option,
  none, some, if◌then◌else◌, length, length-set, set, ◌+◌, arith,
}
use mathlib.Core.Bool.{false≢true}
use kvs_cash_machine.Entry.{Entry, is_used}
use kvs_cash_machine.Key
use kvs_cash_machine.Key.{Key}
use kvs_cash_machine.Key.Laws.{eq_refl}
use kvs_cash_machine.Kvs.{
  Kvs, on_shard, put_and_push, put_or_displace, draw, set_in_cache, get_in_cache,
}
use kvs_cash_machine.Kvs.Valid.{state_at}
use kvs_cash_machine.Outcome.{Result, ok}
use kvs_cash_machine.Probe.Seek.{is_absent}
use kvs_cash_machine.Probe.Table.{view}
use kvs_cash_machine.Ptr.Laws.{with_flag, set_value_present_ok}
use kvs_cash_machine.Ptr.{Ptr}
use kvs_cash_machine.Shard.{State, hash}

-- Nothing is displaced: at most two thirds of the cache map are used.
abbrev pub HasRoom : CacheMap → Type 0
HasRoom m = 3 * m.used_size ≤ 2 * length m.entries

-- The cache map keeps its size, and uses at most one slot more.
pub record Grown (m m' : CacheMap) : Type 0 where
  pub size : length m'.entries ≡ length m.entries
  pub used : m'.used_size ≤ m.used_size + 1

pub Grown-refl : (m : CacheMap) → Grown m m
Grown-refl m = record { size = refl; used = omega arith }

pub on_shard_lem :
    {A : Type 0} (i : ℕ) (m : State → Result A × State) (s : Kvs) (x : Result A) (s' : State)
    → m (state_at s i) ≡ (x, s')
    → on_shard i m s ≡ (x, record s { shards = set s.shards i s'.shard; disk = s'.disk })
on_shard_lem i m s x s' e =
    ap (λ y. (y.0, record s { shards = set s.shards i y.1.shard; disk = y.1.disk })) e

with_flag-used : {n : ℕ} (b : Bool) → n < 126 → with_flag n b ≢ 127
with_flag-used true low z = omega arith
with_flag-used false low z = omega arith

module _ (xxh3 : ByteArray → ℕ → ℕ) (s : Kvs)
    (valid : CacheMap.Valid.IsValid (hash xxh3) s.cache_map) where
  pub get_in_cache_lem :
      (k : Key)
      → (r : ℕ) × (CacheMap.locate (hash xxh3) s.cache_map k ≡ ok r)
        × (get_in_cache xxh3 k s ≡ (ok (r, view s.cache_map.entries k), s))
  unfolding get_in_cache
  get_in_cache_lem k =
      let (r, located, refers) = locate-Refers (hash xxh3) s.cache_map valid k in
      (r, located, rw located (ap (λ p. (ok (r, p), s)) refers.reads))

  -- The entry is put into the cache map, and no operation is pushed.
  pub record Cached (e : Entry) (m' : CacheMap) : Type 0 where
    pub size : length m'.entries ≡ length s.cache_map.entries
    pub used :
        m'.used_size
        ≡ s.cache_map.used_size + (if is_absent s.cache_map.entries e.key then 1 else 0)
    pub cache : CacheMap.Valid.IsValid (hash xxh3) m'
    pub self : view m'.entries e.key ≡ e.ptr
    pub others : (q : Key) → Key.eq e.key q ≡ false → view m'.entries q ≡ view s.cache_map.entries q

  pub Cached-Grown : {e : Entry} {m' : CacheMap} → Cached e m' → Grown s.cache_map m'
  Cached-Grown put = record { size = put.size; used = ground (arith, put.used) }

  undisplaced :
      (e : Entry) (displaced : Option Entry) (m' : CacheMap)
      → HasRoom s.cache_map
      → CacheMap.put_or_displace (hash xxh3) s.cache_map (s.random 0) e ≡ ok (displaced, m')
      → Put (hash xxh3) s.cache_map e displaced m'
      → (CacheMap.put_or_displace (hash xxh3) s.cache_map (s.random 0) e ≡ ok (none, m'))
        × Put (hash xxh3) s.cache_map e none m'
  undisplaced e none m' room eq p = (eq, p)
  undisplaced e (some d) m' room eq p = absurd (
      false≢true (
        sym (le→ltb_false (2 * length s.cache_map.entries) (3 * s.cache_map.used_size) room)
        ∙ sym p.full))

  pub put_or_displace_lem :
      (e : Entry)
      → HasRoom s.cache_map
      → is_used e ≡ true
      → (m' : CacheMap) × (put_or_displace xxh3 e s
          ≡ (ok none, record s { cache_map = m'; random = λ n. s.random (suc n) }))
        × Cached e m'
  unfolding put_or_displace draw
  put_or_displace_lem e room used =
      let (displaced, m', eq, p) =
        put_or_displace-Put (hash xxh3) s.cache_map valid e used (s.random 0) in
      let (eq', p') = undisplaced e displaced m' room eq p in
      (
        m',
        rw eq' refl,
        record {
          size = p'.size;
          used = p'.used refl;
          cache = p'.valid;
          self = p'.reads e.key ∙ rw (eq_refl e.key) refl;
          others = λ q other. p'.reads q ∙ rw other refl;
        },
      )

  pub put_and_push_lem :
      (e : Entry)
      → HasRoom s.cache_map
      → is_used e ≡ true
      → (m' : CacheMap) × (put_and_push xxh3 e s
          ≡ (ok tt, record s { cache_map = m'; random = λ n. s.random (suc n) }))
        × Cached e m'
  unfolding put_and_push
  put_and_push_lem e room used =
      let (m', eq, put) = put_or_displace_lem e room used in (m', rw eq refl, put)

  -- `setValuePresent` on the pointer of a present or deleted value in the cache map.
  pub set_in_cache_lem :
      (k : Key) (r : ℕ) (b : Bool)
      → CacheMap.locate (hash xxh3) s.cache_map k ≡ ok r
      → (view s.cache_map.entries k).raw < 256
      → (view s.cache_map.entries k).raw % 128 < 126
      → (m' : CacheMap) × (set_in_cache r (view s.cache_map.entries k) b s
          ≡ (ok tt, record s { cache_map = m' }))
        × Cached
            (record {
              key = k;
              ptr = record { raw = with_flag ((view s.cache_map.entries k).raw % 128) b };
            })
            m'
  unfolding set_in_cache CacheMap.assign
  set_in_cache_lem k r b located byte index =
      let p : Ptr = record { raw = with_flag ((view s.cache_map.entries k).raw % 128) b } in
      let (i, located', valid', reads) =
        map_assign_lem (hash xxh3) s.cache_map valid k p (λ z. omega (arith, ap Ptr.raw z))
          (λ z. with_flag-used b index (ap Ptr.raw z)) in
      let same : r ≡ i = cc in
      let stored : is_absent s.cache_map.entries k ≡ false = ground arith in
      (
        CacheMap.assign s.cache_map i p,
        rw
            (
              set_value_present_ok (view s.cache_map.entries k) b byte (λ z. omega arith)
                  (λ z. omega arith),
              same,
            )
            refl,
        record {
          size = length-set s.cache_map.entries i _;
          used = rw stored (omega arith);
          cache = valid';
          self = reads k ∙ rw (eq_refl k) refl;
          others = λ q other. reads q ∙ rw other refl;
        },
      )
