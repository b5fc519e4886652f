-- ===== src/Kvs/UpdateCache.antt =====
-- The loop of `rebuildShard` of src/KVS.cpp over the entries that the rebuild gives back, where the
-- cache map has room.
use kvs_cash_machine.ByteArray.{ByteArray}
use kvs_cash_machine.CacheMap
use kvs_cash_machine.CacheMap.{CacheMap}
use kvs_cash_machine.Common.{
  ℕ, length, suc, ◌≤◌, ◌<◌, ◌≡◌, ◌≢◌, ◌∙◌, ◌⊎◌, inl, inr, sym, ap, refl, false, if◌then◌else◌, ltb,
  lt→ltb, le→ltb_false, List, [], ◌∷◌, arith,
}
use kvs_cash_machine.Entry.{Entry}
use kvs_cash_machine.Key
use kvs_cash_machine.Key.{Key}
use kvs_cash_machine.Key.Laws.{by_key}
use kvs_cash_machine.Kvs.{Kvs, update_cache}
use kvs_cash_machine.Kvs.Room.{HasRoom, Cached, put_or_displace_lem}
use kvs_cash_machine.Outcome.{ok}
use kvs_cash_machine.Probe.Seek.{is_absent}
use kvs_cash_machine.Probe.Table.{view}
use kvs_cash_machine.Ptr.{Ptr, nonexistent_v}
use kvs_cash_machine.Shard.{hash}
use kvs_cash_machine.Shard.Sound.{raw}
use kvs_cash_machine.ShardBuilder.Loop.{marks}
use kvs_cash_machine.ShardBuilder.Step.{cached, mark, mark_uncached, mark_deleted, mark_present}
use kvs_cash_machine.StorageHashTable.Entries.{listed, listed-here, listed-there, AreDistinct}
use kvs_cash_machine.StorageHashTable.{StorageHashTable}

module _ (xxh3 : ByteArray → ℕ → ℕ) (m : CacheMap) (t : StorageHashTable) where
  -- The pointer's byte that a key of the cache map `m` gets.
  abbrev pub fresh : Key → ℕ
  fresh q = if ltb (cached m q) 128 then nonexistent_v else raw t q

  -- What the loop needs before it comes to the entries `es`.
  pub record Pending (es : List Entry) (s : Kvs) : Type 0 where
    pub distinct : AreDistinct es
    pub cache : CacheMap.Valid.IsValid (hash xxh3) s.cache_map
    pub room : HasRoom s.cache_map
    pub same : (q : Key) → listed es q ≢ 127 → cached s.cache_map q ≡ cached m q
    pub kinds :
        (q : Key)
        → listed es q ≢ 127
        → (cached m q ≡ 127) ⊎ ((cached m q < 126) ⊎ ((128 ≤ cached m q) × (128 ≤ raw t q)))

  -- The keys of the entries `es` that the cache map has got their new bytes, and no other.
  pub record Marked (es : List Entry) (s : Kvs) (m' : CacheMap) : Type 0 where
    pub cache : CacheMap.Valid.IsValid (hash xxh3) m'
    pub size : length m'.entries ≡ length s.cache_map.entries
    pub used : m'.used_size ≡ s.cache_map.used_size
    pub changed : (q : Key) → listed es q ≢ 127 → cached m q ≢ 127 → cached m' q ≡ fresh q
    pub others :
        (q : Key) → (listed es q ≡ 127) ⊎ (cached m q ≡ 127) → cached m' q ≡ cached s.cache_map q

  module _ (e : Entry) (es : List Entry) (s : Kvs) (pending : Pending (e ∷ es) s) where
    gone : listed es e.key ≡ 127
    gone = ap Ptr.raw pending.distinct.1

    there : (q : Key) → Key.eq e.key q ≡ false → listed (e ∷ es) q ≡ listed es q
    there q other = ap Ptr.raw (listed-there e es pending.distinct.0 q other)

    here : listed (e ∷ es) e.key ≢ 127
    here z = ground (arith, ap Ptr.raw (listed-here e es pending.distinct.0), pending.distinct.0)

    apart : (q : Key) → listed es q ≢ 127 → Key.eq e.key q ≡ false
    apart =
        by_key e.key (λ q. listed es q ≢ 127 → Key.eq e.key q ≡ false) (λ ne. absurd (ne gone))
          (λ q other _. other)

    widen : (q : Key) → listed es q ≢ 127 → listed (e ∷ es) q ≢ 127
    widen q ne z = ne (sym (there q (apart q ne)) ∙ z)

    -- The key is not in the cache map, and no entry is given back.
    skip : Pending es s
    skip = record {
      distinct = pending.distinct.2;
      cache = pending.cache;
      room = pending.room;
      same = λ q ne. pending.same q (widen q ne);
      kinds = λ q ne. pending.kinds q (widen q ne);
    }

    skip-Marked : (m' : CacheMap) → cached m e.key ≡ 127 → Marked es s m' → Marked (e ∷ es) s m'
    skip-Marked m' z rest = record {
      cache = rest.cache;
      size = rest.size;
      used = rest.used;
      changed =
          by_key e.key (λ q. listed (e ∷ es) q ≢ 127 → cached m q ≢ 127 → cached m' q ≡ fresh q)
            (λ _ ne. absurd (ne z)) (λ q other ne. rest.changed q (λ y. ne (there q other ∙ y)));
      others =
          by_key e.key
            (λ q.
              (listed (e ∷ es) q ≡ 127) ⊎ (cached m q ≡ 127) → cached m' q ≡ cached s.cache_map q)
            (λ _. rest.others e.key (inl gone))
            (λ q other c.
              rest.others q (elim c [ inl y ↦ inl (sym (there q other) ∙ y) | inr y ↦ inr y ]));
    }

    pointer :
        (cached m e.key < 126) ⊎ ((128 ≤ cached m e.key) × (128 ≤ raw t e.key))
        → (p : Ptr) × (mark m e.key (view t.entries e.key) ≡ record { key = e.key; ptr = p } ∷ [])
          × (p.raw ≡ fresh e.key)
          × (p.raw ≢ 127)
    pointer (inl low) = (
      record { raw = nonexistent_v },
      mark_deleted m e.key (view t.entries e.key) low,
      rw (lt→ltb (cached m e.key) 128 (omega arith)) refl,
      λ z. omega (arith, z),
    )
    pointer (inr (high, there)) = (
      view t.entries e.key,
      mark_present m e.key (view t.entries e.key) high,
      rw (le→ltb_false (cached m e.key) 128 high) refl,
      λ z. omega (arith, z, there),
    )

    -- The key's entry is given back, and put into the cache map.
    module _ (p : Ptr) (m₁ : CacheMap)
        (put : Cached xxh3 s pending.cache (record { key = e.key; ptr = p }) m₁)
        (known : cached m e.key ≢ 127) (right : p.raw ≡ fresh e.key) (random : ℕ → ℕ) where
      abbrev s₁ : Kvs
      s₁ = record s { cache_map = m₁; random = random }

      same_used : m₁.used_size ≡ s.cache_map.used_size
      same_used =
          let stored : is_absent s.cache_map.entries e.key ≡ false =
            ground (arith, pending.same e.key here, known) in
          put.used ∙ rw stored (omega arith)

      still : HasRoom m₁
      still = omega (arith, same_used, put.size, pending.room)

      move : Pending es s₁
      move = record {
        distinct = pending.distinct.2;
        cache = put.cache;
        room = still;
        same = λ q ne. ap Ptr.raw (put.others q (apart q ne)) ∙ pending.same q (widen q ne);
        kinds = λ q ne. pending.kinds q (widen q ne);
      }

      move-Marked : (m' : CacheMap) → Marked es s₁ m' → Marked (e ∷ es) s m'
      move-Marked m' rest = record {
        cache = rest.cache;
        size = rest.size ∙ put.size;
        used = rest.used ∙ same_used;
        changed =
            by_key e.key (λ q. listed (e ∷ es) q ≢ 127 → cached m q ≢ 127 → cached m' q ≡ fresh q)
              (λ _ _. rest.others e.key (inl gone) ∙ ap Ptr.raw put.self ∙ right)
              (λ q other ne. rest.changed q (λ y. ne (there q other ∙ y)));
        others =
            by_key e.key
              (λ q.
                (listed (e ∷ es) q ≡ 127) ⊎ (cached m q ≡ 127) → cached m' q ≡ cached s.cache_map q)
              (λ c. elim c [ inl y ↦ absurd (here y) | inr y ↦ absurd (known y) ])
              (λ q other c.
                rest.others q (elim c [ inl y ↦ inl (sym (there q other) ∙ y) | inr y ↦ inr y ])
                ∙ ap Ptr.raw (put.others q other));
      }

  -- The loop ends without an error: nothing is displaced.
  pub update_cache-Marked :
      (es : List Entry) (s : Kvs)
      → Pending es s
      → (m' : CacheMap) × (random : ℕ → ℕ) × (update_cache xxh3 (marks m es t) s
          ≡ (ok tt, record s { cache_map = m'; random = random }))
        × Marked es s m'
  unfolding update_cache marks view
  update_cache-Marked [] s pending = (
    s.cache_map,
    s.random,
    refl,
    record {
      cache = pending.cache;
      size = refl;
      used = refl;
      changed = λ q ne. absurd (ne refl);
      others = λ q _. refl;
    },
  )
  update_cache-Marked (e ∷ es) s pending = elim (pending.kinds e.key (here e es s pending)) [
    | inl z ↦
        let (m', random, eq, marked) = update_cache-Marked es s (skip e es s pending) in
        (
          m',
          random,
          rw (mark_uncached m e.key (view t.entries e.key) z) eq,
          skip-Marked e es s pending m' z marked,
        )
    | inr alive ↦
        let known : cached m e.key ≢ 127 = (λ z. elim alive [
          | inl low ↦ omega (arith, z, low)
          | inr high ↦ omega (arith, z, high.0)
        ]) in
        let (p, mark-p, right, used) = pointer e es s pending alive in
        let (m₁, put-p, put) =
          put_or_displace_lem xxh3 s pending.cache (record { key = e.key; ptr = p }) pending.room
            (ground arith) in
        let shifted : ℕ → ℕ = (λ n. s.random (suc n)) in
        let (m', random, eq, marked) =
          update_cache-Marked es (record s { cache_map = m₁; random = shifted })
            (move e es s pending p m₁ put known right shifted) in
        (
          m',
          random,
          rw (mark-p, put-p) eq,
          move-Marked e es s pending p m₁ put known right shifted m' marked,
        )
  ]
