-- ===== src/Kvs/Left.antt =====
-- The keys of a store of src/KVS.cpp after an entry was displaced from its cache map.
use kvs_cash_machine.ByteArray.{ByteArray}
use kvs_cash_machine.CacheMap.{CacheMap}
use kvs_cash_machine.Common.{
  ℕ, ◌≤◌, ◌<◌, ◌≡◌, ◌≢◌, ◌∙◌, inl, inr, sym, ap, refl, false, Bool-cases, Option, arith,
}
use mathlib.Core.Path.{subst}
use native.Mathlib.Decide.{ℕ_discrete, dec_lt}
use kvs_cash_machine.Entry.{Entry}
use kvs_cash_machine.Key
use kvs_cash_machine.Key.{Key}
use kvs_cash_machine.Key.Laws.{eq_iff}
use kvs_cash_machine.Kvs.{Kvs}
use kvs_cash_machine.Kvs.Counter.{alive_low, alive_dead, alive_high, alive_same}
use kvs_cash_machine.Kvs.Kept.{Kept}
use kvs_cash_machine.Kvs.Stages.{lookup_low, lookup_high}
use kvs_cash_machine.Kvs.Valid.{alive, Coherent, lookup, Represents}
use kvs_cash_machine.Shard.{get_shard_index}
use kvs_cash_machine.Shard.Sound.{raw, contents, contents_low}
use kvs_cash_machine.ShardBuilder.Step.{cached}
use kvs_cash_machine.StorageHashTable.{StorageHashTable}
use kvs_cash_machine.Value.{Value}

module _ (xxh3 : ByteArray → ℕ → ℕ) (f : Key → Option Value) (s : Kvs) (r : Represents xxh3 f s)
    (key : Key) (d : Entry) (now : Kvs) (tables : ℕ → StorageHashTable)
    (files : ℕ → ByteArray) where
  abbrev m : CacheMap
  m = s.cache_map

  abbrev m' : CacheMap
  m' = now.cache_map

  abbrev j : ℕ
  j = get_shard_index xxh3 d.key

  -- The displaced entry `d` left the cache map, and if it was a deleted one, the value left its shard.
  -- Other keys than `key` and the displaced one are as before.
  pub record Left : Type 0 where
    pub cached_other :
        (q : Key) → Key.eq key q ≡ false → Key.eq d.key q ≡ false → cached m' q ≡ cached m q
    pub raw_other :
        (q : Key)
        → Key.eq key q ≡ false
        → Key.eq d.key q ≡ false
        → (x : ℕ) → raw (tables x) q ≡ raw (r.tables x) q
    pub contents_other :
        (q : Key)
        → Key.eq key q ≡ false
        → Key.eq d.key q ≡ false
        → (x : ℕ) → contents (tables x) (files x) q ≡ contents (r.tables x) (r.files x) q
    pub was_cached : cached m d.key ≡ d.ptr.raw
    pub used : d.ptr.raw ≢ 127
    pub gone : Key.eq key d.key ≡ false → cached m' d.key ≡ 127
    pub dead_raw : Key.eq key d.key ≡ false → d.ptr.raw < 126 → raw (tables j) d.key < 128
    pub same_raw :
        Key.eq key d.key ≡ false → 126 ≤ d.ptr.raw → raw (tables j) d.key ≡ raw (r.tables j) d.key
    pub same_contents :
        Key.eq key d.key ≡ false
        → 126 ≤ d.ptr.raw
        → contents (tables j) (files j) d.key ≡ contents (r.tables j) (r.files j) d.key
    pub apart_raw :
        Key.eq key d.key ≡ false → (x : ℕ) → j ≢ x → raw (tables x) d.key ≡ raw (r.tables x) d.key

  module _ (k : Left) where
    -- A key that was not displaced is as it was.
    other-Kept :
        (q : Key)
        → Key.eq key q ≡ false
        → Key.eq d.key q ≡ false
        → Kept xxh3 f s r now tables files q
    unfolding lookup
    other-Kept q other apart =
        let here : (x : ℕ) → raw (tables x) q ≡ raw (r.tables x) q = k.raw_other q other apart in
        let same = k.cached_other q other apart in
        let x = get_shard_index xxh3 q in
        record {
          stored = λ x _ ne z. ne (here x ∙ z);
          coherent = rw (same, here x) (r.valid.coherent q);
          reads = rw (same, k.contents_other q other apart x) refl;
          counted = λ x _. alive_same m m' (r.tables x) (tables x) q same (here x);
        }

    module _ (other : Key.eq key d.key ≡ false) where
      Coherent-before : Coherent d.ptr.raw (raw (r.tables j) d.key)
      Coherent-before =
          subst (λ x. Coherent x (raw (r.tables j) d.key)) k.was_cached (r.valid.coherent d.key)

      displaced_reads :
          contents (tables j) (files j) d.key ≡ lookup m (r.tables j) (r.files j) d.key
      displaced_reads = elim (dec_lt d.ptr.raw 126) [
        | yes low ↦
            contents_low (tables j) (files j) d.key (k.dead_raw other low)
            ∙ sym (lookup_low m (r.tables j) (r.files j) d.key (omega (arith, k.was_cached, low)))
        | no more ↦ elim (ℕ_discrete d.ptr.raw 126) [
          | yes e ↦
              contents_low (tables j) (files j) d.key
                (omega (arith, k.same_raw other (omega (arith, e)), Coherent-before.nonexistent e))
              ∙ sym (lookup_low m (r.tables j) (r.files j) d.key (omega (arith, k.was_cached, e)))
          | no ne ↦
              k.same_contents other (omega (arith, more))
              ∙ sym (
                  lookup_high m (r.tables j) (r.files j) d.key
                    (omega (arith, k.was_cached, more, ne)))
        ]
      ]

      displaced_counted : alive m' (tables j) d.key ≡ alive m (r.tables j) d.key
      displaced_counted = elim (dec_lt d.ptr.raw 126) [
        | yes low ↦
            alive_dead m' (tables j) d.key (k.dead_raw other low)
            ∙ sym (alive_low m (r.tables j) d.key (omega (arith, k.was_cached, low)))
        | no more ↦ elim (ℕ_discrete d.ptr.raw 126) [
          | yes e ↦
              alive_dead m' (tables j) d.key
                (omega (arith, k.same_raw other (omega (arith, e)), Coherent-before.nonexistent e))
              ∙ sym (alive_low m (r.tables j) d.key (omega (arith, k.was_cached, e)))
          | no ne ↦
              let used : d.ptr.raw ≢ 127 = k.used in
              let high : 128 ≤ d.ptr.raw = omega (arith, more, ne, used) in
              let there : 128 ≤ raw (r.tables j) d.key =
                omega (arith, Coherent-before.present high, high) in
              alive_high m' (tables j) d.key (omega (arith, k.gone other))
                (omega (arith, k.same_raw other (omega (arith, high)), there))
              ∙ sym (alive_high m (r.tables j) d.key (omega (arith, k.was_cached, high)) there)
        ]
      ]

      -- The displaced key is as it was.
      displaced-Kept : Kept xxh3 f s r now tables files d.key
      displaced-Kept = record {
        stored = λ x lt ne z. elim (ℕ_discrete j x) [
          | yes e ↦ elim (dec_lt d.ptr.raw 126) [
            | yes low ↦
                let there = Coherent-before.deleted low in
                absurd (
                  let z' : raw (r.tables j) d.key ≡ 127 = ap (λ x. raw (r.tables x) d.key) e ∙ z in
                  omega (arith, z', there, low))
            | no more ↦ ne (
                subst (λ x. raw (tables x) d.key ≡ raw (r.tables x) d.key) e
                  (k.same_raw other (omega (arith, more)))
                ∙ z)
          ]
          | no apart ↦ ne (k.apart_raw other x apart ∙ z)
        ];
        coherent = record {
          byte = omega (arith, k.gone other);
          present = λ z. absurd (omega (arith, k.gone other, z));
          deleted = λ z. absurd (omega (arith, k.gone other, z));
          nonexistent = λ z. absurd (omega (arith, k.gone other, z));
        };
        reads =
            lookup_high m' (tables j) (files j) d.key (omega (arith, k.gone other))
            ∙ displaced_reads;
        counted = λ x lt. elim (ℕ_discrete j x) [
          | yes e ↦
              subst (λ x. alive m' (tables x) d.key ≡ alive m (r.tables x) d.key) e
                displaced_counted
          | no apart ↦
              let absent : raw (r.tables x) d.key ≡ 127 =
                elim (ℕ_discrete (raw (r.tables x) d.key) 127) [
                  | yes z ↦ z
                  | no there ↦ absurd (apart (r.valid.own x d.key lt there))
                ] in
              alive_dead m' (tables x) d.key (omega (arith, k.apart_raw other x apart, absent))
              ∙ sym (alive_dead m (r.tables x) d.key (omega (arith, absent)))
        ];
      }

    pub all-Kept : (q : Key) → Key.eq key q ≡ false → Kept xxh3 f s r now tables files q
    all-Kept q other = elim (Bool-cases (Key.eq d.key q)) [
      | inl same ↦
          subst (λ q. Key.eq key q ≡ false → Kept xxh3 f s r now tables files q)
            ((eq_iff d.key q).0 same) displaced-Kept other
      | inr apart ↦ other-Kept q other apart
    ]
