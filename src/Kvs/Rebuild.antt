-- ===== src/Kvs/Rebuild.antt =====
-- `rebuildShard` of src/KVS.cpp, where the cache map has room.
use kvs_cash_machine.ByteArray.{ByteArray}
use kvs_cash_machine.CacheMap.{CacheMap}
use kvs_cash_machine.Common.{
  ℕ, suc, ◌*◌, ◌≤◌, ◌<◌, ◌≡◌, ◌≢◌, ◌∙◌, ◌⊎◌, inl, inr, sym, ap, refl, Option, none, if◌then◌else◌,
  lt→ltb, le→ltb_false, true, Bool-cases, set, set-set, List, arith,
}
use mathlib.Core.Path.{subst}
use native.Mathlib.Decide.{ℕ_discrete, dec_lt}
use kvs_cash_machine.Constants.{shard_number}
use kvs_cash_machine.Disk.{Disk}
use kvs_cash_machine.Entry.{Entry}
use kvs_cash_machine.Key.{Key}
use kvs_cash_machine.Kvs.{Kvs, rebuild_shard, draw}
use kvs_cash_machine.Kvs.Counter.{alive_high}
use kvs_cash_machine.Kvs.Became.{Settled}
use kvs_cash_machine.Kvs.After.{after}
use kvs_cash_machine.Kvs.Moved.{Moved, now-Represents, now-Settled}
use kvs_cash_machine.Kvs.Room.{HasRoom, on_shard_lem}
use kvs_cash_machine.Kvs.Stages.{lookup_low, lookup_high}
use kvs_cash_machine.Kvs.UpdateCache.{Pending, Marked, update_cache-Marked}
use kvs_cash_machine.Kvs.Valid.{state_at, Coherent, lookup, Represents, alive}
use kvs_cash_machine.Outcome.{ok}
use kvs_cash_machine.Ptr.{Ptr}
use kvs_cash_machine.Shard.{Shard, State, hash}
use kvs_cash_machine.Shard.Sound.{raw, raw-lt, contents, contents_low}
use kvs_cash_machine.ShardBuilder
use kvs_cash_machine.ShardBuilder.RebuildShard.{Refreshed, rebuild_shard-Refreshed}
use kvs_cash_machine.ShardBuilder.Step.{
  cached, Agrees, kept, kept_dead, kept_alive, kept_deleted, kept_present,
}
use kvs_cash_machine.StorageHashTable.Entries.{listed, get_entries_lem}
use kvs_cash_machine.StorageHashTable.{StorageHashTable, get_entries}
use kvs_cash_machine.Value.{Value}

module _ (xxh3 : ByteArray → ℕ → ℕ) (f : Key → Option Value) (s : Kvs) (r : Represents xxh3 f s)
    (n : ℕ) (lt : n < shard_number) where
  abbrev t : StorageHashTable
  t = r.tables n

  abbrev v : ByteArray
  v = r.files n

  -- The cache map has no key as NONEXISTENT that the shard's table has.
  abbrev pub NoneForgotten : Type 0
  NoneForgotten = (k : Key) → raw t k ≢ 127 → cached s.cache_map k ≢ 126

  Coherent-here : (k : Key) → raw t k ≢ 127 → Coherent (cached s.cache_map k) (raw t k)
  Coherent-here k ne =
      subst (λ j. Coherent (cached s.cache_map k) (raw (r.tables j) k)) (r.valid.own n k lt ne)
        (r.valid.coherent k)

  module _ (known : NoneForgotten) where
    -- What the cache map has for a key of the table.
    kinds :
        (k : Key)
        → raw t k ≢ 127
        → (cached s.cache_map k ≡ 127)
          ⊎ ((cached s.cache_map k < 126) ⊎ (128 ≤ cached s.cache_map k))
    kinds k ne = elim (ℕ_discrete (cached s.cache_map k) 127) [
      | yes e ↦ inl e
      | no ne' ↦ inr (elim (dec_lt (cached s.cache_map k) 128) [
        | yes low ↦ inl (omega (arith, known k ne))
        | no high ↦ inr (omega arith)
      ])
    ]

    agrees : (k : Key) → raw t k ≢ 127 → Agrees s.cache_map t k
    agrees k ne =
        let c = Coherent-here k ne in
        record {
          byte = c.byte;
          known = known k ne;
          present = λ high. omega (arith, c.present high, high);
        }

    module _ (new : Shard) (updated : List Entry) (d : Disk) (t' : StorageHashTable)
        (v' : ByteArray)
        (fine : Refreshed xxh3 n s.cache_map r.valid.cache (state_at s n) t v new updated d t' v')
        (random₁ : ℕ → ℕ) where
      abbrev s' : State
      s' = record { shard = new; disk = d }

      abbrev between : Kvs
      between = record {
        shards = set s.shards n new;
        cache_map = s.cache_map;
        disk = d;
        random = random₁;
      }

      listed-raw : (k : Key) → listed (get_entries t) k ≡ raw t k
      listed-raw k =
          ap Ptr.raw ((get_entries_lem (hash xxh3) t (r.valid.holds n lt).table.probed).0 k)

      pending : HasRoom s.cache_map → Pending xxh3 s.cache_map t' (get_entries t) between
      pending room = record {
        distinct = (get_entries_lem (hash xxh3) t (r.valid.holds n lt).table.probed).1;
        cache = r.valid.cache;
        room = room;
        same = λ q _. refl;
        kinds = λ q ne.
            let stored : raw t q ≢ 127 = (λ z. ne (listed-raw q ∙ z)) in
            elim (kinds q stored) [
              | inl e ↦ inl e
              | inr (inl low) ↦ inr (inl low)
              | inr (inr high) ↦
                  inr (inr (high, fine.copied q stored (kept_present s.cache_map q t high)))
            ];
      }

      module _ (m' : CacheMap) (marked : Marked xxh3 s.cache_map t' (get_entries t) between m')
          (random : ℕ → ℕ) where
        abbrev now : Kvs
        now = after s n s' m' random

        abbrev m : CacheMap
        m = s.cache_map

        unchanged : (k : Key) → raw t k ≡ 127 → cached m' k ≡ cached m k
        unchanged k e = marked.others k (inl (listed-raw k ∙ e))

        uncached : (k : Key) → cached m k ≡ 127 → cached m' k ≡ 127
        uncached k e = marked.others k (inr e) ∙ e

        deleted : (k : Key) → raw t k ≢ 127 → cached m k < 126 → cached m' k ≡ 126
        deleted k ne low =
            marked.changed k (λ z. ne (sym (listed-raw k) ∙ z)) (λ z. omega (arith, z, low))
            ∙ rw (lt→ltb (cached m k) 128 (omega (arith, low))) refl

        present : (k : Key) → raw t k ≢ 127 → 128 ≤ cached m k → cached m' k ≡ raw t' k
        present k ne high =
            marked.changed k (λ z. ne (sym (listed-raw k) ∙ z)) (λ z. omega (arith, z, high))
            ∙ rw (le→ltb_false (cached m k) 128 high) refl

        Coherent-inside : (k : Key) → raw t k ≢ 127 → Coherent (cached m' k) (raw t' k)
        Coherent-inside k ne = elim (kinds k ne) [
          | inl e ↦
              let c = uncached k e in
              record {
                byte = omega (arith, c);
                present = λ z. absurd (omega (arith, c, z));
                deleted = λ z. absurd (omega (arith, c, z));
                nonexistent = λ z. absurd (omega (arith, c, z));
              }
          | inr (inl low) ↦
              let c = deleted k ne low in
              let e = fine.dropped k ne (kept_deleted m k t low) in
              record {
                byte = omega (arith, c);
                present = λ z. absurd (omega (arith, c, z));
                deleted = λ z. absurd (omega (arith, c, z));
                nonexistent = λ _. omega (arith, e);
              }
          | inr (inr high) ↦
              let c = present k ne high in
              let there = fine.copied k ne (kept_present m k t high) in
              record {
                byte = omega (arith, c, raw-lt xxh3 t' v' fine.holds.sound k);
                present = λ _. c;
                deleted = λ z. absurd (omega (arith, c, z, there));
                nonexistent = λ z. absurd (omega (arith, c, z, there));
              }
        ]

        kept_reads :
            (k : Key)
            → cached m k ≡ 127
            → (if kept m t k then contents t v k else none) ≡ contents t v k
        kept_reads k e = elim (dec_lt (raw t k) 128) [
          | yes dead ↦ rw (kept_dead m k t e dead) (sym (contents_low t v k dead))
          | no alive ↦ rw (kept_alive m k t e (omega arith)) refl
        ]

        reads_inside : (k : Key) → raw t k ≢ 127 → lookup m t v k ≡ lookup m' t' v' k
        reads_inside k ne = elim (kinds k ne) [
          | inl e ↦
              lookup_high m t v k (omega (arith, e))
              ∙ sym (
                  lookup_high m' t' v' k (omega (arith, uncached k e))
                  ∙ fine.reads k
                  ∙ kept_reads k e)
          | inr (inl low) ↦
              lookup_low m t v k (omega (arith, low))
              ∙ sym (lookup_low m' t' v' k (omega (arith, deleted k ne low)))
          | inr (inr high) ↦
              let there = fine.copied k ne (kept_present m k t high) in
              lookup_high m t v k (omega (arith, high))
              ∙ sym (
                  lookup_high m' t' v' k (omega (arith, present k ne high, there))
                  ∙ fine.reads k
                  ∙ rw (kept_present m k t high) refl)
        ]

        -- All keys of the new table have a value.
        refreshed_alive : (k : Key) → raw t' k ≢ 127 → alive m' t' k ≡ true
        refreshed_alive k there =
            let stored : raw t k ≢ 127 = (λ z. there (fine.absent k z)) in
            elim (kinds k stored) [
              | inl e ↦ elim (Bool-cases (kept m t k)) [
                | inl yes' ↦
                    alive_high m' t' k (omega (arith, uncached k e)) (fine.copied k stored yes')
                | inr no' ↦ absurd (there (fine.dropped k stored no'))
              ]
              | inr (inl low) ↦ absurd (there (fine.dropped k stored (kept_deleted m k t low)))
              | inr (inr high) ↦
                  let here = fine.copied k stored (kept_present m k t high) in
                  alive_high m' t' k (omega (arith, present k stored high, here)) here
            ]

        marked-Moved : Moved xxh3 m t v m' t' v'
        marked-Moved = record {
          cache = marked.cache;
          size = marked.size;
          unchanged = unchanged;
          absent = fine.absent;
          coherent = Coherent-inside;
          reads = reads_inside;
          alive = refreshed_alive;
          covered = λ k stored before there. elim before [
            | inl low ↦ absurd (there (fine.dropped k stored (kept_deleted m k t low)))
            | inr high ↦
                let here = fine.copied k stored (kept_present m k t high) in
                omega (arith, present k stored high, here)
          ];
        }

    -- `rebuildShard` of a shard for which it is due, in a valid store whose cache map has room, and has
    -- no key as NONEXISTENT that the shard's table has, succeeds with all its assertions, and leaves
    -- a valid store with the same values, in which no rebuild of the shard is due.
    pub rebuild_shard-Represents :
        HasRoom s.cache_map
        → 2 * (state_at s n).shard.alive_values_cnt < t.used_size
        → (s' : Kvs) × (rebuild_shard xxh3 n s ≡ (ok tt, s'))
          × (r' : Represents xxh3 f s') × Settled xxh3 f f s s' r r' n
    unfolding rebuild_shard draw
    rebuild_shard-Represents room due =
        let (new, updated, d, t', v', rebuilt, fine) =
          rebuild_shard-Refreshed xxh3 n s.cache_map r.valid.cache (state_at s n) t v
            (r.valid.holds n lt) agrees (s.random 0) (s.random 1) due in
        let random₁ : ℕ → ℕ = (λ k. s.random (suc (suc k))) in
        let (m', random, updates, marked) =
          update_cache-Marked xxh3 s.cache_map t' (get_entries t)
            (between new updated d t' v' fine random₁)
            (pending new updated d t' v' fine random₁ room) in
        (
          after s n (record { shard = new; disk = d }) m' random,
          rw
              (
                on_shard_lem n
                    (ShardBuilder.rebuild_shard xxh3 n s.cache_map (s.random 0) (s.random 1))
                    (record s { random = random₁ }) _ (record (state_at s n) { disk = d }) rebuilt,
                set-set s.shards n (state_at s n).shard new,
                fine.updates,
              )
              updates,
          now-Represents xxh3 f s r n lt new d t' v' fine.holds fine.framed fine.count fine.fewer m'
              (marked-Moved new updated d t' v' fine random₁ m' marked random) random,
          now-Settled xxh3 f s r n lt new d t' v' fine.holds fine.framed fine.count fine.fewer m'
              (marked-Moved new updated d t' v' fine random₁ m' marked random) random
              (omega (arith, marked.used)),
        )
