-- ===== src/ShardBuilder/Step.antt =====
-- One round of the loop of `rebuildShard` of src/ShardBuilder.cpp, for each type of the pointer that
-- the cache map has for the key.
use kvs_cash_machine.ByteArray.{ByteArray}
use kvs_cash_machine.CacheMap.{CacheMap}
use kvs_cash_machine.Common.{
  ℕ, ◌+◌, ◌<◌, ◌≤◌, ◌≡◌, ◌≢◌, inl, inr, ◌∙◌, sym, ap, refl, Bool, Bool-cases, true, false, none,
  some, if◌then◌else◌, ltb, leb, ◌==◌, List, [], ◌∷◌, ◌++◌, arith,
}
use mathlib.Core.Bool.{false≢true}
use mathlib.Core.List.{append-nil}
use mathlib.Core.Path.{subst}
use native.Mathlib.Decide.{dec_lt, ℕ_discrete}
use kvs_cash_machine.Disk.{Disk, values, rebuilt}
use kvs_cash_machine.Entry.{Entry}
use kvs_cash_machine.Key
use kvs_cash_machine.Key.{Key}
use kvs_cash_machine.Key.Laws.{eq_iff}
use kvs_cash_machine.Outcome.{ok}
use kvs_cash_machine.Probe.Table.{view}
use kvs_cash_machine.Ptr
use kvs_cash_machine.Ptr.Laws.{get_type-empty_ptr, get_type-deleted, get_type-present}
use kvs_cash_machine.Ptr.{Ptr, PtrType, present, deleted, empty_ptr, nonexistent, nonexistent_v}
use kvs_cash_machine.Shard.Change.{Change-self, Change-other}
use kvs_cash_machine.Shard.Sound.{
  Sound, raw, contents, contents_low, entry-cases, type_present, type_deleted,
}
use kvs_cash_machine.ShardBuilder.Copy.{OnlyFile, Running, Copied, copy_entry-Copied}
use kvs_cash_machine.ShardBuilder.{Rebuild, rebuild_by_type}
use kvs_cash_machine.StorageHashTable.{StorageHashTable}

-- The byte of the pointer that the cache map has for a key.
abbrev pub cached : CacheMap → Key → ℕ
cached m k = (view m.entries k).raw

-- What the cache map may say of a key that the table has: not NONEXISTENT, and present only if the
-- table says so too.
pub record Agrees (m : CacheMap) (t : StorageHashTable) (k : Key) : Type 0 where
  pub byte : cached m k < 256
  pub known : cached m k ≢ nonexistent_v
  pub present : 128 ≤ cached m k → 128 ≤ raw t k

-- Whether a rebuild keeps the value of a key in the table: the cache map decides, and the table
-- where the cache map does not have the key.
unfoldable pub kept : CacheMap → StorageHashTable → Key → Bool
kept m t k = if cached m k == 127 then leb 128 (raw t k) else leb 128 (cached m k)

-- The entry that a rebuild gives back for the cache map, if that has the key: NONEXISTENT for a
-- removed value, and the new pointer `p` for a present one.
unfoldable pub mark : CacheMap → Key → Ptr → List Entry
mark m k p =
    if cached m k == 127
    then []
    else if ltb (cached m k) 128
    then record { key = k; ptr = record { raw = nonexistent_v } } ∷ []
    else record { key = k; ptr = p } ∷ []

module _ (m : CacheMap) (k : Key) where
  module _ (t : StorageHashTable) where
    pub kept_dead : cached m k ≡ 127 → raw t k < 128 → kept m t k ≡ false
    unfolding kept
    kept_dead e dead = ground arith

    pub kept_alive : cached m k ≡ 127 → 128 ≤ raw t k → kept m t k ≡ true
    unfolding kept
    kept_alive e alive = ground arith

    pub kept_deleted : cached m k < 126 → kept m t k ≡ false
    unfolding kept
    kept_deleted low = ground arith

    pub kept_present : 128 ≤ cached m k → kept m t k ≡ true
    unfolding kept
    kept_present high = ground arith

  module _ (p : Ptr) where
    pub mark_uncached : cached m k ≡ 127 → mark m k p ≡ []
    unfolding mark
    mark_uncached e = ground arith

    pub mark_deleted :
        cached m k < 126
        → mark m k p ≡ record { key = k; ptr = record { raw = nonexistent_v } } ∷ []
    unfolding mark
    mark_deleted low = ground arith

    pub mark_present : 128 ≤ cached m k → mark m k p ≡ record { key = k; ptr = p } ∷ []
    unfolding mark
    mark_present high = ground arith

module _ (xxh3 : ByteArray → ℕ → ℕ) (i : ℕ) (m : CacheMap) (t : StorageHashTable) (v : ByteArray)
    (old : Sound xxh3 t v) where
  -- A round for the key `k`: its value is in the new table exactly if it is kept.
  pub record Stepped (k : Key) (r : Rebuild) (d : Disk) (w : ByteArray) (r' : Rebuild) (d' : Disk)
      (w' : ByteArray) : Type 0 where
    pub running : Running xxh3 i r' d' w'
    pub pointers : (q : Key) → Key.eq k q ≡ false → view r'.table.entries q ≡ view r.table.entries q
    pub copied : kept m t k ≡ true → 128 ≤ raw r'.table k
    pub dropped : kept m t k ≡ false → raw r'.table k ≡ 127
    pub reads :
        (q : Key)
        → contents r'.table w' q ≡ (
            if Key.eq k q
            then (if kept m t k then contents t v k else none)
            else contents r.table w q)
    pub used : r'.table.used_size ≤ r.table.used_size + 1
    pub updated : r'.updated ≡ r.updated ++ mark m k (view r'.table.entries k)
    pub only : OnlyFile (rebuilt (values i)) d d'

  module _ (k : Key) (stored : raw t k ≢ 127) (agrees : Agrees m t k) (r : Rebuild) (d : Disk)
      (w : ByteArray) (run : Running xxh3 i r d w) (there : d.file (values i) ≡ some v)
      (new : raw r.table k ≡ 127) (room : r.table.used_size < 45) where
    abbrev entry : Entry
    entry = record { key = k; ptr = view t.entries k }

    abbrev Step : PtrType → Type 0
    Step type =
        (r' : Rebuild) × (d' : Disk) × (w' : ByteArray) × (rebuild_by_type xxh3 i entry r type d
          ≡ (ok r', d'))
        × Stepped k r d w r' d' w'

    same : OnlyFile (rebuilt (values i)) d d
    same = record { files = λ q ne. refl; directories = λ j. refl }

    reads_skipped :
        kept m t k ≡ false
        → (q : Key)
        → contents r.table w q ≡ (
            if Key.eq k q
            then (if kept m t k then contents t v k else none)
            else contents r.table w q)
    reads_skipped skipped q = elim (Bool-cases (Key.eq k q)) [
      | inl at_key ↦
          rw (at_key, skipped)
            (ap (contents r.table w) (sym ((eq_iff k q).0 at_key))
              ∙ contents_low r.table w k (omega arith))
      | inr other ↦ rw other
    ]

    -- A round that copies nothing, and may mark the key.
    skip :
        (u : List Entry)
        → kept m t k ≡ false
        → u ≡ r.updated ++ mark m k (view r.table.entries k)
        → Stepped k r d w (record r { updated = u }) d w
    skip u skipped marked = record {
      running = record { sound = run.sound; opened = run.opened; path = run.path };
      pointers = λ q other. refl;
      copied = λ yes'. absurd (false≢true (sym skipped ∙ yes'));
      dropped = λ _. new;
      reads = reads_skipped skipped;
      used = omega arith;
      updated = marked;
      only = same;
    }

    -- A round that copies the value, and may mark the key.
    copy :
        kept m t k ≡ true
        → (p : Ptr) (r' : Rebuild) (d' : Disk) (w' : ByteArray)
        → Copied xxh3 i t v old k r d w p r' d' w'
        → (u : List Entry) → u ≡ r'.updated ++ mark m k p
        → Stepped k r d w (record r' { updated = u }) d' w'
    copy keep p r' d' w' c u marked = record {
      running = record {
        sound = c.running.sound;
        opened = c.running.opened;
        path = c.running.path;
      };
      pointers = λ q other. Change-other xxh3 c.change q other;
      copied = λ _. omega (arith, ap Ptr.raw (Change-self xxh3 c.change), c.present);
      dropped = λ no'. absurd (false≢true (sym no' ∙ keep));
      reads = λ q. c.reads q ∙ rw keep refl;
      used = omega (arith, c.used);
      updated =
          marked
          ∙ ap (λ x. x ++ mark m k p) c.updated
          ∙ ap (λ x. r.updated ++ mark m k x) (sym (Change-self xxh3 c.change));
      only = c.only;
    }

    behind : (u es fs : List Entry) → es ≡ fs → u ++ fs ≡ u ++ es
    behind u es fs e = ap (λ x. u ++ x) (sym e)

    step_empty : cached m k ≡ 127 → Step empty_ptr
    unfolding rebuild_by_type
    step_empty e = elim (dec_lt (raw t k) 128) [
      | yes dead ↦ (
        r,
        d,
        w,
        rw (type_deleted xxh3 t v old k (omega (arith, entry-cases xxh3 t v old k))),
        skip r.updated (kept_dead m k t e dead)
            (sym (append-nil r.updated) ∙ behind r.updated _ [] (mark_uncached m k _ e)),
      )
      | no alive ↦
          let (p, r', d', w', ran, c) =
            copy_entry-Copied xxh3 i t v old k r d w run there (omega arith) new room in
          (
            r',
            d',
            w',
            rw (type_present xxh3 t v old k (omega arith), ran),
            copy (kept_alive m k t e (omega arith)) p r' d' w' c r'.updated
                (sym (append-nil r'.updated) ∙ behind r'.updated _ [] (mark_uncached m k p e)),
          )
    ]

    step_deleted : cached m k < 126 → Step deleted
    unfolding rebuild_by_type Ptr.of_type
    step_deleted low =
        let u = r.updated ++ record { key = k; ptr = record { raw = nonexistent_v } } ∷ [] in
        (
          record r { updated = u },
          d,
          w,
          refl,
          skip u (kept_deleted m k t low) (behind r.updated _ _ (mark_deleted m k _ low)),
        )

    step_present : 128 ≤ cached m k → Step present
    unfolding rebuild_by_type
    step_present high =
        let alive = agrees.present high in
        let (p, r', d', w', ran, c) =
          copy_entry-Copied xxh3 i t v old k r d w run there alive new room in
        let u = r'.updated ++ record { key = k; ptr = p } ∷ [] in
        (
          record r' { updated = u },
          d',
          w',
          rw (type_present xxh3 t v old k alive, ran),
          copy (kept_present m k t high) p r' d' w' c u
              (behind r'.updated _ _ (mark_present m k p high)),
        )

    -- The round, by the type of the pointer that the cache map has.
    pub step : Step (Ptr.get_type (view m.entries k))
    step =
        let c = view m.entries k in
        elim (ℕ_discrete (cached m k) 127) [
          | yes e ↦ subst Step (sym (get_type-empty_ptr c agrees.byte e)) (step_empty e)
          | no ne ↦ elim (dec_lt (cached m k) 128) [
            | yes low ↦
                subst Step (sym (get_type-deleted c agrees.byte (omega (arith, agrees.known))))
                  (step_deleted (omega (arith, agrees.known)))
            | no high ↦
                subst Step (sym (get_type-present c agrees.byte (omega arith)))
                  (step_present (omega arith))
          ]
        ]
