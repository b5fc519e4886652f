-- ===== src/ShardBuilder/Loop.antt =====
-- The loop of `rebuildShard` of src/ShardBuilder.cpp over the entries of the old table.
use kvs_cash_machine.ByteArray.{ByteArray}
use kvs_cash_machine.CacheMap
use kvs_cash_machine.CacheMap.{CacheMap}
use kvs_cash_machine.CacheMap.Valid.{map_get-view}
use kvs_cash_machine.Common.{
  ℕ, ◌+◌, ◌≤◌, ◌≡◌, ◌≢◌, inl, inr, ◌∙◌, sym, ap, refl, Bool-cases, true, false, none, some,
  if◌then◌else◌, ◌==◌, List, [], ◌∷◌, ◌++◌, length, arith, ==_true, ==_false,
}
use mathlib.Core.List.{append-nil, append_assoc}
use mathlib.Core.Path.{subst}
use kvs_cash_machine.Disk.{Disk, values, rebuilt}
use kvs_cash_machine.Entry.{Entry, is_used}
use kvs_cash_machine.Key
use kvs_cash_machine.Key.{Key}
use kvs_cash_machine.Key.Laws.{eq_iff, eq_refl, by_key}
use kvs_cash_machine.Outcome.{ok}
use kvs_cash_machine.Probe.Table.{view}
use kvs_cash_machine.Ptr
use kvs_cash_machine.Ptr.{Ptr}
use kvs_cash_machine.Shard.Sound.{Sound, raw, contents}
use kvs_cash_machine.Shard.{hash}
use kvs_cash_machine.ShardBuilder.Copy.{OnlyFile, OnlyFile-trans, Running}
use kvs_cash_machine.ShardBuilder.Step.{Agrees, kept, mark, Stepped, step}
use kvs_cash_machine.ShardBuilder.{Rebuild, rebuild_by_type, rebuild_entries}
use kvs_cash_machine.StorageHashTable.Entries.{AreDistinct, listed, listed-here, listed-there}
use kvs_cash_machine.StorageHashTable.{StorageHashTable}

-- The entries for the cache map, over the keys of a list, with the new table's pointers.
unfoldable pub marks : CacheMap → List Entry → StorageHashTable → List Entry
marks m [] t = []
marks m (e ∷ es) t = mark m e.key (view t.entries e.key) ++ marks m es t

pub rebuilt≢values : (i : ℕ) → rebuilt (values i) ≢ values i
rebuilt≢values i e = cc

module _ (xxh3 : ByteArray → ℕ → ℕ) (i : ℕ) (m : CacheMap)
    (cache : CacheMap.Valid.IsValid (hash xxh3) m) (t : StorageHashTable) (v : ByteArray)
    (old : Sound xxh3 t v) where
  -- After the rounds for the entries `es`: the keys among them that are kept have their values in
  -- the new table, the others none, and other keys are as before.
  pub record Rebuilt (es : List Entry) (r : Rebuild) (d : Disk) (w : ByteArray) (r' : Rebuild)
      (d' : Disk) (w' : ByteArray) : Type 0 where
    pub running : Running xxh3 i r' d' w'
    pub pointers : (q : Key) → listed es q ≡ 127 → view r'.table.entries q ≡ view r.table.entries q
    pub copied : (q : Key) → listed es q ≢ 127 → kept m t q ≡ true → 128 ≤ raw r'.table q
    pub dropped : (q : Key) → listed es q ≢ 127 → kept m t q ≡ false → raw r'.table q ≡ 127
    pub reads :
        (q : Key)
        → contents r'.table w' q ≡ (
            if listed es q == 127
            then contents r.table w q
            else if kept m t q
            then contents t v q
            else none)
    pub used : r'.table.used_size ≤ r.table.used_size + length es
    pub updated : r'.updated ≡ r.updated ++ marks m es r'.table
    pub only : OnlyFile (rebuilt (values i)) d d'

  -- What the loop needs before a round.
  pub record Ready (es : List Entry) (r : Rebuild) (d : Disk) (w : ByteArray) : Type 0 where
    pub distinct : AreDistinct es
    pub running : Running xxh3 i r d w
    pub there : d.file (values i) ≡ some v
    pub from : (k : Key) → listed es k ≢ 127 → view es k ≡ view t.entries k
    pub new : (k : Key) → listed es k ≢ 127 → raw r.table k ≡ 127
    pub room : r.table.used_size + length es ≤ 45

  nothing_left : (r : Rebuild) (d : Disk) (w : ByteArray) → Ready [] r d w → Rebuilt [] r d w r d w
  unfolding marks view
  nothing_left r d w ready = record {
    running = ready.running;
    pointers = λ q _. refl;
    copied = λ q ne. absurd (ne refl);
    dropped = λ q ne. absurd (ne refl);
    reads = λ q. refl;
    used = omega arith;
    updated = sym (append-nil r.updated);
    only = record { files = λ q ne. refl; directories = λ j. refl };
  }

  module _ (e : Entry) (es : List Entry) (r : Rebuild) (d : Disk) (w : ByteArray)
      (ready : Ready (e ∷ es) r d w) where
    used : is_used e ≡ true
    used = ready.distinct.0

    ptr_used : e.ptr.raw ≢ 127
    ptr_used z = ground (arith, used)

    pub here : listed (e ∷ es) e.key ≢ 127
    here z = ptr_used (sym (ap Ptr.raw (listed-here e es used)) ∙ z)

    same_pointer : e.ptr ≡ view t.entries e.key
    same_pointer = sym (listed-here e es used) ∙ ready.from e.key here

    pub as_entry : e ≡ record { key = e.key; ptr = view t.entries e.key }
    as_entry = λ j. record { key = e.key; ptr = same_pointer j }

    pub stored : raw t e.key ≢ 127
    stored z = ptr_used (ap Ptr.raw same_pointer ∙ z)

    -- A key that the rest of the list has is another one.
    apart : (q : Key) → listed es q ≢ 127 → Key.eq e.key q ≡ false
    apart q ne = elim (Bool-cases (Key.eq e.key q)) [
      | inl same ↦
          absurd (
            ne
              (ap (λ x. listed es x) (sym ((eq_iff e.key q).0 same)) ∙ ap Ptr.raw ready.distinct.1))
      | inr other ↦ other
    ]

    widen : (q : Key) → listed es q ≢ 127 → listed (e ∷ es) q ≢ 127
    widen q ne z = ne (sym (ap Ptr.raw (listed-there e es used q (apart q ne))) ∙ z)

    pub next-Ready :
        (r' : Rebuild) (d' : Disk) (w' : ByteArray)
        → Stepped xxh3 i m t v old e.key r d w r' d' w'
        → Ready es r' d' w'
    next-Ready r' d' w' s = record {
      distinct = ready.distinct.2;
      running = s.running;
      there = s.only.files (values i) (rebuilt≢values i) ∙ ready.there;
      from = λ k ne. sym (listed-there e es used k (apart k ne)) ∙ ready.from k (widen k ne);
      new = λ k ne. ap Ptr.raw (s.pointers k (apart k ne)) ∙ ready.new k (widen k ne);
      room = omega (arith, s.used, ready.room);
    }

    module _ (r' : Rebuild) (d' : Disk) (w' : ByteArray)
        (s : Stepped xxh3 i m t v old e.key r d w r' d' w') (r'' : Rebuild) (d'' : Disk)
        (w'' : ByteArray) (rest : Rebuilt es r' d' w' r'' d'' w'') where
      gone : listed es e.key ≡ 127
      gone = ap Ptr.raw ready.distinct.1

      -- The later rounds leave the key's pointer alone.
      settled : view r''.table.entries e.key ≡ view r'.table.entries e.key
      settled = rest.pointers e.key gone

      later : (q : Key) → Key.eq e.key q ≡ false → listed (e ∷ es) q ≡ listed es q
      later q other = ap Ptr.raw (listed-there e es used q other)

      reads_join :
          (q : Key)
          → contents r''.table w'' q ≡ (
              if listed (e ∷ es) q == 127
              then contents r.table w q
              else if kept m t q
              then contents t v q
              else none)
      reads_join =
          by_key e.key
            (λ q. contents r''.table w'' q ≡ (
              if listed (e ∷ es) q == 127
              then contents r.table w q
              else if kept m t q
              then contents t v q
              else none))
            (rest.reads e.key
              ∙ rw (==_true gone, ==_false here) (s.reads e.key ∙ rw (eq_refl e.key) refl))
            (λ q other. rest.reads q ∙ rw (later q other, s.reads q, other) refl)

      updated_join : r''.updated ≡ r.updated ++ marks m (e ∷ es) r''.table
      unfolding marks
      updated_join =
          rest.updated
          ∙ ap (λ x. x ++ marks m es r''.table) s.updated
          ∙ append_assoc r.updated (mark m e.key (view r'.table.entries e.key)) _
          ∙ ap (λ x. r.updated ++ (mark m e.key x ++ marks m es r''.table)) (sym settled)

      join : Rebuilt (e ∷ es) r d w r'' d'' w''
      join = record {
        running = rest.running;
        pointers =
            by_key e.key
              (λ q. listed (e ∷ es) q ≡ 127 → view r''.table.entries q ≡ view r.table.entries q)
              (λ z. absurd (here z))
              (λ q other z. rest.pointers q (sym (later q other) ∙ z) ∙ s.pointers q other);
        copied =
            by_key e.key (λ q. listed (e ∷ es) q ≢ 127 → kept m t q ≡ true → 128 ≤ raw r''.table q)
              (λ _ k. rw (ap Ptr.raw settled) (s.copied k))
              (λ q other ne. rest.copied q (λ z. ne (later q other ∙ z)));
        dropped =
            by_key e.key (λ q. listed (e ∷ es) q ≢ 127 → kept m t q ≡ false → raw r''.table q ≡ 127)
              (λ _ k. ap Ptr.raw settled ∙ s.dropped k)
              (λ q other ne. rest.dropped q (λ z. ne (later q other ∙ z)));
        reads = reads_join;
        used = omega (arith, rest.used, s.used);
        updated = updated_join;
        only = OnlyFile-trans s.only rest.only;
      }

  -- The loop ends without an error.
  pub rebuild_entries-Rebuilt :
      (agrees : (k : Key) → raw t k ≢ 127 → Agrees m t k) (es : List Entry) (r : Rebuild) (d : Disk)
      (w : ByteArray)
      → Ready es r d w
      → (r' : Rebuild) × (d' : Disk) × (w' : ByteArray) × (rebuild_entries xxh3 i m es r d
          ≡ (ok r', d'))
        × Rebuilt es r d w r' d' w'
  unfolding rebuild_entries
  rebuild_entries-Rebuilt agrees [] r d w ready = (r, d, w, refl, nothing_left r d w ready)
  rebuild_entries-Rebuilt agrees (e ∷ es) r d w ready =
      let k = e.key in
      let (r', d', w', round, s) =
        step xxh3 i m t v old k (stored e es r d w ready) (agrees k (stored e es r d w ready)) r d w
          ready.running ready.there (ready.new k (here e es r d w ready))
          (omega (arith, ready.room)) in
      let (r'', d'', w'', ran, rest) =
        rebuild_entries-Rebuilt agrees es r' d' w' (next-Ready e es r d w ready r' d' w' s) in
      (
        r'',
        d'',
        w'',
        rw (map_get-view (hash xxh3) m cache k) (
            rw
              (subst
                (λ x. rebuild_by_type xxh3 i x r (Ptr.get_type (view m.entries k)) d ≡ (ok r', d'))
                (sym (as_entry e es r d w ready)) round)
              ran),
        join e es r d w ready r' d' w' s r'' d'' w'' rest,
      )
