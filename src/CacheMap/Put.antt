-- ===== src/CacheMap/Put.antt =====
-- What `putOrDisplace` of src/CacheMap.cpp does to a valid map, and a write through the reference
-- that `get` returns.
use kvs_cash_machine.Common.{
  ℕ, ◌+◌, ◌%◌, ◌≤◌, ◌<◌, ◌≡◌, ◌≢◌, is_some, refl, sym, ap, ◌∙◌, Bool, Bool-cases, true, false, not,
  inl, inr, Option, none, some, ltb→lt, if◌then◌else◌, length, set, arith,
}
use mathlib.Core.Path.{subst}
use kvs_cash_machine.CacheMap.{CacheMap, entry_check, put_at, put_or_displace, locate, assign}
use kvs_cash_machine.CacheMap.Displace.{Displaced, displace-Displaced}
use kvs_cash_machine.CacheMap.Valid.{IsValid, key_index-home, locate-Refers}
use mathlib.Core.Bool.{false≢true}
use kvs_cash_machine.Constants.{is_overloaded}
use kvs_cash_machine.Entry.{Entry, is_used, used_of_ne}
use kvs_cash_machine.Key
use kvs_cash_machine.Key.{Key}
use kvs_cash_machine.Outcome.{ok, no_throw}
use kvs_cash_machine.Probe.{slot, seek}
use kvs_cash_machine.Probe.Count.{count_used-set}
use kvs_cash_machine.Probe.Seek.{is_absent, seek-Wrote}
use kvs_cash_machine.Probe.Table.{view, count_used, HoldsAt, IsProbed, home}
use kvs_cash_machine.Probe.Writes.{Wrote, HoldsAt-IsFree, insert-Wrote}
use kvs_cash_machine.Ptr
use kvs_cash_machine.Ptr.{Ptr}

-- Whether the displaced entry, if any, is the one under the key.
abbrev pub is_displaced : Option Entry → Key → Bool
is_displaced none q = false
is_displaced (some d) q = Key.eq d.key q

-- What the displaced entry was in the map.
abbrev pub WasStored : CacheMap → Option Entry → Type 0
WasStored m none = Unit
WasStored m (some d) = (is_used d ≡ true) × (view m.entries d.key ≡ d.ptr)

module _ (hash : Key → ℕ) (m : CacheMap) (e : Entry) where
  -- `putOrDisplace` gave up `displaced` and left `m'`: an entry is displaced exactly if the map was
  -- too full, it was stored, and `m'` reads as `m` but for it and the new entry.
  pub record Put (displaced : Option Entry) (m' : CacheMap) : Type 0 where
    pub valid : IsValid hash m'
    pub size : length m'.entries ≡ length m.entries
    pub full : is_some displaced ≡ is_overloaded m.used_size (length m.entries)
    pub stored : WasStored m displaced
    pub reads :
        (q : Key)
        → view m'.entries q ≡ (
            if Key.eq e.key q
            then e.ptr
            else if is_displaced displaced q
            then Ptr.empty
            else view m.entries q)
    pub used :
        is_some displaced ≡ false
        → m'.used_size ≡ m.used_size + (if is_absent m.entries e.key then 1 else 0)

-- The write of `put_at` into a map with an unused slot.
record Written (hash : Key → ℕ) (m : CacheMap) (e : Entry) (m' : CacheMap) : Type 0 where
  wrote : Wrote hash m.entries e.key e.ptr m'.entries
  counted : m'.used_size ≡ count_used m'.entries
  few : m'.used_size ≤ m.used_size + 1
  exact : m'.used_size ≡ m.used_size + (if is_absent m.entries e.key then 1 else 0)

put_at-Written :
    (hash : Key → ℕ) (m : CacheMap) (e : Entry)
    → IsProbed hash m.entries
    → m.used_size ≡ count_used m.entries
    → m.used_size < length m.entries
    → is_used e ≡ true
    → (m' : CacheMap) × (put_at hash m (home hash m.entries e.key) e ≡ ok m') × Written hash m e m'
unfolding put_at
put_at-Written hash m e probed counted room used =
    finish (
      seek-Wrote hash m.entries probed (entry_check e.key) e (λ x. ground arith) (omega arith) used)
  where
    finish :
        (r : ℕ) × (seek m.entries (home hash m.entries e.key) (entry_check e.key) ≡ ok r)
          × Wrote hash m.entries e.key e.ptr (set m.entries r e)
          × (is_used (slot m.entries r) ≡ not (is_absent m.entries e.key))
          × (count_used (set m.entries r e)
              ≡ count_used m.entries + (if is_absent m.entries e.key then 1 else 0))
        → (m' : CacheMap) × (put_at hash m (home hash m.entries e.key) e ≡ ok m')
          × Written hash m e m'
    finish (r, sought, wrote, absent, change) = (
      record {
        entries = set m.entries r e;
        used_size =
            if Ptr.eq (slot m.entries r).ptr Ptr.empty then m.used_size + 1 else m.used_size;
      },
      rw sought,
      record {
        wrote = wrote;
        counted = ground (arith, absent, change, counted);
        few = ground arith;
        exact = ground (arith, absent, change, counted);
      },
    )

module _ (hash : Key → ℕ) (m : CacheMap) (valid : IsValid hash m) (e : Entry)
    (used : is_used e ≡ true) where
  plain-Put :
      (m' : CacheMap)
      → is_overloaded m.used_size (length m.entries) ≡ false
      → Written hash m e m'
      → Put hash m e none m'
  plain-Put m' free w = record {
    valid = record {
      probed = w.wrote.probed;
      counted = w.counted;
      load = ground (arith, w.few, w.wrote.size);
      large = omega (arith, valid.large, w.wrote.size);
    };
    size = w.wrote.size;
    full = sym free;
    stored = tt;
    reads = w.wrote.reads;
    used = λ _. w.exact;
  }

  Displaced-Put :
      (d : Entry) (m₁ m' : CacheMap)
      → is_overloaded m.used_size (length m.entries) ≡ true
      → Displaced hash m d m₁
      → Written hash m₁ e m'
      → Put hash m e (some d) m'
  Displaced-Put d m₁ m' full s w = record {
    valid = record {
      probed = w.wrote.probed;
      counted = w.counted;
      load = omega (arith, valid.load, w.few, s.fewer, w.wrote.size, s.wrote.size);
      large = omega (arith, valid.large, w.wrote.size, s.wrote.size);
    };
    size = w.wrote.size ∙ s.wrote.size;
    full = sym full;
    stored = (s.used, s.stored);
    reads = λ q. ground (arith, w.wrote.reads q, s.wrote.reads q);
    used = λ z. absurd (false≢true (sym z));
  }

  -- `putOrDisplace` on a valid map of nine slots or more, with an entry whose pointer is not
  -- EMPTY_PTR, does not fail, whatever the random number; the map stays valid and keeps its size.
  -- An entry is displaced exactly if the map was more than two thirds full, and it was in the map;
  -- the new entry is in the map, the displaced one is not unless it has the same key, and every
  -- other key reads as before. If none is displaced, the number of used slots goes up by one exactly
  -- if the key is new.
  pub put_or_displace-Put :
      (random : ℕ)
      → (displaced : Option Entry) × (m' : CacheMap) × (put_or_displace hash m random e
          ≡ ok (displaced, m'))
        × Put hash m e displaced m'
  unfolding put_or_displace no_throw
  put_or_displace-Put random = elim (Bool-cases (is_overloaded m.used_size (length m.entries))) [
    | inl full ↦
        let (d, m₁, taken, s) =
          displace-Displaced hash m random valid.probed valid.counted
            (omega (arith, ltb→lt _ _ full, valid.large))
            (omega (arith, valid.load, valid.large)) in
        let (m', put, w) =
          put_at-Written hash m₁ e s.wrote.probed s.counted
            (omega (arith, s.fewer, s.wrote.size, valid.load, valid.large)) used in
        let same : home hash m₁.entries e.key ≡ home hash m.entries e.key =
          ap (λ n. hash e.key % n) s.wrote.size in
        (
          some d,
          m',
          rw (key_index-home hash m valid e.key, full, taken, ← same, put),
          Displaced-Put d m₁ m' full s w,
        )
    | inr free ↦
        let (m', put, w) =
          put_at-Written hash m e valid.probed valid.counted
            (omega (arith, valid.load, valid.large)) used in
        (none, m', rw (key_index-home hash m valid e.key, free, put), plain-Put m' free w)
  ]

module _ (hash : Key → ℕ) (m : CacheMap) (valid : IsValid hash m) where
  -- On a valid map, writing a pointer other than EMPTY_PTR through the reference that `get` returns
  -- for a stored key keeps the map valid, and changes it at that key alone.
  pub map_assign_lem :
      (k : Key) (p : Ptr)
      → view m.entries k ≢ Ptr.empty
      → p ≢ Ptr.empty
      → (i : ℕ) × (locate hash m k ≡ ok i)
        × IsValid hash (assign m i p)
        × ((q : Key) → view (assign m i p).entries q ≡ (if Key.eq k q then p else view m.entries q))
  unfolding assign
  map_assign_lem k p stored ne =
      let (i, located, s) = locate-Refers hash m valid k in
      let here = used_of_ne (slot m.entries i) (λ z. stored (sym s.reads ∙ z)) in
      let e : Entry = record { key = (slot m.entries i).key; ptr = p } in
      let used = used_of_ne e ne in
      let held : HoldsAt m.entries e.key i = record {
        inside = s.inside;
        used = here;
        key = refl;
      } in
      let w =
        insert-Wrote hash m.entries valid.probed e used i
          (HoldsAt-IsFree hash m.entries valid.probed e.key i held) in
      (
        i,
        located,
        record {
          probed = w.probed;
          counted =
              ground (arith, count_used-set m.entries i e s.inside, here, used, valid.counted);
          load = omega (arith, valid.load, w.size);
          large = omega (arith, valid.large, w.size);
        },
        λ q.
            subst (λ x. view (set m.entries i e) q ≡ (if Key.eq x q then p else view m.entries q))
              (s.held here) (w.reads q),
      )
