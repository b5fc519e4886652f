-- ===== src/Shard/Change.antt =====
-- A shard of src/Shard.cpp after one pointer of its table has changed.
use kvs_cash_machine.BloomFilter
use kvs_cash_machine.BloomFilter.{BloomFilter}
use kvs_cash_machine.ByteArray.{ByteArray}
use kvs_cash_machine.Common.{
  ℕ, ◌%◌, ◌≤◌, ◌<◌, ◌≡◌, ◌≢◌, ◌∙◌, sym, ap, Bool-cases, inl, inr, true, false, Option, some,
  if◌then◌else◌, arith, refl,
}
use mathlib.Core.Bool.{false≢true}
use mathlib.Core.Path.{subst}
use kvs_cash_machine.Disk.{values, index}
use kvs_cash_machine.Key
use kvs_cash_machine.Key.{Key}
use kvs_cash_machine.Key.Laws.{eq_iff, eq_refl}
use kvs_cash_machine.Probe.Table.{view}
use kvs_cash_machine.Ptr.{Ptr}
use kvs_cash_machine.Shard.Blocks.{block, HasBlocks}
use kvs_cash_machine.Shard.Sound.{Sound, AllowedSize, raw, value_at, contents}
use kvs_cash_machine.Shard.Valid.{Holds}
use kvs_cash_machine.Shard.{State, hash}
use kvs_cash_machine.StorageHashTable
use kvs_cash_machine.StorageHashTable.Bytes.{serialize_to_byte_array}
use kvs_cash_machine.StorageHashTable.{StorageHashTable}
use kvs_cash_machine.Value.{Value}

module _ (xxh3 : ByteArray → ℕ → ℕ) where
  -- The table `t'` is valid and reads as `t` but for the pointer `p` under the key, whose index no
  -- other key's pointer has.
  pub record Change (t : StorageHashTable) (key : Key) (p : Ptr) (t' : StorageHashTable)
      : Type 0 where
    pub valid : StorageHashTable.Valid.IsValid (hash xxh3) t'
    pub sizes : AllowedSize t'
    pub grows : t.used_size ≤ t'.used_size
    pub reads : (q : Key) → view t'.entries q ≡ (if Key.eq key q then p else view t.entries q)
    pub range : (p.raw < 256) × (p.raw % 128 < t'.used_size)
    pub own : (q : Key) → key ≢ q → raw t q ≢ 127 → raw t q % 128 ≢ p.raw % 128

  module _ {t : StorageHashTable} {key : Key} {p : Ptr} {t' : StorageHashTable}
      (c : Change t key p t') where
    pub Change-self : view t'.entries key ≡ p
    Change-self = c.reads key ∙ rw (eq_refl key) refl

    pub Change-other : (q : Key) → Key.eq key q ≡ false → view t'.entries q ≡ view t.entries q
    Change-other q other = c.reads q ∙ rw other refl

    same_key : (q : Key) → Key.eq key q ≡ true → raw t' q ≡ p.raw
    same_key q same = ap Ptr.raw (c.reads q ∙ rw same refl)

    ne_of : (q : Key) → Key.eq key q ≡ false → key ≢ q
    ne_of q other e = false≢true (sym other ∙ (eq_iff key q).1 e)

    Change-range :
        ((k : Key) → raw t k ≢ 127 → (raw t k < 256) × (raw t k % 128 < t.used_size))
        → (k : Key) → raw t' k ≢ 127
        → (raw t' k < 256) × (raw t' k % 128 < t'.used_size)
    Change-range range k ne = elim (Bool-cases (Key.eq key k)) [
      | inl same ↦ rw (same_key k same) c.range
      | inr other ↦
          let e = ap Ptr.raw (Change-other k other) in
          rw e (omega (arith, c.grows, range k (λ z. ne (e ∙ z))))
    ]

    Change-apart :
        ((k q : Key) → raw t k ≢ 127 → raw t q ≢ 127 → raw t k % 128 ≡ raw t q % 128 → k ≡ q)
        → (k q : Key) → raw t' k ≢ 127
        → raw t' q ≢ 127
        → raw t' k % 128 ≡ raw t' q % 128
        → k ≡ q
    Change-apart apart k q nk nq e = elim (Bool-cases (Key.eq key k)) [
      | inl sk ↦ elim (Bool-cases (Key.eq key q)) [
        | inl sq ↦ sym ((eq_iff key k).0 sk) ∙ (eq_iff key q).0 sq
        | inr oq ↦
            let f = ap Ptr.raw (Change-other q oq) in
            let g = same_key k sk in
            absurd (c.own q (ne_of q oq) (λ z. nq (f ∙ z)) (rw (← f, ← g) (sym e)))
      ]
      | inr ok' ↦ elim (Bool-cases (Key.eq key q)) [
        | inl sq ↦
            let f = ap Ptr.raw (Change-other k ok') in
            let g = same_key q sq in
            absurd (c.own k (ne_of k ok') (λ z. nk (f ∙ z)) (rw (← f, ← g) e))
        | inr oq ↦
            let f = ap Ptr.raw (Change-other k ok') in
            let g = ap Ptr.raw (Change-other q oq) in
            apart k q (λ z. nk (f ∙ z)) (λ z. nq (g ∙ z)) (rw (← f, ← g) e)
      ]
    ]

    -- The shard as a map changes at the key alone, if the blocks of the other keys are the same.
    pub Change-contents :
        (v v' : ByteArray) (x : Option Value)
        → value_at p.raw v' ≡ x
        → ((q : Key) → key ≢ q → raw t q ≢ 127 → block (raw t q % 128) v' ≡ block (raw t q % 128) v)
        → (q : Key) → contents t' v' q ≡ (if Key.eq key q then x else contents t v q)
    unfolding contents
    Change-contents v v' x now kept q = elim (Bool-cases (Key.eq key q)) [
      | inl same ↦ rw (same, same_key q same) now
      | inr other ↦
          rw (other, ap Ptr.raw (Change-other q other)) (ground (arith, kept q (ne_of q other)))
    ]

    pub Change-Sound :
        (v v' : ByteArray) → Sound xxh3 t v → HasBlocks t'.used_size v' → Sound xxh3 t' v'
    Change-Sound v v' h blocks = record {
      table = c.valid;
      sizes = c.sizes;
      blocks = blocks;
      range = Change-range h.range;
      apart = Change-apart h.apart;
    }

    -- What the files and the filter have to be after the change.
    pub Change-Holds :
        (i : ℕ) (s : State) (v : ByteArray)
        → Holds xxh3 i s t v
        → (s' : State) (v' : ByteArray) → s'.disk.has_directory i ≡ true
        → s'.disk.file (index i) ≡ some (serialize_to_byte_array t')
        → s'.disk.file (values i) ≡ some v'
        → HasBlocks t'.used_size v'
        → BloomFilter.Laws.IsValid xxh3 s'.shard.filter
        → BloomFilter.check_exist xxh3 s'.shard.filter key ≡ true
        → ((q : Key)
            → BloomFilter.check_exist xxh3 s.shard.filter q ≡ true
            → BloomFilter.check_exist xxh3 s'.shard.filter q ≡ true)
        → Holds xxh3 i s' t' v'
    Change-Holds i s v h s' v' there indexed valued blocks filter new kept = record {
      directory = there;
      index_file = indexed;
      values_file = valued;
      sound = Change-Sound v v' h.sound blocks;
      filter = filter;
      confirmed = λ k ne. elim (Bool-cases (Key.eq key k)) [
        | inl same ↦
            subst (λ x. BloomFilter.check_exist xxh3 s'.shard.filter x ≡ true)
              ((eq_iff key k).0 same) new
        | inr other ↦ kept k (h.confirmed k (λ z. ne (ap Ptr.raw (Change-other k other) ∙ z)))
      ];
    }
