-- ===== src/ShardBuilder/Copy.antt =====
-- One value copied by the loop of `rebuildShard` of src/ShardBuilder.cpp.
use kvs_cash_machine.ByteArray.{ByteArray}
use kvs_cash_machine.Common.{
  ℕ, ◌+◌, ◌%◌, ◌<◌, ◌≤◌, ◌≡◌, ◌≢◌, ◌∙◌, sym, ap, refl, true, some, if◌then◌else◌, length, ◌++◌,
  length-append, arith,
}
use mathlib.Core.Path.{subst}
use kvs_cash_machine.Constants.{value_size}
use kvs_cash_machine.Disk.{FilePath, Disk, values, rebuilt, put_file, put_file_self, put_file_other}
use kvs_cash_machine.Key
use kvs_cash_machine.Key.{Key}
use kvs_cash_machine.Outcome.{ok}
use kvs_cash_machine.Probe.Table.{view}
use kvs_cash_machine.Ptr.Laws.{of_offset_ok}
use kvs_cash_machine.Ptr.{Ptr}
use kvs_cash_machine.Shard.Blocks.{
  block, length-block, append-HasBlocks, block-append_self, block-append_lt,
}
use kvs_cash_machine.Shard.Change.{Change, Change-contents, Change-Sound}
use kvs_cash_machine.Shard.Directly.{read_value_directly}
use kvs_cash_machine.Shard.Files.{read_value_directly_lem}
use kvs_cash_machine.Shard.Pointers.{put-Change}
use kvs_cash_machine.Shard.Sound.{
  Sound, raw, contents, contents_high, value_at_high, offset-le, used-le,
}
use kvs_cash_machine.ShardBuilder.{Rebuild, copy_entry}
use kvs_cash_machine.Storage.{Storage}
use kvs_cash_machine.Storage.Laws.{IsOpen, append_open}
use kvs_cash_machine.StorageHashTable.{StorageHashTable}
use kvs_cash_machine.Value.{Value}

-- The two disks differ in one file at most.
pub record OnlyFile (path : FilePath) (d d' : Disk) : Type 0 where
  pub files : (q : FilePath) → path ≢ q → d'.file q ≡ d.file q
  pub directories : (j : ℕ) → d'.has_directory j ≡ d.has_directory j

pub OnlyFile-trans :
    {path : FilePath} {d e f : Disk} → OnlyFile path d e → OnlyFile path e f → OnlyFile path d f
OnlyFile-trans a b = record {
  files = λ q ne. b.files q ne ∙ a.files q ne;
  directories = λ j. b.directories j ∙ a.directories j;
}

pub put-OnlyFile :
    (d : Disk) (path : FilePath) (bytes : ByteArray) → OnlyFile path d (put_file d path bytes)
put-OnlyFile d path bytes = record {
  files = λ q ne. put_file_other d path bytes q ne;
  directories = λ j. refl;
}

module _ (xxh3 : ByteArray → ℕ → ℕ) (i : ℕ) where
  -- Between two rounds of the loop: the new table and the new values `w` agree, and the new values
  -- file is open.
  pub record Running (r : Rebuild) (d : Disk) (w : ByteArray) : Type 0 where
    pub sound : Sound xxh3 r.table w
    pub opened : IsOpen r.storage d w
    pub path : r.storage.path ≡ rebuilt (values i)

  module _ (t : StorageHashTable) (v : ByteArray) (old : Sound xxh3 t v) (k : Key) (r : Rebuild)
      (d : Disk) (w : ByteArray) where
    -- The value of the key was copied, under the pointer `p`.
    pub record Copied (p : Ptr) (r' : Rebuild) (d' : Disk) (w' : ByteArray) : Type 0 where
      pub running : Running r' d' w'
      pub change : Change xxh3 r.table k p r'.table
      pub present : 128 ≤ p.raw
      pub reads :
          (q : Key)
          → contents r'.table w' q ≡ (if Key.eq k q then contents t v k else contents r.table w q)
      pub used : r'.table.used_size ≡ r.table.used_size + 1
      pub updated : r'.updated ≡ r.updated
      pub only : OnlyFile (rebuilt (values i)) d d'

    module _ (run : Running r d w) (there : d.file (values i) ≡ some v) (high : 128 ≤ raw t k)
        (new : raw r.table k ≡ 127) (room : r.table.used_size < 45) where
      fresh : Ptr
      fresh = record { raw = r.table.used_size + 128 }

      value : Value
      value = record { bytes = block (raw t k % 128) v }

      read_old : read_value_directly i (view t.entries k) d ≡ (ok value, d)
      unfolding value
      read_old =
          let (offset, inside) = offset-le xxh3 t v old k (omega arith) in
          rw (read_value_directly_lem i d v there (view t.entries k) (rw offset inside), offset)

      whole : length value.bytes ≡ value_size
      unfolding value
      whole = length-block (raw t k % 128) v (offset-le xxh3 t v old k (omega arith)).1

      pub copy_entry-Copied :
          (p : Ptr) × (r' : Rebuild) × (d' : Disk) × (w' : ByteArray) × (copy_entry xxh3 i
              (record { key = k; ptr = view t.entries k })
              r
              d
            ≡ (ok (p, r'), d'))
          × Copied p r' d' w'
      unfolding copy_entry fresh value
      copy_entry-Copied =
          let (t', put, c, used) = put-Change xxh3 r.table w run.sound k new room in
          let w' = w ++ value.bytes in
          let storage : Storage = record r.storage {
            file_size = r.storage.file_size + length value.bytes;
          } in
          let r' : Rebuild = record r { storage = storage; table = t' } in
          let d' = put_file d r.storage.path w' in
          (
            fresh,
            r',
            d',
            w',
            rw (
              read_old,
              append_open r.storage d w run.opened value.bytes,
              run.sound.blocks,
              of_offset_ok r.table.used_size true (omega arith),
              put,
            ),
            record {
              running = record {
                sound = Change-Sound xxh3 c w w' run.sound (
                    rw used
                      (append-HasBlocks r.table.used_size w value.bytes run.sound.blocks whole));
                opened = record {
                  holds = put_file_self d r.storage.path w';
                  size = omega (arith, run.opened.size, length-append w value.bytes);
                };
                path = run.path;
              };
              change = c;
              present = omega arith;
              reads =
                  Change-contents xxh3 c w w' (contents t v k)
                    (value_at_high fresh.raw w' value (omega arith) (
                        ap (λ j. block j w') (omega (arith, used-le xxh3 r.table w run.sound))
                        ∙ block-append_self r.table.used_size w value.bytes run.sound.blocks whole)
                      ∙ sym (contents_high t v k high))
                    (λ q other nq.
                      block-append_lt r.table.used_size w value.bytes run.sound.blocks whole
                        (raw r.table q % 128) (run.sound.range q nq).1);
              used = used;
              updated = refl;
              only =
                  subst (λ x. OnlyFile x d (put_file d r.storage.path w')) run.path
                    (put-OnlyFile d r.storage.path w');
            },
          )
