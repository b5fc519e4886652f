-- ===== src/Storage/Laws.antt =====
-- What a file holds after it was written, and what is read back.
use Prim.Native.Nat.{max}
use mathlib.Core.List.{append_assoc}
use kvs_cash_machine.ByteArray.{ByteArray}
use kvs_cash_machine.Common.{
  ℕ, ◌+◌, ◌-◌, ◌≤◌, ◌<◌, ◌≡◌, ◌≢◌, ◌⊎◌, inl, inr, ap, sym, ◌∙◌, true, ◌||◌, ◌==◌, leb, some, [],
  ◌∷◌, ◌++◌, length, take, drop, replicate, length-append, length-take, length-drop,
  length-replicate, take-append, drop-append, part, part-append_le, part-take, drop-append_ge,
  drop-drop, take_self, arith,
}
use kvs_cash_machine.Disk.{FilePath, directory, Disk, put_file, put_file_self, put_file_other}
use kvs_cash_machine.Outcome.{ok}
use kvs_cash_machine.Storage.{Storage, read_file, write_file, read, write, append, overwrite}

-- A file that was written is read back whole, and the other files are as they were. The file's
-- directory exists.
pub read_file-write_file :
    (path : FilePath) (bytes : ByteArray) (d : Disk)
    → d.has_directory (directory path) ≡ true
    → (q : FilePath) → path ≢ q
    → (d' : Disk) × (write_file path bytes d ≡ (ok tt, d'))
      × (read_file path d' ≡ (ok bytes, d'))
      × (d'.file q ≡ d.file q)
unfolding read_file write_file
read_file-write_file path bytes d h q ne = (
  put_file d path bytes,
  rw (h, write_file),
  rw (put_file_self d path bytes, read_file),
  put_file_other d path bytes q ne,
)

-- An open file with the contents `c`, whose size the object knows.
pub record IsOpen (s : Storage) (d : Disk) (c : ByteArray) : Type 0 where
  pub holds : d.file s.path ≡ some c
  pub size : s.file_size ≡ length c

-- `read` gives the part of the contents, if it lies within.
pub read_lem :
    (s : Storage) (d : Disk) (c : ByteArray) (o n : ℕ)
    → d.file s.path ≡ some c
    → o + n ≤ length c
    → read s o n d ≡ (ok (part o n c), d)
unfolding read
read_lem s d c o n holds h =
    let fits : (n == 0 || leb (o + n) (length c)) ≡ true = ground arith in rw (holds, read, fits)

module _ (s : Storage) (d : Disk) (c : ByteArray) (open' : IsOpen s d c) (bytes : ByteArray) where
  pub append_open : append s bytes d ≡ (
    ok (length c, record s { file_size = s.file_size + length bytes }),
    put_file d s.path (c ++ bytes),
  )
  unfolding append
  append_open = rw (open'.holds, append, open'.size)

  -- `append` to a file that is there and whose size is the one that the object has: it returns the
  -- old size, the bytes stand there from now on, every part of the old contents is read as before,
  -- and the object has the new size. Other files do not change.
  pub append_lem :
      (o n : ℕ)
      → o + n ≤ length c
      → (q : FilePath) → s.path ≢ q
      → (s' : Storage) × (d' : Disk) × (append s bytes d ≡ (ok (length c, s'), d'))
        × IsOpen s' d' (c ++ bytes)
        × (read s' (length c) (length bytes) d' ≡ (ok bytes, d'))
        × (read s' o n d' ≡ (ok (part o n c), d'))
        × (d'.file q ≡ d.file q)
  unfolding append
  append_lem o n h q ne =
      let d' = put_file d s.path (c ++ bytes) in
      let s' : Storage = record s { file_size = s.file_size + length bytes } in
      let holds = put_file_self d s.path (c ++ bytes) in
      (
        s',
        d',
        rw (open'.holds, append, open'.size),
        record { holds = holds; size = omega (arith, open'.size, length-append c bytes) },
        read_lem s' d' (c ++ bytes) (length c) (length bytes) holds
              (omega (arith, length-append c bytes))
            ∙ ap (λ x. (ok x, d')) (rw (drop-append c bytes, take_self bytes)),
        read_lem s' d' (c ++ bytes) o n holds (omega (arith, length-append c bytes))
            ∙ ap (λ x. (ok x, d')) (part-append_le o n c bytes h),
        put_file_other d s.path (c ++ bytes) q ne,
      )

-- The contents after a write of at least one byte, in the parts before, at and behind the offset.
overwrite-parts :
    (c : ByteArray) (offset : ℕ) (bytes : ByteArray)
    → 0 < length bytes
    → (p : ByteArray) × (length p ≡ offset)
      × (overwrite c offset bytes ≡ p ++ (bytes ++ drop (offset + length bytes) c))
      × ((o n : ℕ) → o + n ≤ length c → o + n ≤ offset → part o n p ≡ part o n c)
unfolding overwrite
overwrite-parts c offset [] h = absurd (omega arith)
overwrite-parts c offset (b ∷ bytes) h =
    let front = take offset c in
    let gap : ByteArray = replicate (offset - length c) 0 in
    (
      front ++ gap,
      omega (
        arith,
        length-append front gap,
        length-take offset c,
        length-replicate {A = ℕ} (offset - length c) 0,
      ),
      sym (append_assoc front gap ((b ∷ bytes) ++ drop (offset + length (b ∷ bytes)) c)),
      λ o n inside before.
          part-append_le o n front gap (omega (arith, length-take offset c))
          ∙ part-take o n offset c before,
    )

part-middle :
    (p bytes rest : ByteArray) (o : ℕ)
    → length p ≡ o
    → part o (length bytes) (p ++ (bytes ++ rest)) ≡ bytes
part-middle p bytes rest o long = rw (← long, drop-append p (bytes ++ rest), take-append bytes rest)

drop-behind :
    (p bytes c : ByteArray) (offset o : ℕ)
    → length p ≡ offset
    → offset + length bytes ≤ o
    → drop o (p ++ (bytes ++ drop (offset + length bytes) c)) ≡ drop o c
drop-behind p bytes c offset o long h =
    let k = offset + length bytes in
    drop-append_ge o p (bytes ++ drop k c) (omega arith)
    ∙ drop-append_ge (o - length p) bytes (drop k c) (omega arith)
    ∙ drop-drop (o - length p - length bytes) k c
    ∙ ap (λ x. drop x c) (omega arith)

module _ (c : ByteArray) (offset : ℕ) (bytes : ByteArray) (some' : 0 < length bytes) where
  pub length-overwrite : length (overwrite c offset bytes) ≡ max (length c) (offset + length bytes)
  length-overwrite =
      let (p, long, e, before) = overwrite-parts c offset bytes some' in
      let rest = drop (offset + length bytes) c in
      rw e (
        omega (
          arith,
          long,
          length-append p (bytes ++ rest),
          length-append bytes rest,
          length-drop (offset + length bytes) c,
        ))

  -- The written bytes stand at the offset, and every part apart from them is as it was.
  pub part-overwrite : part offset (length bytes) (overwrite c offset bytes) ≡ bytes
  part-overwrite =
      let (p, long, e, before) = overwrite-parts c offset bytes some' in
      rw e (part-middle p bytes (drop (offset + length bytes) c) offset long)

  pub part-overwrite_apart :
      (o n : ℕ)
      → o + n ≤ length c
      → (o + n ≤ offset) ⊎ (offset + length bytes ≤ o)
      → part o n (overwrite c offset bytes) ≡ part o n c
  part-overwrite_apart o n inside (inl h) =
      let (p, long, e, before) = overwrite-parts c offset bytes some' in
      rw e (
        part-append_le o n p (bytes ++ drop (offset + length bytes) c) (omega arith)
        ∙ before o n inside h)
  part-overwrite_apart o n inside (inr h) =
      let (p, long, e, before) = overwrite-parts c offset bytes some' in
      rw e (ap (take n) (drop-behind p bytes c offset o long h))

module _ (s : Storage) (d : Disk) (c : ByteArray) (open' : IsOpen s d c) where
  -- `write` of one byte or more to a file that is there and whose size is the one that the object
  -- has: the bytes stand at the offset, every part of the old contents apart from them is read as
  -- before, and the object has the new size. Other files do not change.
  pub write_lem :
      (offset : ℕ) (bytes : ByteArray)
      → 0 < length bytes
      → (o n : ℕ) → o + n ≤ length c
      → (o + n ≤ offset) ⊎ (offset + length bytes ≤ o)
      → (q : FilePath) → s.path ≢ q
      → (s' : Storage) × (d' : Disk) × (write s offset bytes d ≡ (ok s', d'))
        × IsOpen s' d' (overwrite c offset bytes)
        × (read s' offset (length bytes) d' ≡ (ok bytes, d'))
        × (read s' o n d' ≡ (ok (part o n c), d'))
        × (d'.file q ≡ d.file q)
  unfolding write
  write_lem offset bytes some' o n inside apart q ne =
      let new = overwrite c offset bytes in
      let d' = put_file d s.path new in
      let s' : Storage = record s { file_size = max s.file_size (offset + length bytes) } in
      let holds = put_file_self d s.path new in
      let long = length-overwrite c offset bytes some' in
      (
        s',
        d',
        rw (open'.holds, write),
        record { holds = holds; size = omega (arith, open'.size, long) },
        read_lem s' d' new offset (length bytes) holds (omega (arith, long))
            ∙ ap (λ x. (ok x, d')) (part-overwrite c offset bytes some'),
        read_lem s' d' new o n holds (omega (arith, long))
            ∙ ap (λ x. (ok x, d')) (part-overwrite_apart c offset bytes some' o n inside apart),
        put_file_other d s.path new q ne,
      )

  -- `write` of no bytes behind the end of a file that is there and whose size is the one that the
  -- object has leaves the file as it is, but makes the object take the offset for the file's size.
  pub write_nothing :
      (offset : ℕ)
      → length c < offset
      → (s' : Storage) × (d' : Disk) × (write s offset [] d ≡ (ok s', d'))
        × (d'.file s.path ≡ some c)
        × (s'.file_size ≡ offset)
  unfolding write overwrite
  write_nothing offset far =
      let s' : Storage = record s { file_size = max s.file_size (offset + 0) } in
      (
        s',
        put_file d s.path c,
        rw (open'.holds, write),
        put_file_self d s.path c,
        omega (arith, open'.size),
      )
