-- ===== src/Entry.antt =====
-- `Entry` of include/KeyValueTypes.h and src/KeyValueTypes.cpp: a key with its pointer, the slot
-- of both hash tables.
use kvs_cash_machine.Common.{Bool, true, false, ◌&&◌, not, ◌≡◌, ◌≢◌, arith}
use kvs_cash_machine.Key
use kvs_cash_machine.Key.{Key}
use kvs_cash_machine.Ptr
use kvs_cash_machine.Ptr.{Ptr}

-- `struct Entry`
pub record Entry : Type 0 where
  pub key : Key
  pub ptr : Ptr

-- `Entry()`, with the default arguments of its constructor
abbrev pub blank : Entry
blank = record { key = Key.default; ptr = Ptr.empty }

-- `Entry::operator==`
unfoldable pub eq : Entry → Entry → Bool
eq a b = Key.eq a.key b.key && Ptr.eq a.ptr b.ptr

-- `ptr != EMPTY_PTR`
abbrev pub is_used : Entry → Bool
is_used e = not (Ptr.eq e.ptr Ptr.empty)

-- An unused slot has the empty pointer.
pub unused-ptr : (e : Entry) → is_used e ≡ false → e.ptr ≡ Ptr.empty
unused-ptr e h = ground arith

pub used_of_ne : (e : Entry) → e.ptr ≢ Ptr.empty → is_used e ≡ true
used_of_ne e h = ground arith
