-- ===== src/Value.antt =====
-- `Value` of include/KeyValueTypes.h and src/KeyValueTypes.cpp: bytes of any number.
use kvs_cash_machine.ByteArray.{ByteArray, bytes_eq}
use kvs_cash_machine.Common.{Bool}
use kvs_cash_machine.Key.{Key}

-- `class Value`
pub record Value : Type 0 where
  pub bytes : ByteArray

-- `Value::operator==`
unfoldable pub eq : Value → Value → Bool
unfolding bytes_eq
eq a b = bytes_eq a.bytes b.bytes

-- `struct KeyValue`
record KeyValue : Type 0 where
  key : Key
  value : Value
