-- ===== src/Outcome.antt =====
-- Exceptions and failed assertions as values: `KVSException` (include/KVSException.h,
-- src/KVSException.cpp), the other ways in which the code stops, and the two monads of the model.
use Prim.Native.String.{String}
use kvs_cash_machine.Common.{Bool, true, false}

-- `enum class KVSErrorType`
pub data KvsErrorType : Type 0 where
  shard_overflow : KvsErrorType
  storage_open_failed : KvsErrorType
  storage_close_failed : KvsErrorType
  storage_read_failed : KvsErrorType
  storage_write_failed : KvsErrorType
  ptr_index_out_of_bounds : KvsErrorType
  storage_hash_table_invalid_build_data : KvsErrorType
  failed_to_create_shard_directory : KvsErrorType
  shard_rebuilder_failed_to_replace_old_files : KvsErrorType
  failed_to_get_values_file_size : KvsErrorType

-- What ends a call early. `kvs_exception` is `KVSException`, and the next four are exceptions of the
-- standard library. The others do not return: `division_by_zero` is undefined behaviour,
-- `out_of_fuel` a recursion that the model's bound cuts off, `assertion_failed` a false `assert`,
-- and `terminate` is `std::terminate`, to which an exception leads that leaves a `noexcept` function.
pub data Error : Type 0 where
  kvs_exception : KvsErrorType → Error
  logic_error : Error
  length_error : Error
  filesystem_error : Error
  ios_failure : Error
  division_by_zero : Error
  out_of_fuel : Error
  assertion_failed : Error
  terminate : Error

-- `KVSException::what`
unfoldable pub what : KvsErrorType → String
what shard_overflow = "Shard overflow error"
what storage_open_failed = "Failed to open storage file"
what storage_close_failed = "Failed to close storage file"
what storage_read_failed = "Failed to read storage file"
what storage_write_failed = "Failed to write to storage file"
what ptr_index_out_of_bounds = "Failed to create Ptr object: index is too large"
what storage_hash_table_invalid_build_data = "Failed to build StorageHashTable: invalid data"
what failed_to_create_shard_directory = "Failed to create shard directory"
what shard_rebuilder_failed_to_replace_old_files =
    "ShardRebuilder failed to move new shard files to old ones"
what failed_to_get_values_file_size = "Failed to get shard values file size"

-- A computation with no state: a value or an error.
pub data Result (A : Type 0) : Type 0 where
  ok : A → Result A
  err : Error → Result A

infixl 5 ◌>>=◌ ◌>>◌
abbrev pub ◌>>=◌ : {A B : Type 0} → Result A → (A → Result B) → Result B
ok a >>= f = f a
err e >>= f = err e

abbrev pub ◌>>◌ : {B : Type 0} → Result (Unit {0}) → Result B → Result B
m >> k = m >>= λ _. k

-- `assert(b)`, in a build without `NDEBUG`
abbrev pub assert : Bool → Result (Unit {0})
assert true = ok tt
assert false = err assertion_failed

-- What becomes of a result at the end of a `noexcept` function.
unfoldable pub no_throw : {A : Type 0} → Result A → Result A
no_throw (ok a) = ok a
no_throw (err (kvs_exception e)) = err terminate
no_throw (err logic_error) = err terminate
no_throw (err length_error) = err terminate
no_throw (err filesystem_error) = err terminate
no_throw (err ios_failure) = err terminate
no_throw (err division_by_zero) = err division_by_zero
no_throw (err out_of_fuel) = err out_of_fuel
no_throw (err assertion_failed) = err assertion_failed
no_throw (err terminate) = err terminate
