-- ===== src/FileOps/Fields.antt =====
-- src/file-ops.c: the functions that answer one field of a file, and the flags of a descriptor.
use Prim.Native.Nat.{bit_or}
use libcando.Base.{ℕ, Option, none, some, Bool, true, false}
use libcando.FileOps.{Flops, minus_one}

-- `udo_file_ops_get_fd`; -1 is none.
pub get_fd : Option Flops → Option ℕ
get_fd none = none
get_fd (some flops) = some flops.fd

-- `udo_file_ops_get_alloc_size`
pub get_alloc_size : Option Flops → ℕ
get_alloc_size none = minus_one
get_alloc_size (some flops) = flops.alloc_sz

-- `udo_file_ops_get_data_size`
pub get_data_size : Option Flops → ℕ
get_data_size none = minus_one
get_data_size (some flops) = flops.data_sz

-- `udo_file_ops_set_fd_flags` of a descriptor with the flags `opt`, or of none: whether the second
-- fcntl(2) succeeds is `can_set`; the result is whether 0 is returned, and the flags after it.
pub set_fd_flags : (opt : Option ℕ) → (can_set : Bool) → (flags : ℕ) → Bool × Option ℕ
set_fd_flags none can_set flags = (false, none)
set_fd_flags (some opt) false flags = (false, some opt)
set_fd_flags (some opt) true flags = (true, some (bit_or opt flags))
