-- ===== src/Wal/Files/Limits.antt =====
-- The number of log files stays within the configured limit.
use qv_lite.Prelude.{◌+◌, ◌≤◌, length}
use qv_lite.Wal.Files.{WalFile}

-- There are at most `max_file_number` files.
abbrev pub IsBounded : {V : Type 0} → WalFile V → Type 0
IsBounded w = length w.complete + 1 ≤ w.config.max_file_number
