-- ===== src/Stats.antt =====
-- stats.go: four counters, atomic uint64s that wrap, and what Stats reports of the mount.
use fusefs.Inodes.{InodeManagerStats, zero_stats}
use fusefs.Common.{ℕ, String, ◌+◌, ◌%◌, ◌^◌}

pub record StatsCollector : Type 0 where
  pub operations : ℕ
  pub bytes_read : ℕ
  pub bytes_written : ℕ
  pub errors : ℕ

unfoldable pub new_stats_collector : StatsCollector
new_stats_collector = record { operations = 0; bytes_read = 0; bytes_written = 0; errors = 0 }

unfoldable pub record_operation : StatsCollector → StatsCollector
record_operation s = record s { operations = (s.operations + 1) % 2 ^ 64 }

unfoldable pub record_read : StatsCollector → ℕ → StatsCollector
record_read s n = record s { bytes_read = (s.bytes_read + n) % 2 ^ 64 }

unfoldable pub record_write : StatsCollector → ℕ → StatsCollector
record_write s n = record s { bytes_written = (s.bytes_written + n) % 2 ^ 64 }

unfoldable pub record_error : StatsCollector → StatsCollector
record_error s = record s { errors = (s.errors + 1) % 2 ^ 64 }

pub record Stats : Type 0 where
  pub mountpoint : String
  pub operations : ℕ
  pub bytes_read : ℕ
  pub bytes_written : ℕ
  pub errors : ℕ
  pub open_files : ℕ
  pub inode_stats : InodeManagerStats

-- The other fields are zero values.
unfoldable pub snapshot : StatsCollector → Stats
snapshot s = record {
  mountpoint = "";
  operations = s.operations;
  bytes_read = s.bytes_read;
  bytes_written = s.bytes_written;
  errors = s.errors;
  open_files = 0;
  inode_stats = zero_stats;
}
