-- ===== src/LogCleaner.antt =====
-- flow_proxy_plugin/utils/log_cleaner.py: which log files a cleaning removes.
-- A directory is the list of the files that `glob("*.log*")` gives, whose sizes and times are
-- numbers and do not change during a cleaning; which `stat` and which `unlink` raise is a parameter.
-- A directory that is not there is cleaned as an empty one. A cutoff before the epoch stops at the
-- epoch, where no file is older.
pub mod Sweeps
pub mod Sorting
pub mod Limits
pub mod Cleaning
pub mod Threads
pub mod Tests
use flow_proxy.Base.{
  ℤ, pos, negsuc, ℕ, zero, suc, ◌+◌, ◌-◌, ◌*◌, Bool, true, false, ◌&&◌, ◌||◌, not, Option, none,
  some, List, [], ◌∷◌, ◌++◌, Text, length, ltb, leb, keep_if, if◌then◌else◌,
}

pub record LogFile : Type 0 where
  pub name : Text
  pub size : ℕ
  pub mtime : ℕ

pub record Disk : Type 0 where
  pub stat_fails : LogFile → Bool
  pub unlink_fails : LogFile → Bool

-- A negative size sets no limit, as a size of 0 does.
pub record Settings : Type 0 where
  pub retention_days : ℤ
  pub max_size_mb : ℕ

-- What a loop over files did: the files that are gone, the ones still there, and the two counters
-- of the code.
pub record Sweep : Type 0 where
  pub gone : List LogFile
  pub left : List LogFile
  pub deleted_files : ℕ
  pub freed_space : ℕ

abbrev pub nothing : Sweep
nothing = record { gone = []; left = []; deleted_files = 0; freed_space = 0 }

-- The file stays.
pub keep_file : LogFile → Sweep → Sweep
keep_file f s = record s { left = f ∷ s.left }

-- The file was unlinked.
pub drop_file : LogFile → Sweep → Sweep
drop_file f s = record s {
  gone = f ∷ s.gone;
  deleted_files = s.deleted_files + 1;
  freed_space = s.freed_space + f.size;
}

abbrev pub microseconds_per_day : ℕ
microseconds_per_day = 86400000000

abbrev pub total_size : List LogFile → ℕ
total_size [] = 0
total_size (f ∷ fs) = f.size + total_size fs

-- `log_files.sort(key=mtime)`, which is stable.
pub insert_by_mtime : LogFile → List LogFile → List LogFile
insert_by_mtime f [] = f ∷ []
insert_by_mtime f (g ∷ gs) =
    let rest = insert_by_mtime f gs in if ltb g.mtime f.mtime then g ∷ rest else f ∷ g ∷ gs

pub sort_by_mtime : List LogFile → List LogFile
unfolding insert_by_mtime
sort_by_mtime [] = []
sort_by_mtime (f ∷ fs) = insert_by_mtime f (sort_by_mtime fs)

abbrev pub max_size_bytes : Settings → ℕ
max_size_bytes s = s.max_size_mb * 1024 * 1024

pub both : Sweep → Sweep → Sweep
both first second = record {
  gone = first.gone ++ second.gone;
  left = second.left;
  deleted_files = first.deleted_files + second.deleted_files;
  freed_space = first.freed_space + second.freed_space;
}

-- `now - timedelta(days=...)`
days_before : ℕ → ℤ → ℕ
days_before now (pos n) = now - n * microseconds_per_day
days_before now (negsuc n) = now + (n + 1) * microseconds_per_day

pub cutoff_time : ℕ → Settings → ℕ
unfolding days_before
cutoff_time now s = days_before now s.retention_days

module _ (disk : Disk) where
  -- The test of the loop and its `try` block: the file is looked at, old, and goes.
  expires : ℕ → LogFile → Bool
  expires cutoff f = not (disk.stat_fails f) && ltb f.mtime cutoff && not (disk.unlink_fails f)

  pub sweep_expired : ℕ → List LogFile → Sweep
  unfolding keep_file drop_file expires
  sweep_expired cutoff [] = nothing
  sweep_expired cutoff (f ∷ fs) =
      let rest = sweep_expired cutoff fs in
      if expires cutoff f then drop_file f rest else keep_file f rest

  -- The deletion loop, with what is still in the directory by the code's count.
  pub sweep_oldest : ℕ → ℕ → List LogFile → Sweep
  unfolding keep_file drop_file
  sweep_oldest limit total [] = nothing
  sweep_oldest limit total (f ∷ fs) =
      let same = sweep_oldest limit total fs in
      let less = sweep_oldest limit (total - f.size) fs in
      if leb total limit || disk.unlink_fails f then keep_file f same else drop_file f less

  abbrev pub seen : List LogFile → List LogFile
  unfolding keep_if
  seen files = keep_if (λ f. not (disk.stat_fails f)) files

  abbrev pub unseen : List LogFile → List LogFile
  unfolding keep_if
  unseen files = keep_if disk.stat_fails files

  -- Within the limit nothing is done, which is what the loop then does as well.
  pub sweep_seen : ℕ → List LogFile → Sweep
  unfolding sweep_oldest sort_by_mtime
  sweep_seen limit files =
      if leb (total_size files) limit
      then record nothing { left = files }
      else sweep_oldest limit (total_size files) (sort_by_mtime files)

  unfoldable pub cleanup_by_size : Settings → List LogFile → Sweep
  unfolding sweep_seen
  cleanup_by_size s files =
      let swept = sweep_seen (max_size_bytes s) (seen files) in
      record swept { left = unseen files ++ swept.left }

  unfoldable pub cleanup_logs : ℕ → Settings → List LogFile → Sweep
  unfolding sweep_expired both cutoff_time
  cleanup_logs now s files =
      let aged = sweep_expired (cutoff_time now s) files in
      if ltb 0 s.max_size_mb then both aged (cleanup_by_size s aged.left) else aged

-- `get_log_stats`, with sizes in bytes and times as numbers.
pub record LogStats : Type 0 where
  pub total_files : ℕ
  pub total_bytes : ℕ
  pub oldest : Option ℕ
  pub newest : Option ℕ

earlier : ℕ → Option ℕ → Option ℕ
earlier t none = some t
earlier t (some old) = if ltb t old then some t else some old

later : ℕ → Option ℕ → Option ℕ
later t none = some t
later t (some new) = if ltb new t then some t else some new

module _ (disk : Disk) where
  -- The loop, with the statistics so far; a file that cannot be looked at adds nothing.
  collect : LogStats → List LogFile → LogStats
  unfolding earlier later
  collect stats [] = stats
  collect stats (f ∷ fs) =
      collect
        (if disk.stat_fails f then stats else record stats {
          total_bytes = stats.total_bytes + f.size;
          oldest = earlier f.mtime stats.oldest;
          newest = later f.mtime stats.newest;
        })
        fs

  -- `none` stands for a directory that is not there.
  unfoldable pub get_log_stats : Option (List LogFile) → LogStats
  unfolding collect
  get_log_stats none = record { total_files = 0; total_bytes = 0; oldest = none; newest = none }
  get_log_stats (some files) =
      collect (record { total_files = length files; total_bytes = 0; oldest = none; newest = none })
        files
