-- ===== src/Log/LogFile.antt =====
-- src/log/LogFile.cpp over the files of src/file/FileUtils.cpp. Times are seconds, and each call of `time` has
-- its own answer. The name of a file is told by the time and the number in it.
pub mod Rolling
pub mod Runs
mod Examples
use hohnor.Prelude.{
  ℕ, ◌+◌, ◌-◌, List, [], ◌∷◌, ◌++◌, Option, none, some, ltb, leb, if◌then◌else◌, ◌>>=◌,
}
use hohnor.File.AppendFile
use hohnor.File.AppendFile.{AppendFile, FwriteAnswer}

pub record FileName : Type 0 where
  pub time : ℕ
  pub number : ℕ

-- `closed` are the files that were rolled away, the oldest first; `log_file_counter` is the static counter.
pub record LogFile : Type 0 where
  pub check_every_n : ℕ
  pub roll_size : ℕ
  pub flush_interval : ℕ
  pub roll_interval : ℕ
  pub count : ℕ
  pub last_roll : ℕ
  pub last_flush : ℕ
  pub name : FileName
  pub file : AppendFile
  pub closed : List (FileName × AppendFile)
  pub log_file_counter : ℕ

-- `getLogFileName`, at the time that it reads.
unfoldable pub get_log_file_name : ℕ → ℕ → FileName × ℕ
get_log_file_name now counter = (record { time = now; number = counter }, counter + 1)

-- `rollFile`: the old file is closed when the new one takes its place.
unfoldable pub roll_file : ℕ → LogFile → LogFile
unfolding get_log_file_name AppendFile.open_new
roll_file now l =
    let (name, counter) = get_log_file_name now l.log_file_counter in
    record l {
      last_roll = now;
      last_flush = now;
      name = name;
      file = AppendFile.open_new;
      closed = l.closed ++ (l.name, l.file) ∷ [];
      log_file_counter = counter;
    }

-- The constructor, where `rollFile` opens the first file; `counter` is what other log files have used.
unfoldable pub create : ℕ → ℕ → ℕ → ℕ → ℕ → ℕ → LogFile
unfolding get_log_file_name AppendFile.open_new
create check_every_n flush_interval roll_size roll_interval now counter =
    let (name, counter') = get_log_file_name now counter in
    record {
      check_every_n = check_every_n;
      roll_size = roll_size;
      flush_interval = flush_interval;
      roll_interval = roll_interval;
      count = 0;
      last_roll = now;
      last_flush = now;
      name = name;
      file = AppendFile.open_new;
      closed = [];
      log_file_counter = counter';
    }

unfoldable pub flush : ℕ → LogFile → LogFile
unfolding AppendFile.flush
flush now l = record l { last_flush = now; file = AppendFile.flush l.file }

-- What `append` does when `count_` has come to `checkEveryN_`: `now` is the time that it reads, and `later`
-- what `rollFile` or `flush` then reads. A difference of times is above an interval as written.
abbrev pub check : ℕ → ℕ → LogFile → LogFile
check now later l =
    if ltb (l.last_roll + l.roll_interval) now
    then roll_file later l
    else if ltb (l.last_flush + l.flush_interval) now
    then flush later l
    else l

abbrev pub count_one : ℕ → ℕ → LogFile → LogFile
count_one now later l =
    if leb l.check_every_n (l.count + 1)
    then check now later (record l { count = 0 })
    else record l { count = l.count + 1 }

-- The roll and check of `append`, when the line is in the file.
abbrev pub appended : ℕ → ℕ → LogFile → LogFile
appended now later l =
    if ltb l.roll_size l.file.written_bytes then roll_file later l else count_one now later l

unfoldable pub append : List FwriteAnswer → ℕ → ℕ → List ℕ → LogFile → Option LogFile
append answers now later line l = do
  file ← AppendFile.append answers line l.file
  some (appended now later (record l { file = file }))
