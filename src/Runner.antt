-- ===== src/Runner.antt =====
-- src/kdiag/runner.py: the output of a process, which is read in pieces from two streams up to a limit for each, and the
-- status of its record. The start of the process, the clock and the signals are not modelled: the pieces that
-- `os.read` gives and their order are the argument of `read_events`.
pub mod Streams
use k8s_check.Prelude.{
  ℕ, ◌-◌, Bool, true, false, ◌||◌, not, Option, none, some, List, [], ◌∷◌, ◌++◌, ◌==◌, nat_eq, ltb,
  if◌then◌else◌, is_empty, length, take, truthy, String,
}

-- `returncode`: the number of an exit, that of a signal, or None.
pub data ReturnCode : Type 0 where
  exited : ℕ → ReturnCode
  signalled : ℕ → ReturnCode
  unavailable : ReturnCode

-- `returncode == 0`
abbrev pub is_exit_zero : ReturnCode → Bool
is_exit_zero (exited n) = n == 0
is_exit_zero (signalled n) = false
is_exit_zero unavailable = false

-- The truth of `returncode`.
abbrev pub has_code : ReturnCode → Bool
has_code (exited n) = not (n == 0)
has_code (signalled n) = true
has_code unavailable = false

abbrev pub is_unavailable : ReturnCode → Bool
is_unavailable (exited n) = false
is_unavailable (signalled n) = false
is_unavailable unavailable = true

pub record ProcessResult : Type 0 where
  pub returncode : ReturnCode
  pub stdout : List ℕ
  pub stderr : List ℕ
  pub timed_out : Bool
  pub truncated : Bool
  pub error : Option String

pub data ProcessStatus : Type 0 where
  unsupported failed_to_run timeout cut_off collected failed : ProcessStatus

-- The status that `record` gives: "unsupported", "error", "timeout", "truncated", "collected" and "failed".
unfoldable pub process_status : ProcessResult → ProcessStatus
process_status r =
    if is_unavailable r.returncode
    then unsupported
    else if truthy r.error
    then failed_to_run
    else if r.timed_out
    then timeout
    else if r.truncated
    then cut_off
    else if is_exit_zero r.returncode
    then collected
    else failed

pub data Stream : Type 0 where
  standard_output standard_error : Stream

-- The buffers of the streams, and whether something was left out.
pub record Buffers : Type 0 where
  pub stdout : List ℕ
  pub stderr : List ℕ
  pub truncated : Bool

-- `buffer.extend(chunk[:available])`
abbrev pub extend : ℕ → List ℕ → List ℕ → List ℕ
extend limit buffer chunk = buffer ++ take (limit - length buffer) chunk

abbrev pub overflows : ℕ → List ℕ → List ℕ → Bool
overflows limit buffer chunk = ltb (limit - length buffer) (length chunk)

module _ (max_stdout_bytes max_stderr_bytes : ℕ) where
  -- One piece of a stream.
  unfoldable pub read_chunk : Stream → List ℕ → Buffers → Buffers
  read_chunk standard_output chunk b = record b {
    stdout = extend max_stdout_bytes b.stdout chunk;
    truncated = b.truncated || overflows max_stdout_bytes b.stdout chunk;
  }
  read_chunk standard_error chunk b = record b {
    stderr = extend max_stderr_bytes b.stderr chunk;
    truncated = b.truncated || overflows max_stderr_bytes b.stderr chunk;
  }

  -- The pieces in the order in which they come.
  unfoldable pub read_events : List (Stream × List ℕ) → Buffers → Buffers
  unfolding read_chunk
  read_events [] b = b
  read_events ((stream, chunk) ∷ events) b = read_events events (read_chunk stream chunk b)

  unfoldable pub read_output : List (Stream × List ℕ) → Buffers
  unfolding read_events
  read_output events = read_events events (record { stdout = []; stderr = []; truncated = false })
