-- ===== src/AdvancedBreaker/Sliding.antt =====
-- The sliding window of request results: requestWindow, windowIndex and windowFull.
use advanced_golang_tutorial.Prelude.{
  ℕ, ◌+◌, ◌%◌, Bool, true, false, not, List, ◌==◌, if◌then◌else◌, length, set, take, replicate,
  count_if,
}
pub mod Ring
pub mod Recent

pub record RequestResult : Type 0 where
  pub success : Bool
  pub duration : ℕ
  pub timestamp : ℕ
  pub is_slow_call : Bool

abbrev pub zero_result : RequestResult
zero_result = record { success = false; duration = 0; timestamp = 0; is_slow_call = false }

-- The sliding window by itself.
pub record Window : Type 0 where
  pub requests : List RequestResult
  pub index : ℕ
  pub full : Bool

unfoldable pub add_to_window : RequestResult → Window → Window
add_to_window r w =
    let next = (w.index + 1) % length w.requests in
    record {
      requests = set w.requests w.index r;
      index = next;
      full = if next == 0 then true else w.full;
    }

unfoldable pub effective_window_size : Window → ℕ
effective_window_size w = if w.full then length w.requests else w.index

unfoldable pub failures : Window → ℕ
unfolding effective_window_size
failures w = count_if (λ r. not r.success) (take (effective_window_size w) w.requests)

unfoldable pub slow_calls : Window → ℕ
unfolding effective_window_size
slow_calls w = count_if (λ r. r.is_slow_call) (take (effective_window_size w) w.requests)

unfoldable pub empty_window : ℕ → Window
empty_window size = record { requests = replicate size zero_result; index = 0; full = false }
