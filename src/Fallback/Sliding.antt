-- ===== src/Fallback/Sliding.antt =====
-- The sliding window of the request results: requestWindow, windowIndex and windowFull.
use advanced_golang_tutorial.Prelude.{
  ℕ, ◌+◌, ◌%◌, Bool, true, false, not, List, if◌then◌else◌, ◌==◌, length, set, take, replicate,
  count_if,
}

pub data FallbackMode : Type 0 where
  normal_mode : FallbackMode
  fallback : FallbackMode
  transition_mode : FallbackMode

pub record RequestResult : Type 0 where
  pub success : Bool
  pub mode : FallbackMode
  pub timestamp : ℕ
  pub duration : ℕ

abbrev pub zero_result : RequestResult
zero_result = record { success = false; mode = normal_mode; timestamp = 0; duration = 0 }

pub record Window : Type 0 where
  pub results : List RequestResult
  pub index : ℕ
  pub full : Bool

unfoldable pub empty_window : ℕ → Window
empty_window size = record { results = replicate size zero_result; index = 0; full = false }

unfoldable pub add_to_window : RequestResult → Window → Window
add_to_window r w =
    let next = (w.index + 1) % length w.results in
    record {
      results = set w.results w.index r;
      index = next;
      full = if next == 0 then true else w.full;
    }

unfoldable pub get_effective_window_size : Window → ℕ
get_effective_window_size w = if w.full then length w.results else w.index

unfoldable pub failures : Window → ℕ
unfolding get_effective_window_size
failures w = count_if (λ r. not r.success) (take (get_effective_window_size w) w.results)
