-- ===== src/RateLimiter/Bucket/Window.antt =====
-- How many requests one rule allows a bucket within any interval.
use advanced_golang_tutorial.Prelude.{
  ℕ, suc, ◌+◌, ◌*◌, ◌≤◌, ◌<◌, ◌≡◌, List, [], ◌∷◌, arith, leb, if◌then◌else◌, count_if, two_63,
  Bool-cases, inl, inr, le_i64, add_i64,
}
use advanced_golang_tutorial.RateLimiter.Rules.{Rule}
use advanced_golang_tutorial.RateLimiter.Bucket.{
  ClientBucket, roll_window, roll_burst, decide, count_allowed, check_at,
}
use advanced_golang_tutorial.RateLimiter.Bucket.Meter.{
  lies_in, Meter, empty-Meter, Meter-roll, Meter-wait, Meter-count,
}

-- The instants of the requests that a rule allows, latest first, and the bucket after them all.
unfoldable pub run_checks : Rule → List ℕ → List ℕ → ClientBucket → List ℕ × ClientBucket
run_checks rule [] log b = (log, b)
run_checks rule (now ∷ later) log b =
    let (result, b') = check_at rule now b in
    run_checks rule later (if result.allowed then now ∷ log else log) b'

-- Instants that do not go back, from a first bound on.
abbrev pub Ascending : ℕ → List ℕ → Type 0
Ascending bound [] = Unit {0}
Ascending bound (x ∷ xs) = (bound ≤ x) × Ascending x xs

-- Both meters of a bucket.
record Metered (rule : Rule) (t u last : ℕ) (log : List ℕ) (b : ClientBucket) : Type 0 where
  general :
      Meter rule.window rule.limit t b.window_start b.request_count last
        (count_if (lies_in t rule.window) log)
  bursts :
      Meter rule.burst_window rule.burst_limit u b.burst_start b.burst_count last
        (count_if (lies_in u rule.burst_window) log)

pub record IsSane (rule : Rule) : Type 0 where
  pub limit_small : rule.limit < two_63
  pub burst_small : rule.burst_limit < two_63
  pub window_pos : 0 < rule.window
  pub burst_pos : 0 < rule.burst_window

rolled-general :
    (rule : Rule) (t last now seen : ℕ) (b : ClientBucket)
    → 0 < rule.window
    → last ≤ now
    → Meter rule.window rule.limit t b.window_start b.request_count last seen
    → let b' = roll_window rule now b in
      Meter rule.window rule.limit t b'.window_start b'.request_count now seen
      × (now < b'.window_start + rule.window)
unfolding roll_window
rolled-general rule t last now seen b p h m =
    elim (Bool-cases (leb (b.window_start + rule.window) now)) [
      | inl over ↦
          rw (over, roll_window)
            (
              Meter-roll rule.window rule.limit t b.window_start b.request_count last seen now m h
                  (ground arith),
              omega arith,
            )
      | inr on ↦
          rw (on, roll_window)
            (
              Meter-wait rule.window rule.limit t b.window_start b.request_count last seen now m h,
              ground arith,
            )
    ]

rolled-bursts :
    (rule : Rule) (t last now seen : ℕ) (b : ClientBucket)
    → 0 < rule.burst_window
    → last ≤ now
    → Meter rule.burst_window rule.burst_limit t b.burst_start b.burst_count last seen
    → let b' = roll_burst rule now b in
      Meter rule.burst_window rule.burst_limit t b'.burst_start b'.burst_count now seen
      × (now < b'.burst_start + rule.burst_window)
unfolding roll_burst
rolled-bursts rule t last now seen b p h m =
    elim (Bool-cases (leb (b.burst_start + rule.burst_window) now)) [
      | inl over ↦
          rw (over, roll_burst)
            (
              Meter-roll rule.burst_window rule.burst_limit t b.burst_start b.burst_count last seen
                  now m h (ground arith),
              omega arith,
            )
      | inr on ↦
          rw (on, roll_burst)
            (
              Meter-wait rule.burst_window rule.burst_limit t b.burst_start b.burst_count last seen
                  now m h,
              ground arith,
            )
    ]

-- Each roll leaves the other meter alone.
roll_burst-general :
    (rule : Rule) (now : ℕ) (b : ClientBucket)
    → ((roll_burst rule now b).window_start ≡ b.window_start)
      × ((roll_burst rule now b).request_count ≡ b.request_count)
unfolding roll_burst
roll_burst-general rule now b = ground arith

roll_window-bursts :
    (rule : Rule) (now : ℕ) (b : ClientBucket)
    → ((roll_window rule now b).burst_start ≡ b.burst_start)
      × ((roll_window rule now b).burst_count ≡ b.burst_count)
unfolding roll_window
roll_window-bursts rule now b = ground arith

rolled-Metered :
    (rule : Rule) (t u last now : ℕ) (log : List ℕ) (b : ClientBucket)
    → IsSane rule
    → last ≤ now
    → Metered rule t u last log b
    → let b' = roll_burst rule now (roll_window rule now b) in
      Metered rule t u now log b'
      × (now < b'.window_start + rule.window)
      × (now < b'.burst_start + rule.burst_window)
rolled-Metered rule t u last now log b s h m =
    let w = roll_window rule now b in
    let (same_start, same_count) = roll_burst-general rule now w in
    let (same_burst_start, same_burst_count) = roll_window-bursts rule now b in
    let (general, in_window) = rolled-general rule t last now _ b s.window_pos h m.general in
    let (bursts, in_burst) =
      rolled-bursts rule u last now _ w s.burst_pos h
        (rw (same_burst_start, same_burst_count) (m.bursts)) in
    (
      record { general = rw (same_start, same_count) general; bursts = bursts },
      rw same_start in_window,
      in_burst,
    )

allowed-Metered :
    (rule : Rule) (t u now : ℕ) (log : List ℕ) (b : ClientBucket)
    → IsSane rule
    → now < b.window_start + rule.window
    → now < b.burst_start + rule.burst_window
    → Metered rule t u now log b
    → b.burst_count < rule.burst_limit
    → b.request_count < rule.limit
    → Metered rule t u now (now ∷ log) (count_allowed now b)
unfolding count_allowed
allowed-Metered rule t u now log b s w v m burst_free free =
    let request_up : add_i64 b.request_count 1 ≡ suc b.request_count =
      omega (arith, s.limit_small) in
    let burst_up : add_i64 b.burst_count 1 ≡ suc b.burst_count = omega (arith, s.burst_small) in
    record {
      general = rw request_up (
          Meter-count rule.window rule.limit t b.window_start b.request_count now _ m.general w
            free);
      bursts = rw burst_up (
          Meter-count rule.burst_window rule.burst_limit u b.burst_start b.burst_count now _
            m.bursts v burst_free);
    }

decided-Metered :
    (rule : Rule) (t u now : ℕ) (log : List ℕ) (b : ClientBucket)
    → IsSane rule
    → now < b.window_start + rule.window
    → now < b.burst_start + rule.burst_window
    → Metered rule t u now log b
    → let (result, b') = decide rule now b in
      Metered rule t u now (if result.allowed then now ∷ log else log) b'
unfolding decide
decided-Metered rule t u now log b s w v m =
    elim (Bool-cases (le_i64 rule.burst_limit b.burst_count)) [
      | inl burst ↦ rw (burst, decide) m
      | inr calm ↦ elim (Bool-cases (le_i64 rule.limit b.request_count)) [
        | inl full ↦ rw (calm, full, decide) m
        | inr free ↦
            rw (calm, free, decide)
              (allowed-Metered rule t u now log b s w v m (ground (arith, m.bursts))
                (ground (arith, m.general)))
      ]
    ]

run_checks-Metered :
    (rule : Rule) (t u last : ℕ) (times log : List ℕ) (b : ClientBucket)
    → IsSane rule
    → Ascending last times
    → Metered rule t u last log b
    → let (log', b') = run_checks rule times log b in (end : ℕ) × Metered rule t u end log' b'
unfolding run_checks check_at
run_checks-Metered rule t u last [] log b s a m = (last, m)
run_checks-Metered rule t u last (now ∷ times) log b s a m =
    let (rolled, w, v) = rolled-Metered rule t u last now log b s a.0 m in
    run_checks-Metered rule t u now times _ _ s a.1
      (decided-Metered rule t u now log (roll_burst rule now (roll_window rule now b)) s w v rolled)

-- A bucket with no requests in its windows, and requests under one rule with positive windows and
-- limits below 2 ^ 63, at instants that do not go back and none of which lies before either window
-- began: any interval as long as the window has at most twice the limit of allowed requests, and
-- any as long as the burst window at most twice the burst limit.
pub any_interval_bounded :
    (rule : Rule) (t u from : ℕ) (times : List ℕ) (b : ClientBucket)
    → IsSane rule
    → b.request_count ≡ 0
    → b.burst_count ≡ 0
    → b.window_start ≤ from
    → b.burst_start ≤ from
    → Ascending from times
    → let log = (run_checks rule times [] b).0 in
      (count_if (lies_in t rule.window) log ≤ 2 * rule.limit)
      × (count_if (lies_in u rule.burst_window) log ≤ 2 * rule.burst_limit)
any_interval_bounded rule t u from times b s r c f g a =
    let (end, m) = run_checks-Metered rule t u from times [] b s a (record {
      general = empty-Meter rule.window rule.limit t b.window_start b.request_count from f r;
      bursts =
          empty-Meter rule.burst_window rule.burst_limit u b.burst_start b.burst_count from g c;
    }) in
    (m.general.twice, m.bursts.twice)
