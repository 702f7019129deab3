-- ===== src/RateLimiter/Bucket/Meter.antt =====
-- A counter that starts anew when its window is over, against the instants at which it was counted.
use native.Mathlib.Decide.{dec_le, dec_lt}
use advanced_golang_tutorial.Prelude.{
  ℕ, suc, ◌+◌, ◌*◌, ◌≤◌, ◌<◌, ◌≡◌, refl, Bool, ◌&&◌, arith, ltb, leb, if◌then◌else◌,
}

-- Whether an instant lies in the interval of length `w` from `t` on.
abbrev pub lies_in : ℕ → ℕ → ℕ → Bool
lies_in t w x = leb t x && ltb x (t + w)

-- A meter of length `w` and limit `l`, whose window began at `start` and has counted `count`, when
-- the last instant was `last`, and `seen` instants were counted in the interval from `t` on.
pub record Meter (w l t start count last seen : ℕ) : Type 0 where
  pub begun : start ≤ last
  pub limited : count ≤ l
  pub later : start + w ≤ t → seen ≡ 0
  pub inside : start ≤ t → seen ≤ count
  pub across : t < start → start < t + w → seen ≤ l + count
  pub twice : seen ≤ 2 * l

-- A new window begins, where the old one is over.
pub Meter-roll :
    (w l t start count last seen now : ℕ)
    → Meter w l t start count last seen
    → last ≤ now
    → start + w ≤ now
    → Meter w l t now 0 now seen
Meter-roll w l t start count last seen now m h o = record {
  begun = omega arith;
  limited = omega arith;
  later = λ e. omega (arith, m.later);
  inside = λ e. omega (arith, m.later);
  across = λ e f. omega (arith, m.inside, m.across);
  twice = m.twice;
}

pub Meter-wait :
    (w l t start count last seen now : ℕ)
    → Meter w l t start count last seen
    → last ≤ now
    → Meter w l t start count now seen
Meter-wait w l t start count last seen now m h = record {
  begun = omega arith;
  limited = m.limited;
  later = m.later;
  inside = m.inside;
  across = m.across;
  twice = m.twice;
}

-- One more instant is counted, inside the window and under the limit.
pub Meter-count :
    (w l t start count now seen : ℕ)
    → Meter w l t start count now seen
    → now < start + w
    → count < l
    → Meter w l t start (suc count) now ((if lies_in t w now then 1 else 0) + seen)
Meter-count w l t start count now seen m h c = record {
  begun = m.begun;
  limited = c;
  later = λ e. ground (arith, m.later e);
  inside = λ e. ground (arith, m.inside e);
  across = λ e f. ground (arith, m.across e f);
  twice = elim (dec_le start t) [
    | yes i ↦ ground (arith, m.inside i)
    | no a ↦ elim (dec_lt start (t + w)) [
      | yes b ↦ ground (arith, m.across (omega arith) b)
      | no e ↦ ground arith
    ]
  ];
}

pub empty-Meter :
    (w l t start count last : ℕ) → start ≤ last → count ≡ 0 → Meter w l t start count last 0
empty-Meter w l t start count last h e = record {
  begun = h;
  limited = omega arith;
  later = λ _. refl;
  inside = λ _. omega arith;
  across = λ _ _. omega arith;
  twice = omega arith;
}
