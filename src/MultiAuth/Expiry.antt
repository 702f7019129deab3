-- ===== src/MultiAuth/Expiry.antt =====
-- How long a result is returned from the cache.
use advanced_golang_tutorial.Prelude.{
  ℕ, ◌+◌, ◌≤◌, ◌≡◌, refl, sym, ap, subst, ◌∙◌, true, arith, ltb, ◌==◌, Bool-cases, Option-cases,
  inl, inr, ◌⊎◌, All, Text, All-mono,
}
use advanced_golang_tutorial.MultiAuth.Selection.{AuthConfig, AuthResult}
use advanced_golang_tutorial.MultiAuth.Cache.{CacheEntry, lookup, touch, look_up, new_entry, hit}
use advanced_golang_tutorial.MultiAuth.{check_cache}
use advanced_golang_tutorial.MultiAuth.Runs.{
  Event, finishes, Running, InTime, init, Run, starts, continues,
}
use advanced_golang_tutorial.MultiAuth.Success.{returns-Succeeds}
use advanced_golang_tutorial.MultiAuth.Entries.{All-lookup}
use advanced_golang_tutorial.MultiAuth.Steps.{Returns, check_cache-found, step-config, step-All}

-- A call that ended in the run before returned the result, after it asked the providers.
unfoldable pub IsReturned :
    {cfg : AuthConfig} {s : Running} {t : ℕ} → Run cfg s t → Text → AuthResult → ℕ → Type 0
unfolding Returns
IsReturned starts k r made = ⊥
IsReturned (continues {s} e now run later in_time) k r made =
    Returns e now s k r made ⊎ IsReturned run k r made

-- What a run owes an entry with the hash `k`.
record Sound {cfg : AuthConfig} {s : Running} {t : ℕ} (run : Run cfg s t) (k : Text)
    (e : CacheEntry) : Type 0 where
  made : ℕ
  returned : IsReturned run k e.result made
  made_before : made ≤ t
  kept_for : e.expires_at ≤ made + cfg.cache_expiration
  own : (e.result.expires_at ≡ 0) ⊎ (e.expires_at ≤ e.result.expires_at)

run-config : {cfg : AuthConfig} {s : Running} {t : ℕ} → Run cfg s t → s.system.config ≡ cfg
unfolding init
run-config starts = refl
run-config (continues {s} e now run later in_time) = step-config e now s ∙ run-config run

new_entry-kept :
    (cfg : AuthConfig) (made : ℕ) (r : AuthResult)
    → ((new_entry cfg made r).expires_at ≤ made + cfg.cache_expiration)
      × ((r.expires_at ≡ 0) ⊎ ((new_entry cfg made r).expires_at ≤ r.expires_at))
unfolding new_entry
new_entry-kept cfg made r =
    let end = made + cfg.cache_expiration in
    elim (Bool-cases (r.expires_at == 0)) [
      | inl never ↦ (ground arith, inl (ground arith))
      | inr some_time ↦ (ground arith, inr (ground arith))
    ]

Returns-InTime :
    (e : Event) (now : ℕ) (s : Running) (k : Text) (r : AuthResult) (made : ℕ)
    → InTime e now
    → Returns e now s k r made
    → made ≤ now
unfolding InTime Returns
Returns-InTime (finishes j results at visits) now s k r made in_time (same, (same_at, returned)) =
    omega arith
Returns-InTime e now s k r made in_time never = elim never [ ]

run-Sound :
    {cfg : AuthConfig} {s : Running} {t : ℕ} (run : Run cfg s t)
    → All (λ entry. Sound run entry.0 entry.1) s.system.cache.cache
unfolding init IsReturned new_entry touch
run-Sound starts = tt
run-Sound {cfg} (continues {s} e now run later in_time) =
    let Owed : Text × CacheEntry → Type 0 =
      λ entry. Sound (continues e now run later in_time) entry.0 entry.1 in
    let before : All Owed s.system.cache.cache =
      All-mono (λ entry. Sound run entry.0 entry.1) Owed
        (λ entry d. record {
          made = d.made;
          returned = inr d.returned;
          made_before = omega arith;
          kept_for = d.kept_for;
          own = d.own;
        })
        s.system.cache.cache (run-Sound run) in
    let stored : (k : Text) (r : AuthResult) (made : ℕ)
        → Returns e now s k r made
        → Owed (k, new_entry s.system.config made r) =
      λ k r made returned.
        let kept = new_entry-kept s.system.config made r in
        let same = ap (λ c. c.cache_expiration) (run-config run) in
        record {
          made = made;
          returned = inl returned;
          made_before = Returns-InTime e now s k r made in_time returned;
          kept_for = omega (arith, kept.0, same);
          own = kept.1;
        } in
    step-All Owed e now s in_time
      (λ j d at when owed. record {
        made = owed.made;
        returned = owed.returned;
        made_before = owed.made_before;
        kept_for = owed.kept_for;
        own = owed.own;
      })
      stored before

event-Succeeds :
    (e : Event) (now : ℕ) (s : Running) (k : Text) (r : AuthResult) (made : ℕ)
    → Returns e now s k r made
    → r.success ≡ true
unfolding Returns
event-Succeeds (finishes j results at visits) now s k r made (same, (same_at, returned)) =
    returns-Succeeds j results at now visits s.system r returned
event-Succeeds e now s k r made never = elim never [ ]

returned-Succeeds :
    {cfg : AuthConfig} {s : Running} {t : ℕ} (run : Run cfg s t) (k : Text) (r : AuthResult)
    (made : ℕ)
    → IsReturned run k r made
    → r.success ≡ true
unfolding IsReturned
returned-Succeeds starts k r made never = elim never [ ]
returned-Succeeds (continues {s} e now run later in_time) k r made (inl h) =
    event-Succeeds e now s k r made h
returned-Succeeds (continues e now run later in_time) k r made (inr h) =
    returned-Succeeds run k r made h

-- In every run, a result that the cache answers with at an instant `now` is a success that a call
-- for a token with the same hash returned after it asked the providers; its entry was made no
-- longer than CacheExpiration ago, and a result with an expiry of its own is not past it.
pub check_cache-IsFresh :
    {cfg : AuthConfig} {s : Running} {t : ℕ} (run : Run cfg s t) (k : Text) (now : ℕ)
    (r : AuthResult)
    → (check_cache k now s.system).0 ≡ hit r
    → (r.success ≡ true)
      × ((made : ℕ) × (IsReturned run k r made
            × ((made ≤ t)
                × ((now ≤ made + cfg.cache_expiration)
                    × ((r.expires_at ≡ 0) ⊎ (now ≤ r.expires_at))))))
unfolding look_up
check_cache-IsFresh {cfg} {s} run k now r e =
    let found : look_up k now s.system.cache ≡ hit r = sym (check_cache-found k now s.system) ∙ e in
    elim (Option-cases (lookup k s.system.cache.cache)) [
      | inl absent ↦ ground arith
      | inr (d, present) ↦ elim (Bool-cases (ltb d.expires_at now)) [
        | inl late ↦ ground arith
        | inr in_time ↦
            let sound : Sound run k d =
              All-lookup (λ entry. Sound run entry.0 entry.1) k s.system.cache.cache d
                (run-Sound run) present in
            let same : d.result ≡ r = ground arith in
            let bound : now ≤ d.expires_at = ground arith in
            let returned = subst (λ x. IsReturned run k x sound.made) same sound.returned in
            let own =
              subst (λ x. (x.expires_at ≡ 0) ⊎ (d.expires_at ≤ x.expires_at)) same sound.own in
            let kept_for = sound.kept_for in
            (
              returned-Succeeds run k r sound.made returned,
              (
                sound.made,
                (
                  returned,
                  (
                    sound.made_before,
                    (
                      omega arith,
                      elim own [ inl never ↦ inl never | inr later ↦ inr (omega arith) ],
                    ),
                  ),
                ),
              ),
            )
      ]
    ]
