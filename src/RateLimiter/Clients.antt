-- ===== src/RateLimiter/Clients.antt =====
-- Clients and their buckets: keys, sharing, and the clean-up.
use mathlib.Core.List.{append_assoc}
use advanced_golang_tutorial.Prelude.{
  ℕ, ◌+◌, ◌≤◌, ◌<◌, ◌≡◌, refl, sym, ap, ◌∙◌, ◌⊎◌, true, false, List, [], ◌∷◌, ◌++◌, Option, none,
  some, arith, length, get_elem?, same_text_refl, Text, Option-cases, Bool-cases, inl, inr,
}
use advanced_golang_tutorial.RateLimiter.Rules.{Request, Rule}
use advanced_golang_tutorial.RateLimiter.Bucket.{ClientBucket, check_at}
use advanced_golang_tutorial.RateLimiter.Bucket.Expiry.{Looks, check_at-expired}
use advanced_golang_tutorial.RateLimiter.{
  Limiter, bucket_key, new_bucket, get_or_create_bucket, is_inactive, keep_active, cleanup_buckets,
  update,
}

keys_meet :
    (r s : Request) (a b c : Text)
    → r.client_id ≡ a ++ b':' ∷ b
    → r.api_key ≡ c
    → s.client_id ≡ a
    → s.api_key ≡ b ++ b':' ∷ c
    → bucket_key s.client_id s.api_key ≡ bucket_key r.client_id r.api_key
unfolding bucket_key
keys_meet r s a b c e f g h = rw (e, f, g, h) (sym (append_assoc a (b':' ∷ b) (b':' ∷ c)))

get_or_create_bucket-found :
    (r : Request) (clock a : ℕ) (l : Limiter)
    → l.buckets (bucket_key r.client_id r.api_key) ≡ some a
    → get_or_create_bucket r clock l ≡ (a, l)
unfolding get_or_create_bucket
get_or_create_bucket-found r clock a l e = rw (e, get_or_create_bucket) refl

get_or_create_bucket-new :
    (r : Request) (clock : ℕ) (l : Limiter)
    → l.buckets (bucket_key r.client_id r.api_key) ≡ none
    → get_or_create_bucket r clock l ≡ (
      length l.heap,
      record l {
        buckets = update l.buckets (bucket_key r.client_id r.api_key) (length l.heap);
        heap = l.heap ++ new_bucket r clock ∷ [];
      },
    )
unfolding get_or_create_bucket
get_or_create_bucket-new r clock l e = rw (e, get_or_create_bucket) refl

update-same : (m : Text → Option ℕ) (k : Text) (a : ℕ) → update m k a k ≡ some a
update-same m k a = rw (same_text_refl k) refl

-- Two clients whose identifier and key differ only in where the colon between them stands get one
-- and the same bucket: the second client finds the place that the first one was given.
pub clients_share :
    (r s : Request) (first second : ℕ) (l : Limiter) (a b c : Text)
    → r.client_id ≡ a ++ b':' ∷ b
    → r.api_key ≡ c
    → s.client_id ≡ a
    → s.api_key ≡ b ++ b':' ∷ c
    → let (place, l') = get_or_create_bucket r first l in
      get_or_create_bucket s second l' ≡ (place, l')
clients_share r s first second l a b c e f g h =
    let one_key : bucket_key s.client_id s.api_key ≡ bucket_key r.client_id r.api_key =
      keys_meet r s a b c e f g h in
    elim (Option-cases (l.buckets (bucket_key r.client_id r.api_key))) [
      | inr (p, found) ↦
          rw (get_or_create_bucket-found r first p l found)
            (get_or_create_bucket-found s second p l (ap l.buckets one_key ∙ found))
      | inl new ↦ rw (get_or_create_bucket-new r first l new) (
          get_or_create_bucket-found s second (length l.heap) _
            (rw one_key (update-same l.buckets (bucket_key r.client_id r.api_key) (length l.heap))))
    ]

keep_active-gone :
    (ttl now a : ℕ) (heap : List ClientBucket) (old : ClientBucket)
    → get_elem? heap a ≡ some old
    → is_inactive ttl now old ≡ true
    → keep_active ttl now heap (some a) ≡ none
unfolding keep_active
keep_active-gone ttl now a heap old h gone = rw (h, keep_active) (rw gone refl)

keep_active-stays :
    (ttl now a : ℕ) (heap : List ClientBucket) (old : ClientBucket)
    → get_elem? heap a ≡ some old
    → is_inactive ttl now old ≡ false
    → keep_active ttl now heap (some a) ≡ some a
unfolding keep_active
keep_active-stays ttl now a heap old h stays = rw (h, keep_active) (rw stays refl)

inactive-over :
    (ttl now : ℕ) (b : ClientBucket) → is_inactive ttl now b ≡ true → b.last_request + ttl < now
unfolding is_inactive
inactive-over ttl now b e = ground arith

new_bucket-Looks : (r : Request) (now : ℕ) → Looks now (new_bucket r now)
unfolding new_bucket
new_bucket-Looks r now = (refl, refl, refl, refl)

-- A clean-up takes a bucket from the map only when it no longer matters: if the rule's windows are
-- no longer than the time to live, and the bucket's windows did not begin after its last request,
-- then either the bucket stays in its place, or it is taken away and a later check answers with a
-- bucket that is made for it what it would have answered with the one that was taken away.
pub cleanup_forgets_nothing :
    (l : Limiter) (k : Text) (a now later : ℕ) (old : ClientBucket) (rule : Rule) (r : Request)
    → l.buckets k ≡ some a
    → get_elem? l.heap a ≡ some old
    → rule.window ≤ l.bucket_ttl
    → rule.burst_window ≤ l.bucket_ttl
    → old.window_start ≤ old.last_request
    → old.burst_start ≤ old.last_request
    → now ≤ later
    → (((cleanup_buckets now l).buckets k ≡ none)
        × ((check_at rule later old).0 ≡ (check_at rule later (new_bucket r later)).0))
      ⊎ ((cleanup_buckets now l).buckets k ≡ some a)
unfolding cleanup_buckets
cleanup_forgets_nothing l k a now later old rule r e h w v p q n =
    elim (Bool-cases (is_inactive l.bucket_ttl now old)) [
      | inl gone ↦
          let over : old.last_request + l.bucket_ttl < now =
            inactive-over l.bucket_ttl now old gone in
          inl (
            rw e (keep_active-gone l.bucket_ttl now a l.heap old h gone),
            check_at-expired rule later old (new_bucket r later) (omega arith) (omega arith)
                (new_bucket-Looks r later),
          )
      | inr stays ↦ inr (rw e (keep_active-stays l.bucket_ttl now a l.heap old h stays))
    ]
