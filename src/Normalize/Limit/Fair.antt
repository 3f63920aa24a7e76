-- ===== src/Normalize/Limit/Fair.antt =====
-- `_fair_limit_events` of src/kdiag/normalize.py keeps as many events as the limit allows, and some of each bucket.
use k8s_check.Prelude.{
  ℕ, zero, suc, ◌+◌, ◌≡◌, refl, List, [], ◌∷◌, ◌++◌, arith, min, ◌==◌, string_eq, list_eq, pair_eq,
  length, length-append, leb, if-elim, sort_by, insert_by,
}
use k8s_check.Normalize.Event.{Event}
use k8s_check.Normalize.Append.{Stats}
use k8s_check.Normalize.Limit.{
  Bucket, Queue, event_bucket, add_to_bucket, fill_buckets, again, take_in_turn, queue_leb,
  retained_events, fair_limit_events,
}

-- The number of the events in all buckets.
size : Queue → ℕ
size [] = 0
size ((_, (_, rest)) ∷ queue) = 1 + length rest + size queue

size-append : (q r : Queue) → size (q ++ r) ≡ size q + size r
unfolding size
size-append [] r = omega arith
size-append ((_, (_, rest)) ∷ q) r = omega (arith, size-append q r)

size-again : (k : Bucket) (rest : List Event) → size (again k rest) ≡ length rest
unfolding size
size-again k [] = refl
size-again k (e ∷ rest) = omega arith

size-add_to_bucket : (event : Event) (q : Queue) → size (add_to_bucket event q) ≡ 1 + size q
unfolding size add_to_bucket
size-add_to_bucket event [] = omega arith
size-add_to_bucket event ((k, (first, rest)) ∷ q) =
    if-elim (λ (r : Queue). size r ≡ 1 + size ((k, (first, rest)) ∷ q)) (event_bucket event == k)
      (λ _. omega (arith, length-append rest (event ∷ [])))
      (λ _. omega (arith, size-add_to_bucket event q))

size-fill_buckets :
    (events : List Event) (q : Queue) → size (fill_buckets events q) ≡ length events + size q
unfolding fill_buckets
size-fill_buckets [] q = omega arith
size-fill_buckets (event ∷ events) q =
    omega (arith, size-fill_buckets events (add_to_bucket event q), size-add_to_bucket event q)

size-insert_by :
    (x : Bucket × (Event × List Event)) (q : Queue) → size (insert_by queue_leb x q) ≡ size (x ∷ q)
unfolding size insert_by
size-insert_by x [] = refl
size-insert_by x (y ∷ q) =
    if-elim (λ (r : Queue). size r ≡ size (x ∷ (y ∷ q))) (queue_leb x y) (λ _. refl)
      (λ _. omega (arith, size-insert_by x q))

size-sort_by : (q : Queue) → size (sort_by queue_leb q) ≡ size q
unfolding size sort_by
size-sort_by [] = refl
size-sort_by (x ∷ q) = omega (arith, size-insert_by x (sort_by queue_leb q), size-sort_by q)

length-take_in_turn : (n : ℕ) (q : Queue) → length (take_in_turn n q) ≡ min n (size q)
unfolding size take_in_turn
length-take_in_turn zero q = omega arith
length-take_in_turn (suc n) [] = omega arith
length-take_in_turn (suc n) ((k, (event, rest)) ∷ q) = omega (
  arith,
  length-take_in_turn n (q ++ again k rest),
  size-append q (again k rest),
  size-again k rest,
)

-- The events that are left are as many as the limit allows: all, or exactly the limit.
pub length-fair_limit_events :
    (events : List Event) (limit : ℕ) (stats : Stats)
    → length (fair_limit_events events limit stats).0 ≡ min limit (length events)
unfolding fair_limit_events retained_events size
length-fair_limit_events events limit stats =
    let q = fill_buckets events [] in
    if-elim (λ (r : List Event × Stats). length r.0 ≡ min limit (length events))
      (leb (length events) limit) (λ h. ground (arith, h))
      (λ h. omega (
        arith,
        length-take_in_turn limit (sort_by queue_leb q),
        size-sort_by q,
        size-fill_buckets events [],
      ))
