-- ===== src/Normalize/Fingerprint/Bracket.antt =====
-- The counts of the fingerprint table against the true numbers of occurrences.
use k8s_check.Prelude.{
  ℕ, ◌+◌, ◌≤◌, ◌<◌, ◌≡◌, ◌∙◌, inl, inr, Bool, true, false, none, some, [], ◌∷◌, arith, ◌==◌, ==_iff,
  string_eq, pair_eq, leb, if◌then◌else◌, length, Bool-cases, Option-cases, leb→le,
}
use k8s_check.Dict.{
  lookup, insert, erase, has_key, NodupKeys, lookup-insert, lookup-erase, lookup-none_iff,
  insert-NodupKeys, erase-NodupKeys, length-insert_new, length-insert_old, length-erase,
  has_key-erase,
}
use k8s_check.Normalize.Event.{Event, Patterns}
use k8s_check.Normalize.Fingerprint.{
  Entry, Key, Table, key_of, weight, precedes, victim, replace, count_fingerprint,
}
use k8s_check.Normalize.Fingerprint.Context.{
  update_unknown_context-SameCount, count-new_unknown_entry,
}

-- The occurrences of every key, after `w` more of the key `k`.
abbrev pub bump : Key → ℕ → (Key → ℕ) → Key → ℕ
bump k w seen j = if j == k then seen j + w else seen j

-- How a table with room for `cap` entries stands to the true numbers of occurrences.
pub record IsBracket (cap : ℕ) (seen : Key → ℕ) (t : Table) : Type 0 where
  pub nodup : NodupKeys t
  pub tracked :
      (k : Key) (e : Entry)
      → lookup k t ≡ some e
      → (seen k ≤ e.count) × (e.count ≤ seen k + e.estimate_error)
  pub untracked :
      (k j : Key) (e : Entry) → lookup k t ≡ none → lookup j t ≡ some e → seen k ≤ e.count
  pub room : length t < cap → (k : Key) → lookup k t ≡ none → seen k ≡ 0
  pub size : length t ≤ cap

has_key_of_lookup : (k : Key) (t : Table) {e : Entry} → lookup k t ≡ some e → has_key k t ≡ true
has_key_of_lookup k t h = elim (Bool-cases (has_key k t)) [
  | inl found ↦ found
  | inr lost ↦ absurd (cc (h, (lookup-none_iff k t).1 lost))
]

module _ (cap : ℕ) (seen : Key → ℕ) (t : Table) (b : IsBracket cap seen t) (k : Key) (w : ℕ)
    (e' : Entry) where
  insert_old-IsBracket :
      (e : Entry)
      → lookup k t ≡ some e
      → e'.count ≡ e.count + w
      → e'.estimate_error ≡ e.estimate_error
      → IsBracket cap (bump k w seen) (insert k e' t)
  insert_old-IsBracket e found c r = record {
    nodup = insert-NodupKeys k e' t b.nodup;
    tracked =
        λ j x h. ground (arith, b.tracked j x, b.tracked k e, lookup-insert j k e' t, ==_iff j k);
    untracked = λ i j x h g. ground (
      arith,
      b.untracked i j x,
      b.untracked i k e,
      lookup-insert i k e' t,
      lookup-insert j k e' t,
      ==_iff j k,
      ==_iff i k,
    );
    room = λ h i g. ground (
      arith,
      b.room,
      lookup-insert i k e' t,
      length-insert_old k e' t (has_key_of_lookup k t found),
      b.room (omega (arith, length-insert_old k e' t (has_key_of_lookup k t found))) i,
    );
    size = rw (length-insert_old k e' t (has_key_of_lookup k t found)) b.size;
  }

  insert_new-IsBracket :
      lookup k t ≡ none
      → length t < cap
      → e'.count ≡ w
      → e'.estimate_error ≡ 0
      → IsBracket cap (bump k w seen) (insert k e' t)
  insert_new-IsBracket fresh space c r = record {
    nodup = insert-NodupKeys k e' t b.nodup;
    tracked = λ j x h.
        ground (arith, b.tracked j x, b.room space k fresh, lookup-insert j k e' t, ==_iff j k);
    untracked = λ i j x h g. ground (
      arith,
      b.room space i,
      b.untracked i j x,
      lookup-insert i k e' t,
      lookup-insert j k e' t,
      ==_iff j k,
      ==_iff i k,
    );
    room = λ h i g. ground (arith, b.room space i, lookup-insert i k e' t, ==_iff i k);
    size = rw (length-insert_new k e' t ((lookup-none_iff k t).0 fresh)) space;
  }

  length-replaced :
      (o : Key) (v : Entry)
      → lookup k t ≡ none
      → lookup o t ≡ some v
      → length (insert k e' (erase o t)) ≡ length t
  length-replaced o v fresh found =
      length-insert_new k e' (erase o t) (has_key-erase k o t ((lookup-none_iff k t).0 fresh))
      ∙ length-erase o t (has_key_of_lookup o t found)

  -- The victim `o` has the smallest count `v.count`.
  replace_victim-IsBracket :
      (o : Key) (v : Entry)
      → lookup k t ≡ none
      → lookup o t ≡ some v
      → ((j : Key) (e : Entry) → lookup j t ≡ some e → v.count ≤ e.count)
      → cap ≤ length t
      → e'.count ≡ v.count + w
      → e'.estimate_error ≡ v.count
      → IsBracket cap (bump k w seen) (insert k e' (erase o t))
  replace_victim-IsBracket o v fresh found least full c r =
      let same_size = length-replaced o v fresh found in
      record {
        nodup = insert-NodupKeys k e' (erase o t) (erase-NodupKeys o t b.nodup);
        tracked = λ j x h. ground (
          arith,
          b.tracked j x,
          b.untracked k o v fresh found,
          lookup-insert j k e' (erase o t),
          lookup-erase j o t b.nodup,
          ==_iff j k,
        );
        untracked = λ i j x h g. ground (
          arith,
          b.untracked i j x,
          b.untracked i o v,
          b.tracked i v,
          least j x,
          lookup-insert i k e' (erase o t),
          lookup-insert j k e' (erase o t),
          lookup-erase i o t b.nodup,
          lookup-erase j o t b.nodup,
          ==_iff i o,
          ==_iff i k,
          ==_iff j k,
        );
        room = λ h i g. absurd (omega (arith, same_size));
        size = omega (arith, same_size, b.size);
      }

-- The victim is an entry of the table, and none has a smaller count.
victim-mem :
    (best : Key × Entry) (t : Table)
    → NodupKeys (best ∷ t)
    → lookup (victim best t).0 (best ∷ t) ≡ some (victim best t).1
unfolding victim
victim-mem (k, v) [] u = ground (arith, ==_iff k k)
victim-mem (k, v) ((j, e) ∷ t) (fresh, (fresh', u)) =
    either (precedes (j, e) (k, v)) (victim-mem (j, e) t (fresh', u))
      (victim-mem (k, v) t (ground arith, u))
  where
    below :
        (i : Key) {x : Entry}
        → lookup i ((j, e) ∷ t) ≡ some x
        → lookup i ((k, v) ∷ (j, e) ∷ t) ≡ some x
    below i h = ground (arith, ==_iff i k, ==_iff k j, ==_iff i j, lookup-none_iff k t)

    beside :
        (i : Key) {x : Entry}
        → lookup i ((k, v) ∷ t) ≡ some x
        → lookup i ((k, v) ∷ (j, e) ∷ t) ≡ some x
    beside i h = ground (arith, ==_iff i k, ==_iff i j, lookup-none_iff j t)

    either :
        (b : Bool)
        → lookup (victim (j, e) t).0 ((j, e) ∷ t) ≡ some (victim (j, e) t).1
        → lookup (victim (k, v) t).0 ((k, v) ∷ t) ≡ some (victim (k, v) t).1
        → let next : Key × Entry = if b then (j, e) else (k, v) in
          lookup (victim next t).0 ((k, v) ∷ (j, e) ∷ t) ≡ some (victim next t).1
    either true first later = below (victim (j, e) t).0 first
    either false first later = beside (victim (k, v) t).0 later

victim_least :
    (best : Key × Entry) (t : Table)
    → ((victim best t).1.count ≤ best.1.count)
      × ((j : Key) (e : Entry) → lookup j t ≡ some e → (victim best t).1.count ≤ e.count)
unfolding victim precedes
victim_least best [] = (omega arith, λ j e h. cc)
victim_least (k, v) ((j, e) ∷ t) =
    let next : Key × Entry = if precedes (j, e) (k, v) then (j, e) else (k, v) in
    let ih = victim_least next t in (ground (arith, ih.0), λ i x h. ground (arith, ih.0, ih.1 i x))

module _ (p : Patterns) (cap : ℕ) (event : Event) (seen : Key → ℕ) where
  replace-IsBracket :
      (t : Table) (n : ℕ)
      → 0 < cap
      → IsBracket cap seen t
      → lookup (key_of event) t ≡ none
      → cap ≤ length t
      → IsBracket cap (bump (key_of event) (weight event) seen) (replace p event t n).table
  unfolding replace
  replace-IsBracket [] n pos b fresh full = absurd (omega arith)
  replace-IsBracket (x ∷ t) n pos b fresh full =
      let least = victim_least x t in
      let v = (victim x t).1 in
      let c = count-new_unknown_entry p (key_of event) event (v.count + weight event) v.count in
      replace_victim-IsBracket cap seen (x ∷ t) b (key_of event) (weight event) _ (victim x t).0 v
        fresh (victim-mem x t b.nodup) (λ j e h. ground (arith, least.0, least.1 j e)) full (c.0)
        (c.1)

  -- The table after an event brackets the numbers of occurrences after it.
  pub count_fingerprint-IsBracket :
      (t : Table) (n : ℕ)
      → 0 < cap
      → IsBracket cap seen t
      → IsBracket cap
          (bump (key_of event) (weight event) seen)
          (count_fingerprint p cap event t n).table
  unfolding count_fingerprint
  count_fingerprint-IsBracket t n pos b = elim (Option-cases (lookup (key_of event) t)) [
    | inl fresh ↦ elim (Bool-cases (leb cap (length t))) [
      | inl full ↦
          rw (fresh, count_fingerprint, full) (replace-IsBracket t n pos b fresh (leb→le _ _ full))
      | inr space ↦
          let c = count-new_unknown_entry p (key_of event) event (weight event) 0 in
          rw (fresh, count_fingerprint, space)
            (insert_new-IsBracket cap seen t b (key_of event) (weight event) _ fresh (ground arith)
              (c.0) (c.1))
    ]
    | inr (e, found) ↦
        let s =
          update_unknown_context-SameCount p (record e { count = e.count + weight event }) event in
        rw (found, count_fingerprint)
          (insert_old-IsBracket cap seen t b (key_of event) (weight event) _ e found s.count
            s.estimate_error)
  ]
