-- ===== src/Runner/Streams.antt =====
-- What src/kdiag/runner.py keeps of the streams of a process does not depend on their pieces or on their order.
use k8s_check.Prelude.{
  ℕ, zero, suc, false, ◌||◌, ◌≡◌, refl, ◌∙◌, sym, ap, List, [], ◌∷◌, ◌++◌, string_eq, nat_eq,
  option_eq, ltb, length, arith, take, length-take, length-append,
}
use Prim.Native.Nat.{◌-◌, min}
use k8s_check.Runner.{
  Stream, standard_output, standard_error, Buffers, extend, overflows, read_chunk, read_events,
  read_output,
}

-- All that a process writes to each stream.
abbrev pub all_stdout : List (Stream × List ℕ) → List ℕ
all_stdout [] = []
all_stdout ((standard_output, chunk) ∷ events) = chunk ++ all_stdout events
all_stdout ((standard_error, chunk) ∷ events) = all_stdout events

abbrev pub all_stderr : List (Stream × List ℕ) → List ℕ
all_stderr [] = []
all_stderr ((standard_output, chunk) ∷ events) = all_stderr events
all_stderr ((standard_error, chunk) ∷ events) = chunk ++ all_stderr events

append_assoc : (xs ys zs : List ℕ) → (xs ++ ys) ++ zs ≡ xs ++ (ys ++ zs)
append_assoc [] ys zs = refl
append_assoc (x ∷ xs) ys zs = ap (λ r. x ∷ r) (append_assoc xs ys zs)

append_empty : (xs : List ℕ) → xs ++ [] ≡ xs
append_empty [] = refl
append_empty (x ∷ xs) = ap (λ r. x ∷ r) (append_empty xs)

-- The room that is left after a part of the pieces takes the same from the rest as the whole room from all.
take-append :
    (n : ℕ) (xs ys : List ℕ) → take n xs ++ take (n - length (take n xs)) ys ≡ take n (xs ++ ys)
take-append zero xs ys = refl
take-append (suc n) [] ys = let e : suc n - 0 ≡ suc n = omega arith in ap (λ m. take m ys) e
take-append (suc n) (x ∷ xs) ys =
    let e : suc n - suc (length (take n xs)) ≡ n - length (take n xs) = omega arith in
    ap (λ m. x ∷ (take n xs ++ take m ys)) e ∙ ap (λ r. x ∷ r) (take-append n xs ys)

extend-take :
    (n : ℕ) (xs buffer chunk : List ℕ)
    → buffer ≡ take n xs
    → extend n buffer chunk ≡ take n (xs ++ chunk)
extend-take n xs buffer chunk h = rw h (take-append n xs chunk)

overflows-take :
    (n : ℕ) (xs buffer chunk : List ℕ)
    → buffer ≡ take n xs
    → (ltb n (length xs) || overflows n buffer chunk) ≡ ltb n (length (xs ++ chunk))
overflows-take n xs buffer chunk h =
    let l : length buffer ≡ min n (length xs) = ap length h ∙ length-take n xs in
    ground (arith, l, length-append xs chunk)

module _ (m n : ℕ) where
  -- What was kept and noted when this much was written.
  record Kept (b : Buffers) (out err : List ℕ) : Type 0 where
    stdout_is : b.stdout ≡ take m out
    stderr_is : b.stderr ≡ take n err
    truncated_is : b.truncated ≡ (ltb m (length out) || ltb n (length err))

  read_chunk-Kept :
      (stream : Stream) (chunk : List ℕ) (b : Buffers) (out err : List ℕ)
      → Kept b out err
      → Kept
          (read_chunk m n stream chunk b)
          (out ++ all_stdout ((stream, chunk) ∷ []))
          (err ++ all_stderr ((stream, chunk) ∷ []))
  unfolding read_chunk
  read_chunk-Kept standard_output chunk b out err k =
      rw (append_empty chunk, append_empty err)
        (record {
          stdout_is = extend-take m out b.stdout chunk k.stdout_is;
          stderr_is = k.stderr_is;
          truncated_is =
              ground (arith, k.truncated_is, overflows-take m out b.stdout chunk k.stdout_is);
        })
  read_chunk-Kept standard_error chunk b out err k =
      rw (append_empty chunk, append_empty out)
        (record {
          stdout_is = k.stdout_is;
          stderr_is = extend-take n err b.stderr chunk k.stderr_is;
          truncated_is =
              ground (arith, k.truncated_is, overflows-take n err b.stderr chunk k.stderr_is);
        })

  all_stdout-cons :
      (e : Stream × List ℕ) (events : List (Stream × List ℕ))
      → all_stdout (e ∷ events) ≡ all_stdout (e ∷ []) ++ all_stdout events
  all_stdout-cons (standard_output, chunk) events =
      ap (λ c. c ++ all_stdout events) (sym (append_empty chunk))
  all_stdout-cons (standard_error, chunk) events = refl

  all_stderr-cons :
      (e : Stream × List ℕ) (events : List (Stream × List ℕ))
      → all_stderr (e ∷ events) ≡ all_stderr (e ∷ []) ++ all_stderr events
  all_stderr-cons (standard_output, chunk) events = refl
  all_stderr-cons (standard_error, chunk) events =
      ap (λ c. c ++ all_stderr events) (sym (append_empty chunk))

  read_events-Kept :
      (events : List (Stream × List ℕ)) (b : Buffers) (out err : List ℕ)
      → Kept b out err
      → Kept (read_events m n events b) (out ++ all_stdout events) (err ++ all_stderr events)
  unfolding read_events
  read_events-Kept [] b out err k = rw (append_empty out, append_empty err) k
  read_events-Kept ((stream, chunk) ∷ events) b out err k =
      rw
        (
          all_stdout-cons (stream, chunk) events,
          all_stderr-cons (stream, chunk) events,
          sym (append_assoc out (all_stdout ((stream, chunk) ∷ [])) (all_stdout events)),
          sym (append_assoc err (all_stderr ((stream, chunk) ∷ [])) (all_stderr events)),
        )
        (read_events-Kept events (read_chunk m n stream chunk b)
          (out ++ all_stdout ((stream, chunk) ∷ [])) (err ++ all_stderr ((stream, chunk) ∷ []))
          (read_chunk-Kept stream chunk b out err k))

-- In whatever pieces and order the streams are read, the beginning of each is kept up to its limit, and the output is
-- called truncated exactly if a stream is longer than its limit.
pub read_output_kept :
    (max_stdout_bytes max_stderr_bytes : ℕ) (events : List (Stream × List ℕ))
    → let b = read_output max_stdout_bytes max_stderr_bytes events in
      (b.stdout ≡ take max_stdout_bytes (all_stdout events))
      × (b.stderr ≡ take max_stderr_bytes (all_stderr events))
      × (b.truncated ≡ (
          ltb max_stdout_bytes (length (all_stdout events))
          || ltb max_stderr_bytes (length (all_stderr events))))
unfolding read_output
read_output_kept m n events =
    let k =
      read_events-Kept m n events (record { stdout = []; stderr = []; truncated = false }) [] []
        (start_kept m n) in
    (k.stdout_is, k.stderr_is, k.truncated_is)
  where
    start_kept : (m n : ℕ) → Kept m n (record { stdout = []; stderr = []; truncated = false }) [] []
    start_kept zero zero = record {
      stdout_is = refl;
      stderr_is = refl;
      truncated_is = ground arith;
    }
    start_kept zero (suc n) = record {
      stdout_is = refl;
      stderr_is = refl;
      truncated_is = ground arith;
    }
    start_kept (suc m) zero = record {
      stdout_is = refl;
      stderr_is = refl;
      truncated_is = ground arith;
    }
    start_kept (suc m) (suc n) = record {
      stdout_is = refl;
      stderr_is = refl;
      truncated_is = ground arith;
    }
