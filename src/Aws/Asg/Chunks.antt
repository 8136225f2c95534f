-- ===== src/Aws/Asg/Chunks.antt =====
-- aws/asg.go: processChunked, and the calls that go through it.
use kube_ingress_aws_control.Prelude.{
  ℕ, zero, suc, ◌≤◌, ◌<◌, String, ◌≡◌, refl, sym, ap, subst, Option, none, some, List, [], ◌∷◌,
  ◌++◌, length, arith, append_assoc, append-nil, some_eq,
}

module _ {A : Type 0} where
  abbrev pub take : ℕ → List A → List A
  take zero xs = []
  take (suc n) [] = []
  take (suc n) (x ∷ xs) = x ∷ take n xs

  abbrev pub drop : ℕ → List A → List A
  drop zero xs = xs
  drop (suc n) [] = []
  drop (suc n) (x ∷ xs) = drop n xs

  pub take-drop : (n : ℕ) (xs : List A) → take n xs ++ drop n xs ≡ xs
  take-drop zero xs = refl
  take-drop (suc n) [] = refl
  take-drop (suc n) (x ∷ xs) = rw (take-drop n xs) refl

  length-take : (n : ℕ) (xs : List A) → length (take n xs) ≤ n
  length-take zero xs = omega arith
  length-take (suc n) [] = omega arith
  length-take (suc n) (x ∷ xs) = omega (arith, length-take n xs)

  length-drop : (n : ℕ) (xs : List A) → length (drop n xs) ≤ length xs
  length-drop zero xs = omega arith
  length-drop (suc n) [] = omega arith
  length-drop (suc n) (x ∷ xs) = omega (arith, length-drop n xs)

module _ {W E : Type 0} where
  -- a call on a chunk, which is left out if the chunk is empty
  abbrev pub on_chunk : (List String → W → W × Option E) → List String → W → W × Option E
  on_chunk process [] w = (w, none)
  on_chunk process (x ∷ xs) w = process (x ∷ xs) w

  abbrev pub unless_failed : W × Option E → (W → Option (W × Option E)) → Option (W × Option E)
  unless_failed (w, none) next = next w
  unless_failed (w, some e) next = some (w, some e)

  -- The loop over slice[i:]; `none` where the fuel runs out, as it does at chunk size 0, where the
  -- source loops for ever.
  unfoldable pub chunk_loop :
      ℕ → ℕ → (List String → W → W × Option E) → List String → W → Option (W × Option E)
  chunk_loop zero chunk_size process slice w = none
  chunk_loop (suc n) chunk_size process [] w = some (w, none)
  chunk_loop (suc n) chunk_size process (x ∷ xs) w =
      unless_failed (on_chunk process (take chunk_size (x ∷ xs)) w)
        (chunk_loop n chunk_size process (drop chunk_size (x ∷ xs)))

  unfoldable pub process_chunked :
      List String → ℕ → (List String → W → W × Option E) → W → Option (W × Option E)
  process_chunked slice chunk_size process w =
      chunk_loop (suc (length slice)) chunk_size process slice w

  module _ (P : List String → W → Type 0) (size : ℕ) (process : List String → W → W × Option E)
      (step : (done chunk : List String) (w : W)
        → P done w
        → 1 ≤ length chunk
        → length chunk ≤ suc size
        → (process chunk w).1 ≡ none
        → P (done ++ chunk) (process chunk w).0) where
    -- The run ends, and if no call failed, everything has been processed.
    abbrev pub Ends : List String → Option (W × Option E) → Type 0
    Ends slice r = (w : W) × (o : Option E) × (r ≡ some (w, o)) × (o ≡ none → P slice w)

    chunk_loop-Ends :
        (n : ℕ) (done rest : List String) (w : W)
        → length rest < n
        → P done w
        → Ends (done ++ rest) (chunk_loop n (suc size) process rest w)
    unfolding chunk_loop
    chunk_loop-Ends zero done rest w h p = absurd (omega arith)
    chunk_loop-Ends (suc n) done [] w h p =
        (w, none, refl, λ _. subst (λ l. P l w) (sym (append-nil done)) p)
    chunk_loop-Ends (suc n) done (x ∷ xs) w h p =
        after (process chunk w) refl (λ w'. chunk_loop-Ends n (done ++ chunk) rest w' short)
      where
        chunk : List String
        chunk = x ∷ take size xs

        rest : List String
        rest = drop size xs

        short : length rest < n
        short = omega (arith, length-drop size xs)

        after :
            (r : W × Option E)
            → process chunk w ≡ r
            → ((w' : W)
                → P (done ++ chunk) w'
                → Ends ((done ++ chunk) ++ rest) (chunk_loop n (suc size) process rest w'))
            → Ends (done ++ x ∷ xs) (unless_failed r (chunk_loop n (suc size) process rest))
        after (w', some e) q ih = (w', some e, refl, λ f. cc)
        after (w', none) q ih =
            subst (λ l. Ends l (chunk_loop n (suc size) process rest w')) whole (ih w' next)
          where
            whole : (done ++ chunk) ++ rest ≡ done ++ x ∷ xs
            whole = rw (append_assoc done chunk rest, take-drop size xs) refl

            next : P (done ++ chunk) w'
            next =
                subst (λ r. P (done ++ chunk) r.0) q
                  (step done chunk w p (omega arith) (omega (arith, length-take size xs))
                    (ap (λ r. r.1) q))

    -- With a chunk size of one or more the loop over a slice ends, having called `process` on
    -- chunks of at most that size in the order of the slice: what every successful call keeps of the
    -- part of the slice already done holds at the end of the whole slice, unless a call failed.
    pub process_chunked-Ends :
        (slice : List String) (w : W)
        → P [] w
        → Ends slice (process_chunked slice (suc size) process w)
    unfolding process_chunked
    process_chunked-Ends slice w p = chunk_loop-Ends (suc (length slice)) [] slice w (omega arith) p

  module _ (Inv : W → Type 0) (process : List String → W → W × Option E)
      (step : (chunk : List String) (w : W) → Inv w → Inv (process chunk w).0) where
    abbrev pub Kept : Option (W × Option E) → Type 0
    Kept none = Unit
    Kept (some r) = Inv r.0

    on_chunk_keeps : (chunk : List String) (w : W) → Inv w → Inv (on_chunk process chunk w).0
    on_chunk_keeps [] w p = p
    on_chunk_keeps (x ∷ xs) w p = step (x ∷ xs) w p

    unless_failed-Kept :
        (r : W × Option E) (next : W → Option (W × Option E))
        → Inv r.0
        → ((w : W) → Inv w → Kept (next w))
        → Kept (unless_failed r next)
    unless_failed-Kept (w, none) next p f = f w p
    unless_failed-Kept (w, some e) next p f = p

    chunk_loop-Kept :
        (n chunk_size : ℕ) (slice : List String) (w : W)
        → Inv w
        → Kept (chunk_loop n chunk_size process slice w)
    unfolding chunk_loop
    chunk_loop-Kept zero chunk_size slice w p = tt
    chunk_loop-Kept (suc n) chunk_size [] w p = p
    chunk_loop-Kept (suc n) chunk_size (x ∷ xs) w p =
        unless_failed-Kept (on_chunk process (take chunk_size (x ∷ xs)) w)
          (chunk_loop n chunk_size process (drop chunk_size (x ∷ xs)))
          (on_chunk_keeps (take chunk_size (x ∷ xs)) w p)
          (chunk_loop-Kept n chunk_size (drop chunk_size (x ∷ xs)))

    -- What every call keeps, failed or not, a run keeps, failed or not.
    pub process_chunked-Kept :
        (slice : List String) (chunk_size : ℕ) (w : W)
        → Inv w
        → Kept (process_chunked slice chunk_size process w)
    unfolding process_chunked
    process_chunked-Kept slice chunk_size w p =
        chunk_loop-Kept (suc (length slice)) chunk_size slice w p

  module _ (process : List String → W → W × Option E) (failure : E) where
    abbrev pub Failed : Type 0
    Failed = (chunk : List String) × (w : W) × ((process chunk w).1 ≡ some failure)

    -- the run stopped with that error
    abbrev pub Stopped : Option (W × Option E) → Type 0
    Stopped r = (w : W) × (r ≡ some (w, some failure))

    on_chunk-Failed :
        (chunk : List String) (w : W) → (on_chunk process chunk w).1 ≡ some failure → Failed
    on_chunk-Failed [] w e = cc
    on_chunk-Failed (x ∷ xs) w e = (x ∷ xs, w, e)

    unless_failed-Failed :
        (r : W × Option E) (next : W → Option (W × Option E))
        → (r.1 ≡ some failure → Failed)
        → ((w : W) → Stopped (next w) → Failed)
        → Stopped (unless_failed r next)
        → Failed
    unless_failed-Failed (w, none) next f g h = g w h
    unless_failed-Failed (w, some e) next f g (v, h) = f (ap (λ p. p.1) (some_eq h))

    chunk_loop-Failed :
        (n chunk_size : ℕ) (slice : List String) (w : W)
        → Stopped (chunk_loop n chunk_size process slice w)
        → Failed
    unfolding chunk_loop
    chunk_loop-Failed zero chunk_size slice w (v, h) = cc
    chunk_loop-Failed (suc n) chunk_size [] w (v, h) = cc
    chunk_loop-Failed (suc n) chunk_size (x ∷ xs) w h =
        unless_failed-Failed (on_chunk process (take chunk_size (x ∷ xs)) w)
          (chunk_loop n chunk_size process (drop chunk_size (x ∷ xs)))
          (on_chunk-Failed (take chunk_size (x ∷ xs)) w)
          (chunk_loop-Failed n chunk_size (drop chunk_size (x ∷ xs))) h

    -- An error of a run is the error of one of its calls.
    pub process_chunked-Failed :
        (slice : List String) (chunk_size : ℕ) (w : W)
        → Stopped (process_chunked slice chunk_size process w)
        → Failed
    unfolding process_chunked
    process_chunked-Failed slice chunk_size w h =
        chunk_loop-Failed (suc (length slice)) chunk_size slice w h
