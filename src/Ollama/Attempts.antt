-- ===== src/Ollama/Attempts.antt =====
-- How often Decide of internal/ollama/client.go asks the model, and how deep it calls itself.
use k8s_ai_remediator.Prelude.{
  ℕ, zero, suc, ◌^◌, ◌+◌, ◌*◌, ◌≤◌, Bool, true, false, not, ◌&&◌, Option, none, some, Bytes, ◌≡◌,
  refl, ap, ltb, if◌then◌else◌, arith,
}
use mathlib.Core.Path.{fun_ext}
use k8s_ai_remediator.Ollama.{
  Client, ChatRequest, Transport, Outcome, decided, failed, Failure, read_answer, rounds, decide,
  after_failure, after_attempt, is_retryable, is_think_unsupported_err, is_set, with_latch,
  no_failure, attempts_of, await, build_request_body, Done,
}

module _ (t : Transport) (c : Client) (prompt : Bytes) where
  -- with the latch set, the call of itself is not reached
  after_attempt-latched :
      (s : t.State) (o : Outcome) (f g : t.State → Done t) (next next' : Failure → t.State → Done t)
      → ((e : Failure) (s : t.State) → next e s ≡ next' e s)
      → after_attempt t c true s o f next ≡ after_attempt t c true s o g next'
  unfolding after_attempt after_failure
  after_attempt-latched s (decided d) f g next next' h = refl
  after_attempt-latched s (failed e) f g next next' h =
      pick (is_think_unsupported_err e) (is_set c.think)
    where
      pick :
          (a b : Bool)
          → (if a && (b && false)
              then f (t.on_error s)
              else if is_retryable e
              then next e (t.on_error s)
              else (t.on_error s, true, failed e))
            ≡ (if a && (b && false)
                then g (t.on_error s)
                else if is_retryable e
                then next' e (t.on_error s)
                else (t.on_error s, true, failed e))
      pick true true = rw (h e (t.on_error s)) refl
      pick true false = rw (h e (t.on_error s)) refl
      pick false b = rw (h e (t.on_error s)) refl

  rounds-latched :
      (f g : t.State → Done t) (left n : ℕ) (last : Failure) (s : t.State)
      → rounds t c true prompt f left n last s ≡ rounds t c true prompt g left n last s
  unfolding rounds
  rounds-latched f g zero n last s = refl
  rounds-latched f g (suc left) n last s =
      ap (with_latch t true (if ltb 0 n then t.backoff (2 ^ n) s else (s, none))) (
        fun_ext λ s1.
          let x = t.exchange (build_request_body c true prompt) s1 in
          after_attempt-latched x.0 (read_answer t x.1) f g _ _
            (λ e s. rounds-latched f g left (suc n) e s))

  decide-latched :
      (k : ℕ) (s : t.State) → decide t (suc k) c true prompt s ≡ decide t 1 c true prompt s
  unfolding decide
  decide-latched k s =
      ap (with_latch t true (await t s))
        (fun_ext λ s'. rounds-latched _ _ (attempts_of c) 0 no_failure s')

  -- Two calls of Decide, the first and the one with the latch set, are enough: with more fuel than
  -- two the result is the same.
  pub decide-enough :
      (k : ℕ) (latched : Bool) (s : t.State)
      → decide t (suc (suc k)) c latched prompt s ≡ decide t 2 c latched prompt s
  unfolding decide
  decide-enough k latched s =
      ap
        (λ redo.
          with_latch t latched (await t s)
            λ s'. rounds t c latched prompt redo (attempts_of c) 0 no_failure s')
        (fun_ext (decide-latched k))

module _ (t : Transport) (count : t.State → ℕ) where
  -- `count` is the number of HTTP exchanges
  pub record IsCount : Type 0 where
    pub wait : (s : t.State) → count (t.wait s).0 ≡ count s
    pub backoff : (n : ℕ) (s : t.State) → count (t.backoff n s).0 ≡ count s
    pub exchange : (r : ChatRequest) (s : t.State) → count (t.exchange r s).0 ≡ suc (count s)
    pub on_error : (s : t.State) → count (t.on_error s) ≡ count s

  -- at most `n` exchanges since `s`
  record IsWithin (n : ℕ) (s : t.State) (x : Done t) : Type 0 where
    within : count x.0 ≤ count s + n

  with_latch-IsWithin :
      (latched : Bool) (n : ℕ) (s : t.State) (x : t.State × Option Bytes) (next : t.State → Done t)
      → count x.0 ≡ count s
      → ((s' : t.State) → IsWithin n s' (next s'))
      → IsWithin n s (with_latch t latched x next)
  with_latch-IsWithin latched n s (s', none) next same h = record {
    within = omega (arith, (h s').within, same);
  }
  with_latch-IsWithin latched n s (s', some text) next same h = record {
    within = omega (arith, same);
  }

  if-IsWithin :
      (b : Bool) (n : ℕ) (s : t.State) (x y : Done t)
      → IsWithin n s x
      → IsWithin n s y
      → IsWithin n s (if b then x else y)
  if-IsWithin true n s x y hx hy = hx
  if-IsWithin false n s x y hx hy = hy

  later :
      (m n : ℕ) (s s' : t.State) (x : Done t)
      → count s' + m ≤ count s + n
      → IsWithin m s' x
      → IsWithin n s x
  later m n s s' x le h = record { within = omega (arith, h.within) }

  module _ (h : IsCount) (c : Client) (prompt : Bytes) where
    after_attempt-IsWithin :
        (latched : Bool) (m n : ℕ) (s : t.State) (o : Outcome) (redo : t.State → Done t)
        (next : Failure → t.State → Done t)
        → ((s : t.State) → IsWithin m s (redo s))
        → ((e : Failure) (s : t.State) → IsWithin (n + m) s (next e s))
        → IsWithin (n + m) s (after_attempt t c latched s o redo next)
    unfolding after_attempt after_failure
    after_attempt-IsWithin latched m n s (decided d) redo next hr hn = record {
      within = omega arith;
    }
    after_attempt-IsWithin latched m n s (failed e) redo next hr hn =
        let s' = t.on_error s in
        if-IsWithin (is_think_unsupported_err e && (is_set c.think && not latched)) (n + m) s _ _
          (later m (n + m) s s' (redo s') (omega (arith, h.on_error s)) (hr s'))
          (if-IsWithin (is_retryable e) (n + m) s _ _
            (later (n + m) (n + m) s s' (next e s') (omega (arith, h.on_error s)) (hn e s'))
            (record { within = omega (arith, h.on_error s) }))

    -- the state that a round's exchange starts in
    paused :
        (n : ℕ) (s : t.State)
        → count (if ltb 0 n then t.backoff (2 ^ n) s else (s, none)).0 ≡ count s
    paused n s = pick (ltb 0 n)
      where
        pick : (b : Bool) → count (if b then t.backoff (2 ^ n) s else (s, none)).0 ≡ count s
        pick true = h.backoff (2 ^ n) s
        pick false = refl

    rounds-IsWithin :
        (latched : Bool) (m : ℕ) (redo : t.State → Done t)
        → ((s : t.State) → IsWithin m s (redo s))
        → (left n : ℕ) (last : Failure) (s : t.State)
        → IsWithin (left + m) s (rounds t c latched prompt redo left n last s)
    unfolding rounds
    rounds-IsWithin latched m redo hr zero n last s = record { within = omega arith }
    rounds-IsWithin latched m redo hr (suc left) n last s =
        with_latch-IsWithin latched (suc left + m) s
          (if ltb 0 n then t.backoff (2 ^ n) s else (s, none)) _ (paused n s)
          λ s1.
            let x = t.exchange (build_request_body c latched prompt) s1 in
            later (left + m) (suc left + m) s1 x.0 _
              (omega (arith, h.exchange (build_request_body c latched prompt) s1))
              (after_attempt-IsWithin latched m left x.0 (read_answer t x.1) redo _ hr
                (λ e s'. rounds-IsWithin latched m redo hr left (suc n) e s'))

    abbrev idle : t.State → Done t
    idle s = (s, true, failed no_failure)

    -- a call with the latch set
    decide-IsWithin :
        (fuel : ℕ) (s : t.State) → IsWithin (attempts_of c) s (decide t fuel c true prompt s)
    unfolding decide
    decide-IsWithin zero s = record { within = omega arith }
    decide-IsWithin (suc fuel) s =
        with_latch-IsWithin true (attempts_of c) s (await t s) _ (h.wait s) λ s'.
          rw
            (rounds-latched t c prompt (decide t fuel c true prompt) idle (attempts_of c) 0
              no_failure s')
            (later (attempts_of c + 0) (attempts_of c) s' s' _ (omega arith) (
              rounds-IsWithin true 0 idle (λ s. record { within = omega arith }) (attempts_of c) 0
                no_failure s'))

    -- A call of Decide makes at most twice max(maxRetries, 0) + 1 HTTP exchanges, and half as many
    -- once the latch is set.
    pub decide-exchanges :
        (fuel : ℕ) (latched : Bool) (s : t.State)
        → count (decide t fuel c latched prompt s).0
          ≤ count s + (if latched then attempts_of c else 2 * attempts_of c)
    unfolding decide
    decide-exchanges fuel true s = (decide-IsWithin fuel s).within
    decide-exchanges zero false s = omega arith
    decide-exchanges (suc fuel) false s =
        (later (attempts_of c + attempts_of c) (2 * attempts_of c) s s _ (omega arith) (
          with_latch-IsWithin false (attempts_of c + attempts_of c) s (await t s) _ (h.wait s) (
            rounds-IsWithin false (attempts_of c) (decide t fuel c true prompt)
              (decide-IsWithin fuel) (attempts_of c) 0 _))).within
