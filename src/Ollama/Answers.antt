-- ===== src/Ollama/Answers.antt =====
-- Decisions that Decide of internal/ollama/client.go returns.
use k8s_ai_remediator.Prelude.{
  ℕ, zero, suc, ◌^◌, ◌≤◌, ◌<◌, arith, Bool, true, false, not, ◌&&◌, Option, none, some, Bytes, [],
  ◌≡◌, refl, subst, eqb, ltb, leb, ◌||◌, if◌then◌else◌, Bool-cases, inl, inr,
}
use k8s_ai_remediator.Result.{Result, ok, err}
use k8s_ai_remediator.Model.{Decision}
use k8s_ai_remediator.Ollama.{
  Client, Transport, Exchange, unsent, answered, Outcome, decided, failed, Failure, read_answer,
  read_decision, rounds, decide, after_failure, after_attempt, is_retryable,
  is_think_unsupported_err, is_set, allowed_action, clean_model_content, with_latch, attempts_of,
  await, build_request_body, Done, vetted, of_decision, of_content,
}

module _ (t : Transport) (c : Client) (prompt : Bytes) where
  -- What encoding/json reads from the cleaned content of the body of a 2xx answer to the request
  -- for the prompt, with one of the twelve actions. `sent` is the state in which it was sent.
  pub record IsAnswer (d : Decision) : Type 0 where
    sent : t.State
    latched : Bool
    status : ℕ
    body : Bytes
    content : Bytes
    is_answered : (t.exchange (build_request_body c latched prompt) sent).1 ≡ answered status body
    is_success : (200 ≤ status) × (status < 300)
    is_content : t.decode_content body ≡ ok content
    has_text : eqb (clean_model_content content) [] ≡ false
    is_read : t.decode_decision (clean_model_content content) ≡ ok d
    is_allowed : allowed_action d.action ≡ true

  IsSound : Outcome → Type 0
  IsSound (decided d) = IsAnswer d
  IsSound (failed e) = Bool

  failed-IsSound : (e : Failure) → IsSound (failed e)
  unfolding IsSound
  failed-IsSound e = true

  -- an answer to the request
  record IsReply (x : Exchange) : Type 0 where
    sent : t.State
    latched : Bool
    is_reply : (t.exchange (build_request_body c latched prompt) sent).1 ≡ x

  module _ (status : ℕ) (body : Bytes) (reply : IsReply (answered status body))
      (success : (200 ≤ status) × (status < 300)) where
    of_decision-IsSound :
        (raw : Bytes) (x : Result Decision)
        → t.decode_content body ≡ ok raw
        → eqb (clean_model_content raw) [] ≡ false
        → t.decode_decision (clean_model_content raw) ≡ x
        → IsSound (of_decision t x)
    unfolding of_decision vetted
    of_decision-IsSound raw (err e) decoded text same = failed-IsSound _
    of_decision-IsSound raw (ok d) decoded text same = elim (Bool-cases (allowed_action d.action)) [
      | inr missing ↦ rw missing (failed-IsSound _)
      | inl listed ↦ rw listed (
          unfold IsSound in
          record {
            sent = reply.sent;
            latched = reply.latched;
            status = status;
            body = body;
            content = raw;
            is_answered = reply.is_reply;
            is_success = success;
            is_content = decoded;
            has_text = text;
            is_read = same;
            is_allowed = listed;
          })
    ]

    of_content-IsSound : (x : Result Bytes) → t.decode_content body ≡ x → IsSound (of_content t x)
    unfolding of_content
    of_content-IsSound (err e) decoded = failed-IsSound _
    of_content-IsSound (ok raw) decoded = elim (Bool-cases (eqb (clean_model_content raw) [])) [
      | inl empty ↦ rw empty (failed-IsSound _)
      | inr text ↦ rw text (of_decision-IsSound raw _ decoded text refl)
    ]

  read_answer-IsSound : (x : Exchange) → IsReply x → IsSound (read_answer t x)
  unfolding read_answer read_decision
  read_answer-IsSound (unsent text) reply = failed-IsSound _
  read_answer-IsSound (answered status body) reply = elim (Bool-cases (leb 500 status)) [
    | inl broken ↦ rw broken (failed-IsSound _)
    | inr served ↦ elim (Bool-cases (ltb status 200 || leb 300 status)) [
      | inl refused ↦ rw (served, refused) (failed-IsSound _)
      | inr success ↦
          rw (served, success)
            (of_content-IsSound status body reply (ground arith, ground arith)
              (t.decode_content body) refl)
    ]
  ]

  -- the end of a call of Decide
  record IsFinal (x : Done t) : Type 0 where
    sound : IsSound x.2

  abbrev error : (s : t.State) (latched : Bool) (e : Failure) → IsFinal (s, latched, failed e)
  error s latched e = record { sound = failed-IsSound e }

  with_latch-IsFinal :
      (latched : Bool) (x : t.State × Option Bytes) (next : t.State → Done t)
      → ((s : t.State) → IsFinal (next s))
      → IsFinal (with_latch t latched x next)
  with_latch-IsFinal latched (s, none) next h = h s
  with_latch-IsFinal latched (s, some text) next h = error s latched _

  after_failure-IsFinal :
      (latched : Bool) (e : Failure) (s : t.State) (redo next : Done t)
      → IsFinal redo
      → IsFinal next
      → IsFinal (after_failure t c latched e s redo next)
  unfolding after_failure
  after_failure-IsFinal latched e s redo next hr hn =
      pick (is_think_unsupported_err e && (is_set c.think && not latched)) (is_retryable e)
    where
      pick : (a b : Bool) → IsFinal (if a then redo else if b then next else (s, latched, failed e))
      pick true b = hr
      pick false true = hn
      pick false false = error s latched e

  after_attempt-IsFinal :
      (latched : Bool) (s : t.State) (o : Outcome) (redo : t.State → Done t)
      (next : Failure → t.State → Done t)
      → IsSound o
      → ((s : t.State) → IsFinal (redo s))
      → ((e : Failure) (s : t.State) → IsFinal (next e s))
      → IsFinal (after_attempt t c latched s o redo next)
  unfolding after_attempt
  after_attempt-IsFinal latched s (decided d) redo next h hr hn = record { sound = h }
  after_attempt-IsFinal latched s (failed e) redo next h hr hn =
      after_failure-IsFinal latched e _ _ _ (hr _) (hn e _)

  rounds-IsFinal :
      (latched : Bool) (redo : t.State → Done t)
      → ((s : t.State) → IsFinal (redo s))
      → (left n : ℕ) (last : Failure) (s : t.State)
      → IsFinal (rounds t c latched prompt redo left n last s)
  unfolding rounds
  rounds-IsFinal latched redo h zero n last s = error s latched _
  rounds-IsFinal latched redo h (suc left) n last s =
      with_latch-IsFinal latched (if ltb 0 n then t.backoff (2 ^ n) s else (s, none)) _ λ s1.
        let x = t.exchange (build_request_body c latched prompt) s1 in
        after_attempt-IsFinal latched x.0 (read_answer t x.1) redo _
          (read_answer-IsSound x.1 (record { sent = s1; latched = latched; is_reply = refl })) h
          (λ e. rounds-IsFinal latched redo h left (suc n) e)

  decide-IsFinal :
      (fuel : ℕ) (latched : Bool) (s : t.State) → IsFinal (decide t fuel c latched prompt s)
  unfolding decide
  decide-IsFinal zero latched s = error s latched _
  decide-IsFinal (suc fuel) latched s = with_latch-IsFinal latched (await t s) _ λ s'.
      rounds-IsFinal latched (decide t fuel c true prompt) (decide-IsFinal fuel true)
        (attempts_of c) 0 _ s'

  -- A decision that Decide returns is what the decoder reads from the cleaned, non-empty content
  -- that the body of an exchange with the server has: the answer, with a status from 200 to 299, to
  -- the client's request for the prompt. Its action is one of the twelve that are allowed.
  pub decide-IsAnswer :
      (fuel : ℕ) (latched : Bool) (s : t.State) (d : Decision)
      → (decide t fuel c latched prompt s).2 ≡ decided d
      → IsAnswer d
  decide-IsAnswer fuel latched s d same =
      unfold IsSound in subst IsSound same (decide-IsFinal fuel latched s).sound
