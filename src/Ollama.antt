-- ===== src/Ollama.antt =====
-- internal/ollama/client.go: the client of the model's chat API. The network, the rate limiter, the
-- clock and encoding/json are a parameter; the JSON schema of a request is not modelled.
mod Content
pub mod Answers
pub mod Attempts
use k8s_ai_remediator.Prelude.{
  ℕ, zero, suc, ◌+◌, ◌^◌, Bool, true, false, not, ◌&&◌, ◌||◌, Option, none, some, List, [], ◌∷◌,
  ◌++◌, Bytes, codes, ℤ, pos, negsuc, eqb, ltb, leb, if◌then◌else◌,
}
use k8s_ai_remediator.Text.{contains, to_lower}
use k8s_ai_remediator.Text.Numbers.{decimal}
use k8s_ai_remediator.Model.{
  Action, Decision, action_name, noop, restart_deployment, delete_failed_pod, delete_and_recreate,
  scale_deployment, inspect_pod_logs, set_deployment_image, patch_probe, patch_resources,
  patch_registry, mark_for_manual_fix, ask_human, other,
}
use k8s_ai_remediator.Result.{Result, ok, err}
use Content.{clean_model_content}
unfoldable pub use Content.{clean_model_content}

-- an error, and whether it is a retryableError
pub record Failure : Type 0 where
  pub retryable : Bool
  pub text : Bytes

pub data Outcome : Type 0 where
  decided : Decision → Outcome
  failed : Failure → Outcome

pub record Message : Type 0 where
  pub role : Bytes
  pub content : Bytes

-- model.ChatRequest without the constant format and options
pub record ChatRequest : Type 0 where
  pub model : Bytes
  pub messages : List Message
  pub stream : Bool
  pub think : Option Bool

pub data Exchange : Type 0 where
  unsent : Bytes → Exchange
  answered : ℕ → Bytes → Exchange

-- limiter.Wait with its hook, a backoff of so many seconds, an HTTP exchange with its hook, the hook
-- of an error, and the two decoders. An error is its text.
pub record Transport : Type 1 where
  pub State : Type 0
  pub wait : State → State × Option Bytes
  pub backoff : ℕ → State → State × Option Bytes
  pub exchange : ChatRequest → State → State × Exchange
  pub on_error : State → State
  pub decode_content : Bytes → Result Bytes
  pub decode_decision : Bytes → Result Decision

pub record Client : Type 0 where
  pub model : Bytes
  pub max_retries : ℤ
  pub think : Option Bool

abbrev system_prompt : Bytes
system_prompt =
    codes "You are a Kubernetes remediation agent. Return only valid JSON matching the schema. "
    ++ (codes
          "Allowed actions: noop,restart_deployment,delete_failed_pod,delete_and_recreate_pod,scale_deployment,inspect_pod_logs,set_deployment_image,patch_probe,patch_resources,patch_registry,mark_for_manual_fix,ask_human. "
        ++ (codes "Severity must be one of: critical, high, medium, low, info. "
            ++ (codes "Never suggest shell commands. "
                ++ codes
                    "The user message contains detailed rules for when to pick each action; follow them strictly, including any HARD RULE.")))

abbrev pub asked_think : Client → Bool → Option Bool
asked_think c latched = if latched then none else c.think

abbrev no_think : Option Bool → Bytes
no_think (some false) = codes " /no_think"
no_think _ = []

-- the latch thinkUnsupported is an argument
unfoldable pub build_request_body : Client → Bool → Bytes → ChatRequest
build_request_body c latched prompt =
    let think = asked_think c latched in
    record {
      model = c.model;
      messages =
          record { role = codes "system"; content = system_prompt ++ no_think think }
          ∷ record { role = codes "user"; content = prompt }
          ∷ [];
      stream = false;
      think = think;
    }

unfoldable pub allowed_action : Action → Bool
allowed_action (other s) = false
allowed_action _ = true

unfoldable pub is_think_unsupported_err : Failure → Bool
is_think_unsupported_err e = contains (codes "does not support thinking") (to_lower e.text)

unfoldable pub is_retryable : Failure → Bool
is_retryable e =
    e.retryable
    || (contains (codes "connection refused") e.text
        || (contains (codes "no such host") e.text || contains (codes "i/o timeout") e.text))

abbrev pub attempts_of : Client → ℕ
attempts_of c = elim c.max_retries [ pos n ↦ suc n | negsuc n ↦ 1 ]

abbrev pub rejected : Bytes → Outcome
rejected text = failed (record { retryable = false; text = text })

abbrev http_text : ℕ → Bytes → Bytes
http_text status body = codes "ollama http " ++ (decimal status ++ (codes ": " ++ body))

-- lastErr before the first attempt
abbrev pub no_failure : Failure
no_failure = record { retryable = false; text = [] }

-- a pointer that is not nil
abbrev pub is_set : Option Bool → Bool
is_set none = false
is_set (some flag) = true

-- the test on a decoded decision
unfoldable pub vetted : Decision → Outcome
unfolding allowed_action
vetted d =
    if not (allowed_action d.action)
    then rejected (codes "action not allowed: " ++ action_name d.action)
    else decided d

module _ (t : Transport) where
  unfoldable pub of_decision : Result Decision → Outcome
  unfolding vetted
  of_decision (err e) = rejected e.text
  of_decision (ok d) = vetted d

  unfoldable pub of_content : Result Bytes → Outcome
  unfolding clean_model_content of_decision
  of_content (err e) = rejected e.text
  of_content (ok raw) =
      let content = clean_model_content raw in
      if eqb content []
      then rejected (codes "empty ollama response")
      else of_decision (t.decode_decision content)

  -- doRequest after a 2xx answer
  unfoldable pub read_decision : Bytes → Outcome
  unfolding of_content
  read_decision body = of_content (t.decode_content body)

  unfoldable pub read_answer : Exchange → Outcome
  unfolding read_decision
  read_answer (unsent text) = rejected text
  read_answer (answered status body) =
      if leb 500 status
      then failed (record { retryable = true; text = http_text status body })
      else if ltb status 200 || leb 300 status
      then rejected (http_text status body)
      else read_decision body

  -- what an outcome of Decide leaves: the state, the latch and the result
  abbrev pub Done : Type 0
  Done = t.State × Bool × Outcome

  abbrev pub with_latch : Bool → t.State × Option Bytes → (t.State → Done) → Done
  with_latch latched (s, none) next = next s
  with_latch latched (s, some text) next = (s, latched, rejected text)

  -- what follows a failed attempt: `redo` is the call of Decide with the latch set
  unfoldable pub after_failure : Client → Bool → Failure → t.State → Done → Done → Done
  unfolding is_think_unsupported_err is_retryable
  after_failure c latched e s redo next =
      if is_think_unsupported_err e && (is_set c.think && not latched)
      then redo
      else if is_retryable e
      then next
      else (s, latched, failed e)

  unfoldable pub after_attempt :
      Client → Bool → t.State → Outcome → (t.State → Done) → (Failure → t.State → Done) → Done
  unfolding after_failure
  after_attempt c latched s (decided d) redo next = (s, latched, decided d)
  after_attempt c latched s (failed e) redo next =
      let s' = t.on_error s in after_failure c latched e s' (redo s') (next e s')

  -- the loop of Decide: `left` more rounds, `n` behind
  unfoldable pub rounds :
      Client → Bool → Bytes → (t.State → Done) → ℕ → ℕ → Failure → t.State → Done
  unfolding build_request_body read_answer after_attempt
  rounds c latched prompt redo zero n last s = (
    s,
    latched,
    rejected
        (codes "ollama request failed after " ++ (decimal n ++ (codes " attempts: " ++ last.text))),
  )
  rounds c latched prompt redo (suc left) n last s =
      with_latch latched (if ltb 0 n then t.backoff (2 ^ n) s else (s, none)) λ s1.
        let (s2, answer) = t.exchange (build_request_body c latched prompt) s1 in
        after_attempt c latched s2 (read_answer answer) redo
          (λ e. rounds c latched prompt redo left (suc n) e)

  -- limiter.Wait with the text that Decide puts before its error
  abbrev pub await : t.State → t.State × Option Bytes
  await s =
      let (s', o) = t.wait s in
      (s', elim o [ none ↦ none | some text ↦ some (codes "ollama rate limiter: " ++ text) ])

  -- Decide, with fuel for its call of itself
  unfoldable pub decide : ℕ → Client → Bool → Bytes → t.State → Done
  unfolding rounds
  decide zero c latched prompt s = (s, latched, rejected [])
  decide (suc fuel) c latched prompt s =
      with_latch latched (await s)
        λ s'. rounds c latched prompt (decide fuel c true prompt) (attempts_of c) 0 no_failure s'
