-- ===== src/Tests/Client.antt =====
-- The theorems on internal/ollama/client.go at a server that does not know the think parameter.
use k8s_ai_remediator.Prelude.{
  ℕ, zero, suc, ◌≤◌, ◌≡◌, refl, codes, [], none, some, true, false, pos, eqb,
}
use k8s_ai_remediator.Text.{contains, to_lower, trim_space}
use k8s_ai_remediator.Text.Numbers.{decimal}
use k8s_ai_remediator.Result.{ok}
use k8s_ai_remediator.Model.{Decision, noop, fin}
use k8s_ai_remediator.Ollama.{Client, Transport, Exchange, answered, decided, decide}
use k8s_ai_remediator.Ollama.Answers.{IsAnswer, decide-IsAnswer}
use k8s_ai_remediator.Ollama.Attempts.{decide-enough, decide-exchanges}

abbrev nothing_to_do : Decision
nothing_to_do = record {
  summary = codes "no problem";
  severity = codes "low";
  probable_cause = [];
  confidence = fin (pos 1);
  action = noop;
  namespace = codes "shop";
  resource_kind = codes "Pod";
  resource_name = codes "cart";
  parameters = [];
  reason = [];
}

abbrev reply : ℕ → Exchange
reply zero = answered 503 (codes "loading")
reply (suc zero) = answered 400 (codes "this model does not support thinking")
reply (suc (suc n)) = answered 200 (codes "```json {} ```")

-- the state is the number of exchanges
abbrev server : Transport
server = record {
  State = ℕ;
  wait = λ s. (s, none);
  backoff = λ n s. (s, none);
  exchange = λ r s. (suc s, reply s);
  on_error = λ s. s;
  decode_content = λ body. ok body;
  decode_decision = λ text. ok nothing_to_do;
}

abbrev client : Client
client = record { model = codes "qwen2.5"; max_retries = pos 2; think = some false }

decides : decide server 2 client false (codes "why") 0 ≡ (3, true, decided nothing_to_do)
unfolding decide contains to_lower decimal eqb trim_space
decides = refl

decide-IsAnswer_example : IsAnswer server client (codes "why") nothing_to_do
unfolding decide contains to_lower decimal eqb trim_space
decide-IsAnswer_example = decide-IsAnswer server client (codes "why") 2 false 0 nothing_to_do refl

decide-enough_example :
    decide server 5 client false (codes "why") 0 ≡ decide server 2 client false (codes "why") 0
decide-enough_example = decide-enough server client (codes "why") 3 false 0

decide-exchanges_example : (decide server 2 client false (codes "why") 0).0 ≤ 6
decide-exchanges_example =
    decide-exchanges server (λ s. s)
      (record {
        wait = λ s. refl;
        backoff = λ n s. refl;
        exchange = λ r s. refl;
        on_error = λ s. refl;
      })
      client (codes "why") 2 false 0
