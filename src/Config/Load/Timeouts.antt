-- ===== src/Config/Load/Timeouts.antt =====
-- The poll's timeout after LoadFromEnv (internal/config/config.go).
use k8s_ai_remediator.Prelude.{
  ◌≡◌, Bytes, ℤ, pos, negsuc, ◌-◌, ◌^◌, true, arith, ltb_ℤ, ◌≤ℤ◌, subst,
}
use k8s_ai_remediator.Result.{Result}
use k8s_ai_remediator.Model.{Float64}
use k8s_ai_remediator.Config.Readers.{Env, add_int}
use k8s_ai_remediator.Config.Load.{LoadedConfig, corrected, load_from_env, read_env}

add_int-lt : (z : ℤ) → z ≤ℤ pos (2 ^ 63 - 61) → ltb_ℤ z (add_int z 60) ≡ true
add_int-lt (pos m) h = ground arith
add_int-lt (negsuc m) h = ground arith

corrected-lt :
    (cfg : LoadedConfig)
    → cfg.ollama_http_timeout_sec ≤ℤ pos (2 ^ 63 - 61)
    → ltb_ℤ (corrected cfg).ollama_http_timeout_sec (corrected cfg).poll_context_timeout_sec ≡ true
unfolding corrected
corrected-lt cfg h = ground (arith, add_int-lt cfg.ollama_http_timeout_sec h)

corrected_http :
    (cfg : LoadedConfig) → (corrected cfg).ollama_http_timeout_sec ≡ cfg.ollama_http_timeout_sec
unfolding corrected
corrected_http cfg = ground arith

-- Whatever the environment holds, the loaded timeout of a poll is larger than that of a request to
-- the model, as long as the latter and one minute fit in an int.
pub load_from_env-lt :
    (parse_float : Bytes → Result Float64) (env : Env)
    → (load_from_env parse_float env).ollama_http_timeout_sec ≤ℤ pos (2 ^ 63 - 61)
    → ltb_ℤ
        (load_from_env parse_float env).ollama_http_timeout_sec
        (load_from_env parse_float env).poll_context_timeout_sec
      ≡ true
unfolding load_from_env
load_from_env-lt parse_float env h =
    corrected-lt (read_env parse_float env)
      (subst (λ z. z ≤ℤ pos (2 ^ 63 - 61)) (corrected_http (read_env parse_float env)) h)
