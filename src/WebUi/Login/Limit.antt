-- ===== src/WebUi/Login/Limit.antt =====
-- The wrong passwords of one client over a sequence of requests (internal/webui/login.go, auth.go
-- and ratelimit.go).
use k8s_ai_remediator.Prelude.{ℕ, suc, false, ◌&&◌, Option, Bytes, eqb, if◌then◌else◌}
use k8s_ai_remediator.WebUi.Throttle.{LoginThrottle, allowed}
use k8s_ai_remediator.WebUi.Login.{Options, Platform}
use k8s_ai_remediator.WebUi.Login.Guesses.{submits}

module _ (platform : Platform) (opts : Options) (ip : Bytes) (start : ℕ) where
  -- the count after one more request
  abbrev counted : ℕ → Bytes → Option (Bytes × Bytes) → ℕ → LoginThrottle → ℕ
  counted n from o now t =
      if eqb from ip && (submits platform opts ip false o && allowed ip now t) then suc n else n
