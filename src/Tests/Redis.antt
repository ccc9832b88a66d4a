-- ===== src/Tests/Redis.antt =====
-- RedisStore of internal/dedup/redis.go on a server that keeps its keys in a function.
use k8s_ai_remediator.Prelude.{
  ℕ, suc, ◌+◌, Bool, false, not, Option, none, some, Bytes, codes, eqb, ltb, if◌then◌else◌,
}
use k8s_ai_remediator.Result.{Result, ok, fail}
use k8s_ai_remediator.Dedup.Redis.{RedisServer, BackendConfig, or_else}

abbrev Keys : Type 0
Keys = Bytes → Option (ℕ × ℕ)

abbrev put : Bytes → ℕ → ℕ → Keys → Keys
put k n expiry s j = if eqb k j then some (n, expiry) else s j

abbrev number : ℕ → Option (ℕ × ℕ) → Result ℕ
number t none = fail (codes "redis: nil")
number t (some (n, expiry)) = if ltb t expiry then ok n else fail (codes "redis: nil")

abbrev is_running : ℕ → Option (ℕ × ℕ) → Bool
is_running t none = false
is_running t (some (n, expiry)) = ltb t expiry

abbrev is_live : Bytes → ℕ → Keys → Bool
is_live k t s = is_running t (s k)

abbrev server : RedisServer
server = record {
  State = Keys;
  ping = λ s. none;
  set_nx =
      λ k v ttl t s. (if is_live k t s then s else put k 1 (t + ttl) s, ok (not (is_live k t s)));
  count_existing = λ k t s. ok (if is_live k t s then 1 else 0);
  set = λ k v ttl t s. (put k 0 (t + ttl) s, none);
  get_int = λ k t s. number t (s k);
  incr_expire =
      λ k window t s. let n = suc (or_else 0 (number t (s k))) in (put k n (t + window) s, ok n);
  format_time = λ t. codes "2024-01-01T00:00:00Z";
}

abbrev backend : BackendConfig
backend = record {
  backend = codes " Redis";
  redis_addr = codes "redis:6379";
  redis_key_prefix = codes "agent:";
}
