-- ===== src/Dedup/Redis.antt =====
-- RedisStore of internal/dedup/redis.go and NewStore of internal/dedup/factory.go. The server and its
-- client are a parameter; a command runs at the caller's `now`, and the server reads the same clock.
mod Keys
pub mod Laws
pub mod Factory
use k8s_ai_remediator.Prelude.{
  ℕ, Bool, true, false, ltb, Option, none, some, [], Bytes, codes, ◌++◌, eqb, if◌then◌else◌, ◌||◌,
  ◌==◌, not,
}
use k8s_ai_remediator.Result.{Error, Result, ok, err, fail}
use k8s_ai_remediator.Text.{trim_space, to_lower}
use k8s_ai_remediator.Text.Numbers.{quote}
use k8s_ai_remediator.Dedup.{Store}
use k8s_ai_remediator.Dedup.Memory.{memory_store}

-- SET NX EX, EXISTS, SET EX, GET as an integer that is not negative, and INCR with EXPIRE: a key, a
-- window and the time. The last is time.Format.
pub record RedisServer : Type 1 where
  pub State : Type 0
  pub ping : State → Option Error
  pub set_nx : Bytes → Bytes → ℕ → ℕ → State → State × Result Bool
  pub count_existing : Bytes → ℕ → State → Result ℕ
  pub set : Bytes → Bytes → ℕ → ℕ → State → State × Option Error
  pub get_int : Bytes → ℕ → State → Result ℕ
  pub incr_expire : Bytes → ℕ → ℕ → State → State × Result ℕ
  pub format_time : ℕ → Bytes

abbrev pub seen_key : Bytes → Bytes → Bytes
seen_key prefix k = prefix ++ (codes "seen:" ++ k)

abbrev pub signal_key : Bytes → Bytes → Bytes
signal_key prefix s = prefix ++ (codes "signal:" ++ s)

abbrev pub attempt_key : Bytes → Bytes → Bytes
attempt_key prefix s = prefix ++ (codes "attempt:" ++ s)

-- the value of a reply, and what stands in for it when the command fails
abbrev pub or_else {ℓ} : {A : Type ℓ} → A → Result A → A
or_else default (ok a) = a
or_else default (err e) = default

abbrev pub is_positive : Result ℕ → Bool
is_positive (ok n) = ltb 0 n
is_positive (err e) = false

module _ (r : RedisServer) (prefix : Bytes) where
  unfoldable pub mark_seen : Bytes → ℕ → ℕ → r.State → r.State × Bool
  mark_seen key now ttl s =
      let (s', reply) = r.set_nx (seen_key prefix key) (codes "1") ttl now s in
      (s', or_else true reply)

  unfoldable pub is_signal_fresh : Bytes → ℕ → ℕ → r.State → Bool
  is_signal_fresh signal now ttl s = is_positive (r.count_existing (signal_key prefix signal) now s)

  unfoldable pub mark_signal : Bytes → ℕ → ℕ → r.State → r.State
  mark_signal signal now ttl s = (r.set (signal_key prefix signal) (r.format_time now) ttl now s).0

  unfoldable pub attempts : Bytes → ℕ → r.State → ℕ
  attempts signal now s = or_else 0 (r.get_int (attempt_key prefix signal) now s)

  unfoldable pub incr_attempt : Bytes → ℕ → ℕ → r.State → r.State × ℕ
  incr_attempt signal now window s =
      let (s', reply) = r.incr_expire (attempt_key prefix signal) window now s in
      (s', or_else 1 reply)

  -- RedisStore behind the interface of the poll loop; Evict does nothing
  abbrev pub redis_store : Store
  redis_store = record {
    State = r.State;
    mark_seen = mark_seen;
    is_signal_fresh = λ signal now ttl s. (s, is_signal_fresh signal now ttl s);
    mark_signal = mark_signal;
    attempts = λ signal now s. (s, attempts signal now s);
    incr_attempt = incr_attempt;
    evict = λ now signal_ttl seen_ttl s. s;
  }

-- the parts of BackendConfig and RedisConfig that decide on the store; the rest configures the client
pub record BackendConfig : Type 0 where
  pub backend : Bytes
  pub redis_addr : Bytes
  pub redis_key_prefix : Bytes

abbrev pub pinged : RedisServer → Bytes → Option Error → Result Store
pinged r prefix none = ok (redis_store r prefix)
pinged r prefix (some e) = fail (codes "dedup: redis ping failed: " ++ e.text)

unfoldable pub new_redis_store : (r : RedisServer) → BackendConfig → r.State → Result Store
new_redis_store r cfg s =
    if eqb cfg.redis_addr []
    then fail (codes "dedup: RedisConfig.Addr is required")
    else pinged r cfg.redis_key_prefix (r.ping s)

-- NewStore, with the server that the client of the configuration reaches
unfoldable pub new_store : (r : RedisServer) → BackendConfig → r.State → Result Store
unfolding new_redis_store
new_store r cfg s =
    let backend = to_lower (trim_space cfg.backend) in
    if eqb backend [] || eqb backend (codes "memory")
    then ok memory_store
    else if eqb backend (codes "redis")
    then new_redis_store r cfg s
    else fail
        (codes "dedup: unknown backend " ++ (quote cfg.backend ++ codes " (want memory|redis)"))
