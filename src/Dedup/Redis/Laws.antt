-- ===== src/Dedup/Redis/Laws.antt =====
-- RedisStore of internal/dedup/redis.go on a server that answers.
use k8s_ai_remediator.Prelude.{
  ℕ, suc, ◌+◌, ◌≡◌, ◌<◌, refl, arith, Bool, true, false, not, ◌&&◌, Bytes, codes, eqb, eqb_self,
  ltb, if◌then◌else◌, ap, sym, ◌∙◌,
}
use k8s_ai_remediator.Result.{ok}
use k8s_ai_remediator.Dedup.Contract.{StoreLaw, IsWindow}
use k8s_ai_remediator.Dedup.Redis.{
  RedisServer, seen_key, signal_key, attempt_key, or_else, is_positive, mark_seen, is_signal_fresh,
  mark_signal, attempts, incr_attempt, redis_store,
}
use k8s_ai_remediator.Dedup.Redis.Keys.{
  seen_key-signal_key, attempt_key-signal_key, signal_key-seen_key, attempt_key-seen_key,
  seen_key-attempt_key, signal_key-attempt_key, own_key,
}

-- A server that answers every command, whose clock is the caller's, and on which only the store
-- writes below its attempt keys. `live` tells whether a key is there, and a missing counter is 0.
pub record RedisServerLaw (r : RedisServer) (prefix : Bytes) : Type 0 where
  pub live : Bytes → ℕ → r.State → Bool
  pub count_existing :
      (k : Bytes) (t : ℕ) (s : r.State) → r.count_existing k t s ≡ ok (if live k t s then 1 else 0)
  pub set_nx :
      (k v : Bytes) (ttl t : ℕ) (s : r.State) → (r.set_nx k v ttl t s).1 ≡ ok (not (live k t s))
  pub live-set_nx :
      (k v j : Bytes) (ttl t u : ℕ) (s : r.State)
      → IsWindow ttl
      → live j u (r.set_nx k v ttl t s).0
        ≡ (if eqb k j && not (live k t s) then ltb u (t + ttl) else live j u s)
  pub live-set :
      (k v j : Bytes) (ttl t u : ℕ) (s : r.State)
      → IsWindow ttl
      → live j u (r.set k v ttl t s).0 ≡ (if eqb k j then ltb u (t + ttl) else live j u s)
  pub live-incr_expire :
      (k j : Bytes) (window t u : ℕ) (s : r.State)
      → eqb k j ≡ false
      → live j u (r.incr_expire k window t s).0 ≡ live j u s
  pub get_int-set_nx :
      (k v j : Bytes) (ttl t u : ℕ) (s : r.State)
      → eqb k j ≡ false
      → r.get_int j u (r.set_nx k v ttl t s).0 ≡ r.get_int j u s
  pub get_int-set :
      (k v j : Bytes) (ttl t u : ℕ) (s : r.State)
      → eqb k j ≡ false
      → r.get_int j u (r.set k v ttl t s).0 ≡ r.get_int j u s
  pub incr_expire :
      (signal : Bytes) (window t : ℕ) (s : r.State)
      → (r.incr_expire (attempt_key prefix signal) window t s).1
        ≡ ok (suc (or_else 0 (r.get_int (attempt_key prefix signal) t s)))
  pub get_int-incr_expire :
      (k j : Bytes) (window t u : ℕ) (s : r.State)
      → IsWindow window
      → or_else 0 (r.get_int j u (r.incr_expire k window t s).0) ≡ (
          if eqb k j
          then (if ltb u (t + window) then or_else 0 (r.incr_expire k window t s).1 else 0)
          else or_else 0 (r.get_int j u s))

module _ (r : RedisServer) (prefix : Bytes) (law : RedisServerLaw r prefix) where
  fresh-live :
      (j : Bytes) (u ttl : ℕ) (s : r.State)
      → is_signal_fresh r prefix j u ttl s ≡ law.live (signal_key prefix j) u s
  unfolding is_signal_fresh
  fresh-live j u ttl s =
      ap is_positive (law.count_existing (signal_key prefix j) u s)
      ∙ positive (law.live (signal_key prefix j) u s)
    where
      positive : (b : Bool) → ltb 0 (if b then 1 else 0) ≡ b
      positive true = refl
      positive false = refl

  seen-live :
      (j : Bytes) (u ttl : ℕ) (s : r.State)
      → (mark_seen r prefix j u ttl s).1 ≡ not (law.live (seen_key prefix j) u s)
  unfolding mark_seen
  seen-live j u ttl s = ap (or_else true) (law.set_nx (seen_key prefix j) (codes "1") ttl u s)

  kept : (b : Bool) (x y : Bool) → b ≡ false → (if b then x else y) ≡ y
  kept b x y e = ap (λ b. if b then x else y) e

  fresh-mark_signal :
      (k j : Bytes) (t u ttl ttl' : ℕ) (s : r.State)
      → IsWindow ttl
      → is_signal_fresh r prefix j u ttl' (mark_signal r prefix k t ttl s)
        ≡ (if eqb k j then ltb u (t + ttl) else is_signal_fresh r prefix j u ttl' s)
  unfolding mark_signal
  fresh-mark_signal k j t u ttl ttl' s w =
      fresh-live j u ttl' _
      ∙ law.live-set (signal_key prefix k) (r.format_time t) (signal_key prefix j) ttl t u s w
      ∙ ap (λ b. if b then ltb u (t + ttl) else law.live (signal_key prefix j) u s)
          (own_key prefix (codes "signal:") k j)
      ∙ ap (λ x. if eqb k j then ltb u (t + ttl) else x) (sym (fresh-live j u ttl' s))

  fresh-mark_seen :
      (k j : Bytes) (t u ttl ttl' : ℕ) (s : r.State)
      → IsWindow ttl
      → is_signal_fresh r prefix j u ttl' (mark_seen r prefix k t ttl s).0
        ≡ is_signal_fresh r prefix j u ttl' s
  unfolding mark_seen
  fresh-mark_seen k j t u ttl ttl' s w =
      fresh-live j u ttl' _
      ∙ law.live-set_nx (seen_key prefix k) (codes "1") (signal_key prefix j) ttl t u s w
      ∙ kept _ _ _
          (ap (λ b. b && not (law.live (seen_key prefix k) t s)) (seen_key-signal_key prefix k j))
      ∙ sym (fresh-live j u ttl' s)

  fresh-incr_attempt :
      (k j : Bytes) (t u window ttl : ℕ) (s : r.State)
      → is_signal_fresh r prefix j u ttl (incr_attempt r prefix k t window s).0
        ≡ is_signal_fresh r prefix j u ttl s
  unfolding incr_attempt
  fresh-incr_attempt k j t u window ttl s =
      fresh-live j u ttl _
      ∙ law.live-incr_expire (attempt_key prefix k) (signal_key prefix j) window t u s
          (attempt_key-signal_key prefix k j)
      ∙ sym (fresh-live j u ttl s)

  live-mark_seen :
      (k j : Bytes) (t u ttl : ℕ) (s : r.State)
      → IsWindow ttl
      → law.live (seen_key prefix j) u (mark_seen r prefix k t ttl s).0 ≡ (
          if eqb k j && not (law.live (seen_key prefix k) t s)
          then ltb u (t + ttl)
          else law.live (seen_key prefix j) u s)
  unfolding mark_seen
  live-mark_seen k j t u ttl s w =
      law.live-set_nx (seen_key prefix k) (codes "1") (seen_key prefix j) ttl t u s w
      ∙ ap
          (λ b.
            if b && not (law.live (seen_key prefix k) t s)
            then ltb u (t + ttl)
            else law.live (seen_key prefix j) u s)
          (own_key prefix (codes "seen:") k j)

  seen_again :
      (k : Bytes) (t u ttl ttl' : ℕ) (s : r.State)
      → IsWindow ttl
      → (mark_seen r prefix k t ttl s).1 ≡ true
      → u < t + ttl
      → (mark_seen r prefix k u ttl' (mark_seen r prefix k t ttl s).0).1 ≡ false
  seen_again k t u ttl ttl' s w fresh within =
      seen-live k u ttl' _
      ∙ ap not (live-mark_seen k k t u ttl s w)
      ∙ ground (arith, eqb_self k, seen-live k t ttl s, fresh)

  seen_other :
      (k j : Bytes) (t u ttl ttl' : ℕ) (s : r.State)
      → IsWindow ttl
      → eqb k j ≡ false
      → (mark_seen r prefix j u ttl' (mark_seen r prefix k t ttl s).0).1
        ≡ (mark_seen r prefix j u ttl' s).1
  seen_other k j t u ttl ttl' s w other =
      seen-live j u ttl' _
      ∙ ap not (
          live-mark_seen k j t u ttl s w
          ∙ kept _ _ _ (ap (λ b. b && not (law.live (seen_key prefix k) t s)) other))
      ∙ sym (seen-live j u ttl' s)

  seen-mark_signal :
      (k j : Bytes) (t u ttl ttl' : ℕ) (s : r.State)
      → IsWindow ttl
      → (mark_seen r prefix j u ttl' (mark_signal r prefix k t ttl s)).1
        ≡ (mark_seen r prefix j u ttl' s).1
  unfolding mark_signal
  seen-mark_signal k j t u ttl ttl' s w =
      seen-live j u ttl' _
      ∙ ap not (
          law.live-set (signal_key prefix k) (r.format_time t) (seen_key prefix j) ttl t u s w
          ∙ kept _ _ _ (signal_key-seen_key prefix k j))
      ∙ sym (seen-live j u ttl' s)

  seen-incr_attempt :
      (k j : Bytes) (t u window ttl : ℕ) (s : r.State)
      → (mark_seen r prefix j u ttl (incr_attempt r prefix k t window s).0).1
        ≡ (mark_seen r prefix j u ttl s).1
  unfolding incr_attempt
  seen-incr_attempt k j t u window ttl s =
      seen-live j u ttl _
      ∙ ap not (
          law.live-incr_expire (attempt_key prefix k) (seen_key prefix j) window t u s
            (attempt_key-seen_key prefix k j))
      ∙ sym (seen-live j u ttl s)

  counted :
      (k : Bytes) (t window : ℕ) (s : r.State)
      → (incr_attempt r prefix k t window s).1 ≡ suc (attempts r prefix k t s)
  unfolding incr_attempt attempts
  counted k t window s = ap (or_else 1) (law.incr_expire k window t s)

  attempts-incr_attempt :
      (k j : Bytes) (t u window : ℕ) (s : r.State)
      → IsWindow window
      → attempts r prefix j u (incr_attempt r prefix k t window s).0 ≡ (
          if eqb k j
          then (if ltb u (t + window) then suc (attempts r prefix k t s) else 0)
          else attempts r prefix j u s)
  unfolding incr_attempt attempts
  attempts-incr_attempt k j t u window s w =
      law.get_int-incr_expire (attempt_key prefix k) (attempt_key prefix j) window t u s w
      ∙ ap
          (λ b.
            if b
            then (if ltb u (t + window)
                then or_else 0 (r.incr_expire (attempt_key prefix k) window t s).1
                else 0)
            else attempts r prefix j u s)
          (own_key prefix (codes "attempt:") k j)
      ∙ ap
          (λ x.
            if eqb k j
            then (if ltb u (t + window) then or_else 0 x else 0)
            else attempts r prefix j u s)
          (law.incr_expire k window t s)

  attempts-mark_signal :
      (k j : Bytes) (t u ttl : ℕ) (s : r.State)
      → attempts r prefix j u (mark_signal r prefix k t ttl s) ≡ attempts r prefix j u s
  unfolding attempts mark_signal
  attempts-mark_signal k j t u ttl s = ap (or_else 0) (
      law.get_int-set (signal_key prefix k) (r.format_time t) (attempt_key prefix j) ttl t u s
        (signal_key-attempt_key prefix k j))

  attempts-mark_seen :
      (k j : Bytes) (t u ttl : ℕ) (s : r.State)
      → attempts r prefix j u (mark_seen r prefix k t ttl s).0 ≡ attempts r prefix j u s
  unfolding attempts mark_seen
  attempts-mark_seen k j t u ttl s = ap (or_else 0) (
      law.get_int-set_nx (seen_key prefix k) (codes "1") (attempt_key prefix j) ttl t u s
        (seen_key-attempt_key prefix k j))

  -- RedisStore keeps the contract of a store.
  pub redis_store-StoreLaw : StoreLaw (redis_store r prefix)
  redis_store-StoreLaw = record {
    fresh-mark_signal = fresh-mark_signal;
    fresh-mark_seen = fresh-mark_seen;
    fresh-incr_attempt = fresh-incr_attempt;
    seen_again = seen_again;
    seen_other = seen_other;
    seen-mark_signal = seen-mark_signal;
    seen-incr_attempt = seen-incr_attempt;
    counted = counted;
    attempts_within =
        λ k j t u window s w within. attempts-incr_attempt k j t u window s w ∙ ground arith;
    attempts_after =
        λ k j t u window s w over. attempts-incr_attempt k j t u window s w ∙ ground arith;
    attempts-mark_signal = attempts-mark_signal;
    attempts-mark_seen = attempts-mark_seen;
  }
