-- ===== src/Dedup/Redis/Keys.antt =====
-- The keys of a RedisStore (internal/dedup/redis.go).
use k8s_ai_remediator.Prelude.{◌≡◌, refl, arith, false, Bytes, ◌++◌, eqb, ◌∙◌, [], ◌∷◌}
use k8s_ai_remediator.Dedup.Redis.{seen_key, signal_key, attempt_key}

eqb-append : (p a b : Bytes) → eqb (p ++ a) (p ++ b) ≡ eqb a b
unfolding eqb
eqb-append [] a b = refl
eqb-append (c ∷ p) a b = ground (arith, eqb-append p a b)

module _ (prefix : Bytes) where
  -- keys of different kinds are different
  pub seen_key-signal_key : (k j : Bytes) → eqb (seen_key prefix k) (signal_key prefix j) ≡ false
  unfolding eqb
  seen_key-signal_key k j = eqb-append prefix _ _

  pub attempt_key-signal_key :
      (k j : Bytes) → eqb (attempt_key prefix k) (signal_key prefix j) ≡ false
  unfolding eqb
  attempt_key-signal_key k j = eqb-append prefix _ _

  pub signal_key-seen_key : (k j : Bytes) → eqb (signal_key prefix k) (seen_key prefix j) ≡ false
  unfolding eqb
  signal_key-seen_key k j = eqb-append prefix _ _

  pub attempt_key-seen_key : (k j : Bytes) → eqb (attempt_key prefix k) (seen_key prefix j) ≡ false
  unfolding eqb
  attempt_key-seen_key k j = eqb-append prefix _ _

  pub seen_key-attempt_key : (k j : Bytes) → eqb (seen_key prefix k) (attempt_key prefix j) ≡ false
  unfolding eqb
  seen_key-attempt_key k j = eqb-append prefix _ _

  pub signal_key-attempt_key :
      (k j : Bytes) → eqb (signal_key prefix k) (attempt_key prefix j) ≡ false
  unfolding eqb
  signal_key-attempt_key k j = eqb-append prefix _ _

  -- keys of one kind differ as their signals do
  pub own_key : (part k j : Bytes) → eqb (prefix ++ (part ++ k)) (prefix ++ (part ++ j)) ≡ eqb k j
  own_key part k j = eqb-append prefix _ _ ∙ eqb-append part k j
