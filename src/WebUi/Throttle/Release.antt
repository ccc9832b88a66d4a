-- ===== src/WebUi/Throttle/Release.antt =====
-- The end of a lockout (internal/webui/ratelimit.go).
use k8s_ai_remediator.Prelude.{
  ℕ, ◌+◌, ◌≤◌, ◌≡◌, Option, none, some, arith, Bytes, lookup, true, Bool-cases, inl, inr, List, [],
  ◌∷◌, eqb, eqb_sound, sym, ap, ◌∙◌, subst,
}
use k8s_ai_remediator.Retain.{IsDistinct}
use k8s_ai_remediator.WebUi.Throttle.{
  ThrottleEntry, LoginThrottle, unlocked, open_window, charge, allowed, Verdict, fails, succeeds,
  settle, settle_all,
}
use k8s_ai_remediator.WebUi.Throttle.Entries.{unlocked-live, own-record_failure, own-record_success}
use k8s_ai_remediator.WebUi.Throttle.Isolation.{
  client, own, IsTimed, last_time, other_entry, settle-IsDistinct, settle-lockout, allowed-own,
}

unlocked-charge :
    (max lockout window now later : ℕ) (o : Option ThrottleEntry)
    → now + lockout ≤ later
    → unlocked later o ≡ true
    → unlocked later (some (charge max lockout now (open_window window now o))) ≡ true
unlocked-charge max lockout window now later none le free = ground arith
unlocked-charge max lockout window now later (some e) le free = ground arith

unlocked-own :
    (now later : ℕ) (v : Verdict) (t : LoginThrottle)
    → IsDistinct t.entries
    → now + t.lockout ≤ later
    → unlocked later (lookup (client v) t.entries) ≡ true
    → unlocked later (lookup (client v) (settle now v t).entries) ≡ true
unfolding settle
unlocked-own now later (fails key) t h le free =
    ap (unlocked later) (own-record_failure key now t h)
    ∙ unlocked-charge t.max t.lockout t.window now later (lookup key t.entries) le free
unlocked-own now later (succeeds key) t h le free =
    ap (unlocked later) (own-record_success key now t h)

allowed-settle :
    (key : Bytes) (now later : ℕ) (v : Verdict) (t : LoginThrottle)
    → IsDistinct t.entries
    → now + t.lockout ≤ later
    → allowed key later t ≡ true
    → allowed key later (settle now v t) ≡ true
unfolding allowed
allowed-settle key now later v t h le free = elim (Bool-cases (eqb (client v) key)) [
  | inr differs ↦
      let after = lookup key (settle now v t).entries in
      sym (unlocked-live t.window now later (omega arith) after)
      ∙ (ap (unlocked later) (other_entry key now v t h differs)
          ∙ (unlocked-live t.window now later (omega arith) (lookup key t.entries) ∙ free))
  | inl same ↦
      let e = eqb_sound (client v) key same in
      subst (λ k. unlocked later (lookup k (settle now v t).entries) ≡ true) e
        (unlocked-own now later v t h le
          (subst (λ k. unlocked later (lookup k t.entries) ≡ true) (sym e) free))
]

le-last_time : (now : ℕ) (vs : List (ℕ × Verdict)) → IsTimed now vs → now ≤ last_time now vs
le-last_time now [] timed = omega arith
le-last_time now ((at, v) ∷ vs) timed = omega (arith, timed.0, le-last_time at vs timed.1)

allowed-settle_all :
    (key : Bytes) (now later : ℕ) (vs : List (ℕ × Verdict)) (t : LoginThrottle)
    → IsDistinct t.entries
    → IsTimed now vs
    → last_time now vs + t.lockout ≤ later
    → allowed key later t ≡ true
    → allowed key later (settle_all vs t) ≡ true
unfolding settle_all
allowed-settle_all key now later [] t h timed le free = free
allowed-settle_all key now later ((at, v) ∷ vs) t h timed le free =
    allowed-settle_all key at later vs (settle at v t) (settle-IsDistinct at v t h) timed.1
      (rw settle-lockout le)
      (allowed-settle key at later v t h (omega (arith, le-last_time at vs timed.1)) free)

IsTimed-sooner :
    (now later : ℕ) (vs : List (ℕ × Verdict)) → now ≤ later → IsTimed later vs → IsTimed now vs
IsTimed-sooner now later [] le timed = tt
IsTimed-sooner now later ((at, v) ∷ vs) le timed = (omega (arith, timed.0), timed.1)

own-IsTimed :
    (key : Bytes) (now : ℕ) (vs : List (ℕ × Verdict)) → IsTimed now vs → IsTimed now (own key vs)
unfolding own
own-IsTimed key now [] timed = tt
own-IsTimed key now ((at, v) ∷ vs) timed = elim (Bool-cases (eqb (client v) key)) [
  | inl same ↦ rw same (timed.0, own-IsTimed key at vs timed.1)
  | inr differs ↦ rw differs (own-IsTimed key now vs (IsTimed-sooner now at vs timed.0 timed.1))
]

-- Where the keys of the entries are distinct and the clock does not go back, a client that no
-- earlier lock holds may try again once the lockout has passed since its own last attempt, whatever
-- other clients have done.
pub allowed-after_lockout :
    (key : Bytes) (start later : ℕ) (vs : List (ℕ × Verdict)) (t : LoginThrottle)
    → IsDistinct t.entries
    → IsTimed start vs
    → last_time start vs ≤ later
    → last_time start (own key vs) + t.lockout ≤ later
    → allowed key later t ≡ true
    → allowed key later (settle_all vs t) ≡ true
allowed-after_lockout key start later vs t h timed le over free =
    allowed-own key start later vs t h timed le
    ∙ allowed-settle_all key start later (own key vs) t h (own-IsTimed key start vs timed) over free
