-- ===== src/WebUi/Throttle/Isolation.antt =====
-- The answers to one client beside the calls of others (internal/webui/ratelimit.go).
use k8s_ai_remediator.Prelude.{
  ℕ, ◌≤◌, ◌≡◌, refl, arith, Bytes, lookup, if◌then◌else◌, eqb, false, eqb_iff, Bool-cases, some,
  inl, inr, List, [], ◌∷◌, ap, sym, ◌∙◌, subst,
}
use k8s_ai_remediator.Retain.{IsDistinct}
use k8s_ai_remediator.WebUi.Throttle.{
  LoginThrottle, open_window, charge, allowed, record_failure, record_success, Verdict, fails,
  succeeds, settle, settle_all, make_room,
}
use k8s_ai_remediator.WebUi.Throttle.Entries.{
  live, unlocked-live, open_window-live, live-live, own-record_failure, own-record_success,
  other-record_failure, other-record_success, record_failure-IsDistinct, record_success-IsDistinct,
}

-- the client of a verdict
abbrev pub client : Verdict → Bytes
client (fails k) = k
client (succeeds k) = k

-- the verdicts on one client
unfoldable pub own : Bytes → List (ℕ × Verdict) → List (ℕ × Verdict)
own key [] = []
own key ((now, v) ∷ vs) =
    let rest = own key vs in if eqb (client v) key then (now, v) ∷ rest else rest

-- The clock does not go back.
abbrev pub IsTimed : ℕ → List (ℕ × Verdict) → Type 0
IsTimed now [] = Unit
IsTimed now ((t, v) ∷ vs) = (now ≤ t) × IsTimed t vs

abbrev pub last_time : ℕ → List (ℕ × Verdict) → ℕ
last_time now [] = now
last_time now ((t, v) ∷ vs) = last_time t vs

-- two throttles between which the client `key` cannot tell from `now` on
pub record Alike (key : Bytes) (now : ℕ) (t u : LoginThrottle) : Type 0 where
  pub max : t.max ≡ u.max
  pub window : t.window ≡ u.window
  pub lockout : t.lockout ≡ u.lockout
  pub distinct : IsDistinct t.entries
  pub distinct' : IsDistinct u.entries
  pub entry : live t.window now (lookup key t.entries) ≡ live t.window now (lookup key u.entries)

module _ (key : Bytes) (now : ℕ) (t u : LoginThrottle) (h : Alike key now t u) where
  pub allowed-Alike : (later : ℕ) → now ≤ later → allowed key later t ≡ allowed key later u
  unfolding allowed
  allowed-Alike later le =
      rw
        (
          ← unlocked-live t.window now later le (lookup key t.entries),
          h.entry,
          unlocked-live t.window now later le (lookup key u.entries),
        )
        refl

module _ (now : ℕ) where
  pub settle-max : (v : Verdict) (t : LoginThrottle) → (settle now v t).max ≡ t.max
  unfolding settle record_failure make_room record_success
  settle-max (fails k) t = refl
  settle-max (succeeds k) t = refl

  pub settle-window : (v : Verdict) (t : LoginThrottle) → (settle now v t).window ≡ t.window
  unfolding settle record_failure make_room record_success
  settle-window (fails k) t = refl
  settle-window (succeeds k) t = refl

  pub settle-lockout : (v : Verdict) (t : LoginThrottle) → (settle now v t).lockout ≡ t.lockout
  unfolding settle record_failure make_room record_success
  settle-lockout (fails k) t = refl
  settle-lockout (succeeds k) t = refl

pub settle-IsDistinct :
    (now : ℕ) (v : Verdict) (t : LoginThrottle)
    → IsDistinct t.entries
    → IsDistinct (settle now v t).entries
unfolding settle
settle-IsDistinct now (fails k) t h = record_failure-IsDistinct k now t h
settle-IsDistinct now (succeeds k) t h = record_success-IsDistinct k now t h

Alike-later :
    (key : Bytes) (now later : ℕ) (t u : LoginThrottle)
    → Alike key now t u
    → now ≤ later
    → Alike key later t u
Alike-later key now later t u h le = record {
  max = h.max;
  window = h.window;
  lockout = h.lockout;
  distinct = h.distinct;
  distinct' = h.distinct';
  entry =
      rw
        (
          ← live-live t.window now later le (lookup key t.entries),
          h.entry,
          live-live t.window now later le (lookup key u.entries),
        )
        refl;
}

-- settings, distinct keys, and only the entry is left to show
settle-Alike :
    (key : Bytes) (now : ℕ) (v w : Verdict) (t u : LoginThrottle)
    → Alike key now t u
    → live t.window now (lookup key (settle now v t).entries)
      ≡ live t.window now (lookup key (settle now w u).entries)
    → Alike key now (settle now v t) (settle now w u)
settle-Alike key now v w t u h entry = record {
  max = settle-max now v t ∙ (h.max ∙ sym (settle-max now w u));
  window = settle-window now v t ∙ (h.window ∙ sym (settle-window now w u));
  lockout = settle-lockout now v t ∙ (h.lockout ∙ sym (settle-lockout now w u));
  distinct = settle-IsDistinct now v t h.distinct;
  distinct' = settle-IsDistinct now w u h.distinct';
  entry = rw settle-window entry;
}

charges_agree :
    (key : Bytes) (now : ℕ) (t u : LoginThrottle)
    → Alike key now t u
    → charge t.max t.lockout now (open_window t.window now (lookup key t.entries))
      ≡ charge u.max u.lockout now (open_window u.window now (lookup key u.entries))
charges_agree key now t u h =
    rw
      (
        ← open_window-live t.window now now (omega arith) (lookup key t.entries),
        h.entry,
        open_window-live t.window now now (omega arith) (lookup key u.entries),
        h.max,
        h.window,
        h.lockout,
      )
      refl

-- a call of the client on both throttles
settle_own :
    (now : ℕ) (v : Verdict) (t u : LoginThrottle)
    → Alike (client v) now t u
    → Alike (client v) now (settle now v t) (settle now v u)
settle_own now (fails k) t u h = settle-Alike k now (fails k) (fails k) t u h (
    unfold settle in
    ap (live t.window now) (
      own-record_failure k now t h.distinct
      ∙ (ap some (charges_agree k now t u h) ∙ sym (own-record_failure k now u h.distinct'))))
settle_own now (succeeds k) t u h = settle-Alike k now (succeeds k) (succeeds k) t u h (
    unfold settle in
    ap (live t.window now)
      (own-record_success k now t h.distinct ∙ sym (own-record_success k now u h.distinct')))

-- a call of another client on the first throttle only
pub other_entry :
    (key : Bytes) (now : ℕ) (v : Verdict) (t : LoginThrottle)
    → IsDistinct t.entries
    → eqb (client v) key ≡ false
    → live t.window now (lookup key (settle now v t).entries)
      ≡ live t.window now (lookup key t.entries)
unfolding settle
other_entry key now (fails k) t h differs = other-record_failure k now t h key differs
other_entry key now (succeeds k) t h differs =
    ap (live t.window now) (other-record_success k now t h key differs)

settle_other :
    (key : Bytes) (now : ℕ) (v : Verdict) (t u : LoginThrottle)
    → Alike key now t u
    → eqb (client v) key ≡ false
    → Alike key now (settle now v t) u
settle_other key now v t u h differs = record {
  max = settle-max now v t ∙ h.max;
  window = settle-window now v t ∙ h.window;
  lockout = settle-lockout now v t ∙ h.lockout;
  distinct = settle-IsDistinct now v t h.distinct;
  distinct' = h.distinct';
  entry = rw settle-window (other_entry key now v t h.distinct differs ∙ h.entry);
}

settle_all-Alike :
    (key : Bytes) (now : ℕ) (vs : List (ℕ × Verdict)) (t u : LoginThrottle)
    → IsTimed now vs
    → Alike key now t u
    → Alike key (last_time now vs) (settle_all vs t) (settle_all (own key vs) u)
unfolding settle_all own
settle_all-Alike key now [] t u timed h = h
settle_all-Alike key now ((at, v) ∷ vs) t u timed h =
    let later = Alike-later key now at t u h timed.0 in
    elim (Bool-cases (eqb (client v) key)) [
      | inl same ↦
          let e = (eqb_iff (client v) key).0 same in
          rw same (
            settle_all-Alike key at vs (settle at v t) (settle at v u) timed.1 (
              subst (λ k. Alike k at (settle at v t) (settle at v u)) e
                (settle_own at v t u (subst (λ k. Alike k at t u) (sym e) later))))
      | inr differs ↦ rw differs (
          settle_all-Alike key at vs (settle at v t) u timed.1
            (settle_other key at v t u later differs))
    ]

-- Where the keys of the entries are distinct and the clock does not go back, whether a client may
-- try a password depends on the failures and successes of that client only: not on those of other
-- clients, and not on the pruning that they set off.
pub allowed-own :
    (key : Bytes) (now later : ℕ) (vs : List (ℕ × Verdict)) (t : LoginThrottle)
    → IsDistinct t.entries
    → IsTimed now vs
    → last_time now vs ≤ later
    → allowed key later (settle_all vs t) ≡ allowed key later (settle_all (own key vs) t)
allowed-own key now later vs t h timed le =
    allowed-Alike key (last_time now vs) (settle_all vs t) (settle_all (own key vs) t)
      (settle_all-Alike key now vs t t timed (record {
        max = refl;
        window = refl;
        lockout = refl;
        distinct = h;
        distinct' = h;
        entry = refl;
      }))
      later le
