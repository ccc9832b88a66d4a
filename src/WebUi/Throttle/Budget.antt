-- ===== src/WebUi/Throttle/Budget.antt =====
-- The passwords that one client can have compared (internal/webui/ratelimit.go).
use k8s_ai_remediator.Prelude.{
  ℕ, suc, ◌+◌, ◌-◌, ◌*◌, ◌/◌, ◌≤◌, ◌<◌, ◌≡◌, ◌⊎◌, refl, Option, none, some, arith, Bytes, lookup,
  true, false, Bool-cases, inl, inr, eqb, ltb, leb, subst, sym, ap, ◌∙◌,
}
use k8s_ai_remediator.Retain.{IsDistinct}
use k8s_ai_remediator.WebUi.Throttle.{
  ThrottleEntry, LoginThrottle, new_login_throttle, unlocked, is_live, open_window, started_at,
  charge, allowed, minute, Verdict, fails, settle,
}
use k8s_ai_remediator.WebUi.Throttle.Isolation.{
  client, settle-max, settle-window, settle-lockout, settle-IsDistinct, other_entry,
}
use k8s_ai_remediator.WebUi.Throttle.Entries.{
  live, unlocked-live, open_window-live, live-live, own-record_failure,
}

abbrev quarter : ℕ
quarter = 15 * minute

-- `n` wrong passwords since `start`, the last window being number `w`
record Charged (n start now w : ℕ) (e : ThrottleEntry) : Type 0 where
  counted : n ≤ 5 * w + e.failures
  started : start + w * quarter ≤ e.window_start
  past : e.window_start ≤ now
  stage :
      (e.failures ≤ 4)
      ⊎ (((e.failures ≡ 5) × (e.window_start + quarter ≤ e.locked_until))
          ⊎ ((e.failures ≡ 6)
              × (e.window_start + quarter ≤ now)
              × (e.window_start + 2 * quarter ≤ e.locked_until)))

Spent : ℕ → ℕ → ℕ → Option ThrottleEntry → Type 0
Spent n start now none = (w : ℕ) × (n ≤ 5 * w) × (start + w * quarter ≤ now)
Spent n start now (some e) = (w : ℕ) × Charged n start now w e

Spent-later :
    (n start now later : ℕ) (o : Option ThrottleEntry)
    → now ≤ later
    → Spent n start now o
    → Spent n start later o
unfolding Spent
Spent-later n start now later none le (w, few, begun) = (w, few, omega arith)
Spent-later n start now later (some e) le (w, c) = (
  w,
  record {
    counted = c.counted;
    started = c.started;
    past = omega (arith, c.past);
    stage = elim c.stage [
      | inl few ↦ inl few
      | inr (inl five) ↦ inr (inl five)
      | inr (inr six) ↦ inr (inr (six.0, omega (arith, six.1), six.2))
    ];
  },
)

-- the windows behind an entry whose window is over and which is not locked
expired :
    (n start now w : ℕ) (e : ThrottleEntry)
    → Charged n start now w e
    → e.locked_until ≤ now
    → quarter < now - e.window_start
    → (v : ℕ) × (n ≤ 5 * v) × (start + v * quarter ≤ now)
expired n start now w e c free over = elim c.stage [
  | inl few ↦ (suc w, omega (arith, c.counted), omega (arith, c.started))
  | inr (inl five) ↦ (suc w, omega (arith, c.counted), omega (arith, c.started))
  | inr (inr six) ↦ (suc (suc w), omega (arith, c.counted), omega (arith, c.started))
]

Spent-live :
    (n start now : ℕ) (o : Option ThrottleEntry)
    → Spent n start now o
    → Spent n start now (live quarter now o)
Spent-live n start now none h = h
Spent-live n start now (some e) h = elim (Bool-cases (is_live quarter now e)) [
  | inl alive ↦ rw alive h
  | inr dead ↦ rw dead (unfold Spent in expired n start now h.0 e h.1 (ground arith) (ground arith))
]

-- the first wrong password of a window
first_of :
    (n start now : ℕ)
    → (v : ℕ) × (n ≤ 5 * v) × (start + v * quarter ≤ now)
    → Spent (suc n) start now (some (charge 5 quarter now (started_at now)))
unfolding Spent
first_of n start now (w, few, begun) = (
  w,
  record {
    counted = omega arith;
    started = omega arith;
    past = omega arith;
    stage = inl (omega arith);
  },
)

-- a further one
next_of :
    (n start now w : ℕ) (e : ThrottleEntry)
    → Charged n start now w e
    → e.locked_until ≤ now
    → now - e.window_start ≤ quarter
    → Charged (suc n) start now w (charge 5 quarter now e)
next_of n start now w e c free running = record {
  counted = omega (arith, c.counted);
  started = c.started;
  past = c.past;
  stage = elim c.stage [
    | inl few ↦ elim (Bool-cases (leb 5 (suc e.failures))) [
      | inl last ↦ inr (inl (ground arith, ground (arith, c.past)))
      | inr more ↦ inl (ground arith)
    ]
    | inr (inl five) ↦ inr (inr (omega arith, omega (arith, five.1), ground (arith, c.past)))
    | inr (inr six) ↦ absurd (omega (arith, c.past))
  ];
}

-- one more wrong password
Spent-charge :
    (n start now : ℕ) (o : Option ThrottleEntry)
    → Spent n start now o
    → unlocked now o ≡ true
    → Spent (suc n) start now (some (charge 5 quarter now (open_window quarter now o)))
unfolding Spent
Spent-charge n start now none h free = first_of n start now h
Spent-charge n start now (some e) (w, c) free =
    elim (Bool-cases (ltb quarter (now - e.window_start))) [
      | inl over ↦ rw over (
          unfold Spent in
          first_of n start now (expired n start now w e c (ground arith) (ground arith)))
      | inr running ↦ rw running (w, next_of n start now w e c (ground arith) (ground arith))
    ]

Spent-bound :
    (n start now : ℕ) (o : Option ThrottleEntry)
    → Spent n start now o
    → n ≤ 5 + 5 * ((now - start) / quarter)
unfolding Spent
Spent-bound n start now none (w, few, begun) = omega arith
Spent-bound n start now (some e) (w, c) = elim c.stage [
  | inl few ↦ omega (arith, c.counted, c.started, c.past)
  | inr (inl five) ↦ omega (arith, c.counted, c.started, c.past)
  | inr (inr six) ↦ omega (arith, c.counted, c.started, c.past)
]

-- a throttle of the program's settings in which the client `key` has had `n` wrong passwords
pub record Held (key : Bytes) (n start now : ℕ) (t : LoginThrottle) : Type 0 where
  distinct : IsDistinct t.entries
  max : t.max ≡ 5
  window : t.window ≡ quarter
  lockout : t.lockout ≡ quarter
  spent : Spent n start now (live quarter now (lookup key t.entries))

module _ (key : Bytes) (n start now : ℕ) where
  pub Held-bound :
      (t : LoginThrottle) → Held key n start now t → n ≤ 5 + 5 * ((now - start) / (15 * minute))
  Held-bound t h = Spent-bound n start now (live quarter now (lookup key t.entries)) h.spent

  pub Held-later :
      (later : ℕ) (t : LoginThrottle)
      → Held key n start now t
      → now ≤ later
      → Held key n start later t
  Held-later later t h le = record {
    distinct = h.distinct;
    max = h.max;
    window = h.window;
    lockout = h.lockout;
    spent =
        subst (Spent n start later) (live-live quarter now later le (lookup key t.entries))
          (Spent-live n start later _ (Spent-later n start now later _ le h.spent));
  }

  Held-settle :
      (m : ℕ) (v : Verdict) (t : LoginThrottle)
      → Held key n start now t
      → Spent m start now (live quarter now (lookup key (settle now v t).entries))
      → Held key m start now (settle now v t)
  Held-settle m v t h spent = record {
    distinct = settle-IsDistinct now v t h.distinct;
    max = settle-max now v t ∙ h.max;
    window = settle-window now v t ∙ h.window;
    lockout = settle-lockout now v t ∙ h.lockout;
    spent = spent;
  }

  pub Held-fails :
      (t : LoginThrottle)
      → Held key n start now t
      → allowed key now t ≡ true
      → Held key (suc n) start now (settle now (fails key) t)
  unfolding allowed settle
  Held-fails t h free =
      let o = lookup key t.entries in
      let charged =
        Spent-charge n start now (live quarter now o) h.spent
          (unlocked-live quarter now now (omega arith) o ∙ free) in
      let e =
        own-record_failure key now t h.distinct
        ∙ (settings t h
            ∙ ap (λ x. some (charge 5 quarter now x))
                (sym (open_window-live quarter now now (omega arith) o))) in
      Held-settle (suc n) (fails key) t h
        (Spent-live (suc n) start now _ (subst (Spent (suc n) start now) (sym e) charged))
    where
      settings :
          (t : LoginThrottle)
          → Held key n start now t
          → some (charge t.max t.lockout now (open_window t.window now (lookup key t.entries)))
            ≡ some (charge 5 quarter now (open_window quarter now (lookup key t.entries)))
      settings t h = rw (h.max, h.window, h.lockout) refl

  pub Held-other :
      (v : Verdict) (t : LoginThrottle)
      → Held key n start now t
      → eqb (client v) key ≡ false
      → Held key n start now (settle now v t)
  Held-other v t h differs = Held-settle n v t h (
      subst (Spent n start now)
        (sym (
          subst
            (λ w.
              live w now (lookup key (settle now v t).entries) ≡ live w now (lookup key t.entries))
            h.window (other_entry key now v t h.distinct differs)))
        h.spent)

pub new_login_throttle-Held : (key : Bytes) (start : ℕ) → Held key 0 start start new_login_throttle
unfolding lookup Spent
new_login_throttle-Held key start = record {
  distinct = tt;
  max = refl;
  window = refl;
  lockout = refl;
  spent = (0, omega arith, omega arith);
}
