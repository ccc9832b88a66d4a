-- ===== src/WebUi/Throttle.antt =====
-- internal/webui/ratelimit.go: the limit on failed logins per client address. The mutex makes each
-- method one step; a time counts nanoseconds from Go's zero time, and is an argument.
pub mod Entries
pub mod Budget
pub mod Isolation
pub mod Release
use k8s_ai_remediator.Prelude.{
  ℕ, suc, ◌+◌, ◌-◌, ◌*◌, ◌^◌, Bool, true, false, not, ◌&&◌, Option, none, some, List, [], ◌∷◌,
  Bytes, Map, lookup, insert, erase, length, ltb, leb, if◌then◌else◌,
}
use k8s_ai_remediator.Retain.{retain}

abbrev pub max_throttle_entries : ℕ
max_throttle_entries = 4096

pub record ThrottleEntry : Type 0 where
  pub failures : ℕ
  pub window_start : ℕ
  pub locked_until : ℕ

pub record LoginThrottle : Type 0 where
  pub entries : Map ThrottleEntry
  pub max : ℕ
  pub window : ℕ
  pub lockout : ℕ

abbrev pub minute : ℕ
minute = 60 * 10 ^ 9

abbrev pub new_login_throttle : LoginThrottle
new_login_throttle = record { entries = []; max = 5; window = 15 * minute; lockout = 15 * minute }

abbrev pub unlocked : ℕ → Option ThrottleEntry → Bool
unlocked now none = true
unlocked now (some e) = not (ltb now e.locked_until)

unfoldable pub allowed : Bytes → ℕ → LoginThrottle → Bool
allowed key now t = unlocked now (lookup key t.entries)

-- the entries that `prune_locked` deletes are the others
abbrev pub is_live : ℕ → ℕ → ThrottleEntry → Bool
is_live window now e = not (ltb e.locked_until now && ltb window (now - e.window_start))

unfoldable pub prune_locked : ℕ → LoginThrottle → LoginThrottle
prune_locked now t = record t { entries = retain (is_live t.window now) t.entries }

abbrev pub started_at : ℕ → ThrottleEntry
started_at now = record { failures = 0; window_start = now; locked_until = 0 }

-- the entry whose window is open, or else a new one
abbrev pub open_window : ℕ → ℕ → Option ThrottleEntry → ThrottleEntry
open_window window now none = started_at now
open_window window now (some e) = if ltb window (now - e.window_start) then started_at now else e

abbrev pub charge : ℕ → ℕ → ℕ → ThrottleEntry → ThrottleEntry
charge max lockout now e = record {
  failures = suc e.failures;
  window_start = e.window_start;
  locked_until = if leb max (suc e.failures) then now + lockout else e.locked_until;
}

unfoldable pub make_room : ℕ → LoginThrottle → LoginThrottle
make_room now t = record t {
  entries =
      if ltb max_throttle_entries (length t.entries)
      then (prune_locked now t).entries
      else t.entries;
}

unfoldable pub record_failure : Bytes → ℕ → LoginThrottle → LoginThrottle
record_failure key now throttle =
    let t = make_room now throttle in
    let e = charge t.max t.lockout now (open_window t.window now (lookup key t.entries)) in
    record t { entries = insert key e t.entries }

unfoldable pub record_success : Bytes → LoginThrottle → LoginThrottle
record_success key t = record t { entries = erase key t.entries }

-- an outcome of a credential check of a client
pub data Verdict : Type 0 where
  fails succeeds : Bytes → Verdict

unfoldable pub settle : ℕ → Verdict → LoginThrottle → LoginThrottle
settle now (fails key) t = record_failure key now t
settle now (succeeds key) t = record_success key t

unfoldable pub settle_all : List (ℕ × Verdict) → LoginThrottle → LoginThrottle
unfolding settle
settle_all [] t = t
settle_all ((now, v) ∷ vs) t = settle_all vs (settle now v t)
