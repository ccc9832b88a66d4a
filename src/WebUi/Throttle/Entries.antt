-- ===== src/WebUi/Throttle/Entries.antt =====
-- The entry of one client after one call (internal/webui/ratelimit.go).
use k8s_ai_remediator.Prelude.{
  ℕ, ◌≤◌, ◌≡◌, refl, Option, none, some, arith, Bytes, lookup, ltb, eqb, false, lookup-insert,
  lookup-erase, eqb_self, Bool-cases, inl, inr, length, ap,
}
use k8s_ai_remediator.Retain.{
  kept, IsDistinct, lookup-retain, retain-IsDistinct, insert-IsDistinct, erase-IsDistinct,
}
use k8s_ai_remediator.WebUi.Throttle.{
  ThrottleEntry, LoginThrottle, unlocked, is_live, open_window, charge, record_failure,
  record_success, prune_locked, make_room, max_throttle_entries,
}

-- an entry as far as a later call can tell
abbrev pub live : ℕ → ℕ → Option ThrottleEntry → Option ThrottleEntry
live window now o = kept (is_live window now) o

module _ (window now t : ℕ) (le : now ≤ t) where
  pub unlocked-live : (o : Option ThrottleEntry) → unlocked t (live window now o) ≡ unlocked t o
  unlocked-live none = refl
  unlocked-live (some e) = ground arith

  pub open_window-live :
      (o : Option ThrottleEntry) → open_window window t (live window now o) ≡ open_window window t o
  open_window-live none = refl
  open_window-live (some e) = ground arith

  pub live-live : (o : Option ThrottleEntry) → live window t (live window now o) ≡ live window t o
  live-live none = refl
  live-live (some e) = ground arith

module _ (now : ℕ) (t : LoginThrottle) where
  pub make_room-IsDistinct : IsDistinct t.entries → IsDistinct (make_room now t).entries
  unfolding make_room prune_locked
  make_room-IsDistinct h = ground (arith, retain-IsDistinct (is_live t.window now) t.entries h)

  pub live-make_room :
      (key : Bytes)
      → IsDistinct t.entries
      → live t.window now (lookup key (make_room now t).entries)
        ≡ live t.window now (lookup key t.entries)
  unfolding make_room prune_locked
  live-make_room key h = elim (Bool-cases (ltb max_throttle_entries (length t.entries))) [
    | inl full ↦
        rw (full, lookup-retain (is_live t.window now) key t.entries h)
          (live-live t.window now now (omega arith) (lookup key t.entries))
    | inr roomy ↦ rw roomy refl
  ]

module _ (key : Bytes) (now : ℕ) (t : LoginThrottle) (h : IsDistinct t.entries) where
  pub open_window-make_room :
      open_window t.window now (lookup key (make_room now t).entries)
      ≡ open_window t.window now (lookup key t.entries)
  open_window-make_room =
      rw
        (
          ← open_window-live t.window now now (omega arith) (lookup key (make_room now t).entries),
          live-make_room now t key h,
          open_window-live t.window now now (omega arith) (lookup key t.entries),
        )
        refl

  pub own-record_failure :
      lookup key (record_failure key now t).entries
      ≡ some (charge t.max t.lockout now (open_window t.window now (lookup key t.entries)))
  unfolding record_failure make_room
  own-record_failure =
      rw (lookup-insert, eqb_self key)
        (ap (λ e. some (charge t.max t.lockout now e)) (unfold make_room in open_window-make_room))

  pub own-record_success : lookup key (record_success key t).entries ≡ none
  unfolding record_success
  own-record_success = rw (lookup-erase, eqb_self key) refl

  pub other-record_failure :
      (j : Bytes)
      → eqb key j ≡ false
      → live t.window now (lookup j (record_failure key now t).entries)
        ≡ live t.window now (lookup j t.entries)
  unfolding record_failure
  other-record_failure j differs = rw (lookup-insert, differs) (live-make_room now t j h)

  pub other-record_success :
      (j : Bytes) → eqb key j ≡ false → lookup j (record_success key t).entries ≡ lookup j t.entries
  unfolding record_success
  other-record_success j differs = rw (lookup-erase, differs) refl

  pub record_failure-IsDistinct : IsDistinct (record_failure key now t).entries
  unfolding record_failure
  record_failure-IsDistinct =
      insert-IsDistinct key _ (make_room now t).entries (make_room-IsDistinct now t h)

  pub record_success-IsDistinct : IsDistinct (record_success key t).entries
  unfolding record_success
  record_success-IsDistinct = erase-IsDistinct key t.entries h
