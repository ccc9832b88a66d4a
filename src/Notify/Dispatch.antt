-- ===== src/Notify/Dispatch.antt =====
-- The goroutines of NotifyDecision of internal/notify/notify.go and what they send.
use k8s_ai_remediator.Prelude.{
  ℕ, ◌≤◌, ◌≡◌, refl, sym, subst, ap, ◌∙◌, zero, suc, ltb, Bool, true, false, none, some, ◌∷◌, All,
  arith, inl, inr, Bool-cases, if◌then◌else◌,
}
use k8s_ai_remediator.Model.{parse_severity, meets_minimum}
use k8s_ai_remediator.Notify.{
  FormatFloat, DecisionResult, SmtpConfig, SmtpNotifier, new_notifier, max_concurrent_sends, Send,
  Dispatchers, idle, dispatch, notify_decision, Step, notify, sent, timed_out, sent_late, Reach,
  start, next,
}

module _ (format_float : FormatFloat) (n : SmtpNotifier) where
  -- a result of at least the minimum severity and its message
  pub record IsDue (x : DecisionResult × Send) : Type 0 where
    pub severe : meets_minimum (parse_severity x.0.decision.severity) n.minimum ≡ true
    pub message : x.1 ≡ dispatch format_float n x.0

  record IsReported (s : Dispatchers) : Type 0 where
    slots : s.waiting ≤ n.capacity
    due : All IsDue s.started

  notify_decision-due :
      (r : DecisionResult) (s : Dispatchers)
      → meets_minimum (parse_severity r.decision.severity) n.minimum ≡ true
      → ltb s.waiting n.capacity ≡ true
      → notify_decision format_float n r s
        ≡ record s { waiting = suc s.waiting; started = (r, dispatch format_float n r) ∷ s.started }
  unfolding notify_decision
  notify_decision-due r s severe room = rw (severe, room) refl

  notified :
      (r : DecisionResult) (s : Dispatchers)
      → IsReported s
      → IsReported (notify_decision format_float n r s)
  unfolding notify_decision
  notified r s h =
      elim (Bool-cases (meets_minimum (parse_severity r.decision.severity) n.minimum)) [
        | inr minor ↦ rw minor h
        | inl severe ↦ elim (Bool-cases (ltb s.waiting n.capacity)) [
          | inr full ↦ rw (severe, full) h
          | inl room ↦
              rw (severe, room)
                (record {
                  slots = ground arith;
                  due = (record { severe = severe; message = refl }, h.due);
                })
        ]
      ]

  step-IsReported : {s t : Dispatchers} → Step format_float n s t → IsReported s → IsReported t
  step-IsReported {s} (notify r) h = notified r s h
  step-IsReported (sent e) h = record { slots = omega (arith, h.slots, e); due = h.due }
  step-IsReported (timed_out e) h = record { slots = omega (arith, h.slots, e); due = h.due }
  step-IsReported (sent_late e) h = record { slots = h.slots; due = h.due }

  Reach-IsReported : {s : Dispatchers} → Reach format_float n s → IsReported s
  Reach-IsReported start = record { slots = omega arith; due = tt }
  Reach-IsReported (next h step) = step-IsReported step (Reach-IsReported h)

  -- one more send that hangs
  hang :
      (r : DecisionResult) (s : Dispatchers)
      → meets_minimum (parse_severity r.decision.severity) n.minimum ≡ true
      → 1 ≤ n.capacity
      → s.waiting ≡ 0
      → Reach format_float n s
      → Reach format_float n (record {
        waiting = 0;
        abandoned = suc s.abandoned;
        started = (r, dispatch format_float n r) ∷ s.started;
      })
  hang r s severe room free h =
      next
        (next h (
          subst (Step format_float n s)
            (notify_decision-due r s severe (ground arith)
              ∙ ap
                  (λ w. record {
                    waiting = suc w;
                    abandoned = s.abandoned;
                    started = (r, dispatch format_float n r) ∷ s.started;
                  })
                  free)
            (notify r)))
        (timed_out refl)

  -- The semaphore bounds the dispatchers and not the sends: for every number there is a run after
  -- which that many sends are in flight without a dispatcher, when the results are severe enough.
  pub Reach-abandoned :
      (r : DecisionResult)
      → meets_minimum (parse_severity r.decision.severity) n.minimum ≡ true
      → 1 ≤ n.capacity
      → (k : ℕ) → (s : Dispatchers) × Reach format_float n s × (s.waiting ≡ 0) × (s.abandoned ≡ k)
  Reach-abandoned r severe room zero = (idle, start, refl, refl)
  Reach-abandoned r severe room (suc k) =
      let (s, h, free, same) = Reach-abandoned r severe room k in
      (_, hang r s severe room free h, refl, ap suc same)

some_of : {A : Type 0} (b : Bool) (x y : A) → (if b then none else some x) ≡ some y → x ≡ y
some_of true x y e = cc e
some_of false x y e = cc e

new_notifier-capacity :
    (cfg : SmtpConfig) (n : SmtpNotifier)
    → new_notifier cfg ≡ some n
    → n.capacity ≡ max_concurrent_sends
unfolding new_notifier
new_notifier-capacity cfg n made = sym (ap (λ x. x.capacity) (some_of _ _ n made))

-- In every run of a notifier that New returns at most sixteen dispatchers wait, and every message
-- that was sent is that of a result of at least the minimum severity.
pub Reach-new_notifier :
    (format_float : FormatFloat) (cfg : SmtpConfig) (n : SmtpNotifier) (s : Dispatchers)
    → new_notifier cfg ≡ some n
    → Reach format_float n s
    → (s.waiting ≤ 16) × All (IsDue format_float n) s.started
Reach-new_notifier format_float cfg n s made h =
    let r = Reach-IsReported format_float n h in
    (subst (λ m. s.waiting ≤ m) (new_notifier-capacity cfg n made) r.slots, r.due)
