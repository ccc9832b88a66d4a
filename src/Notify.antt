-- ===== src/Notify.antt =====
-- internal/notify/notify.go: the reports by mail and their dispatchers. smtp.SendMail is a call whose
-- end is a step of its own; the verb %.2f of fmt is a parameter.
mod Report
pub mod Dispatch
use k8s_ai_remediator.Prelude.{
  ℕ, zero, suc, ltb, ◌≡◌, Bool, true, false, not, ◌||◌, Option, none, some, List, [], ◌∷◌, ◌++◌,
  Bytes, codes, ℤ, pos, negsuc, eqb, if◌then◌else◌,
}
use k8s_ai_remediator.Result.{Error}
use k8s_ai_remediator.Text.{trim_space}
use k8s_ai_remediator.Text.Numbers.{itoa}
use k8s_ai_remediator.Model.{Severity, medium, parse_severity, meets_minimum, Decision}
use Report.{FormatFloat, DecisionResult, build_subject, build_body, build_message}
pub use Report.{FormatFloat, DecisionResult}
unfoldable pub use Report.{build_subject, build_body, build_message}

-- no severity is the empty string
pub record SmtpConfig : Type 0 where
  pub host : Bytes
  pub port : ℤ
  pub user : Bytes
  pub password : Bytes
  pub from : Bytes
  pub to : Bytes
  pub min_severity : Option Severity

-- smtpNotifier, with the capacity of its semaphore
pub record SmtpNotifier : Type 0 where
  pub cfg : SmtpConfig
  pub minimum : Severity
  pub capacity : ℕ

abbrev pub max_concurrent_sends : ℕ
max_concurrent_sends = 16

abbrev is_blank : Bytes → Bool
is_blank s = eqb (trim_space s) []

abbrev or_default : ℤ → ℤ → ℤ
or_default (pos zero) d = d
or_default n d = n

-- New; none is the no-op notifier
unfoldable pub new_notifier : SmtpConfig → Option SmtpNotifier
new_notifier cfg =
    if is_blank cfg.host || (is_blank cfg.user || is_blank cfg.to)
    then none
    else some (record {
      cfg = record cfg {
        port = or_default cfg.port (pos 587);
        from = if eqb cfg.from [] then cfg.user else cfg.from;
      };
      minimum = elim cfg.min_severity [ none ↦ medium | some s ↦ s ];
      capacity = max_concurrent_sends;
    })

-- the arguments of smtp.SendMail, with those of smtp.PlainAuth
pub record Send : Type 0 where
  pub addr : Bytes
  pub user : Bytes
  pub password : Bytes
  pub host : Bytes
  pub from : Bytes
  pub to : List Bytes
  pub message : Bytes

-- the goroutines: dispatchers that hold a slot of the semaphore, each with a send in flight, and sends
-- whose dispatcher has given up; and the results that were sent, the last one first
pub record Dispatchers : Type 0 where
  pub waiting : ℕ
  pub abandoned : ℕ
  pub started : List (DecisionResult × Send)

abbrev pub idle : Dispatchers
idle = record { waiting = 0; abandoned = 0; started = [] }

module _ (format_float : FormatFloat) (n : SmtpNotifier) where
  -- what dispatch passes to its send
  unfoldable pub dispatch : DecisionResult → Send
  unfolding build_subject build_body build_message
  dispatch r = record {
    addr = n.cfg.host ++ (codes ":" ++ itoa n.cfg.port);
    user = n.cfg.user;
    password = n.cfg.password;
    host = n.cfg.host;
    from = n.cfg.from;
    to = n.cfg.to ∷ [];
    message = build_message n.cfg.from n.cfg.to (build_subject r) (build_body format_float r);
  }

  unfoldable pub notify_decision : DecisionResult → Dispatchers → Dispatchers
  unfolding dispatch
  notify_decision r s =
      if not (meets_minimum (parse_severity r.decision.severity) n.minimum)
      then s
      else if not (ltb s.waiting n.capacity)
      then s
      else record s { waiting = suc s.waiting; started = (r, dispatch r) ∷ s.started }

  -- A call of NotifyDecision, a send that ends in time, the timeout of a dispatcher, and the end of a
  -- send whose dispatcher has given up.
  pub data Step (s : Dispatchers) : Dispatchers → Type 0 where
    notify : (r : DecisionResult) → Step s (notify_decision r s)
    sent : {k : ℕ} → s.waiting ≡ suc k → Step s (record s { waiting = k })
    timed_out :
        {k : ℕ} → s.waiting ≡ suc k → Step s (record s { waiting = k; abandoned = suc s.abandoned })
    sent_late : {k : ℕ} → s.abandoned ≡ suc k → Step s (record s { abandoned = k })

  pub data Reach : Dispatchers → Type 0 where
    start : Reach idle
    next : {s t : Dispatchers} → Reach s → Step s t → Reach t
