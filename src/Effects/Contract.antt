-- ===== src/Effects/Contract.antt =====
-- Contracts between a program and its environment: which calls it may make, what it may take the
-- answers to be, and what it returns. One rule for each way to build a program.
use k8s_ai_remediator.Prelude.{◌≡◌, refl, Bool, true, false, Option, none, some, if◌then◌else◌}
use k8s_ai_remediator.Result.{Error, Result, ok, err}
use k8s_ai_remediator.Effects.{
  Call, Answer, Prog, ret, call, ◌>>=◌, on_ok, on_none, update_deployment, delete_pod, decide,
  record_decision, notify_decision,
}

-- what is known of the answers to each call
abbrev pub Given : Type 1
Given = (c : Call) → Answer c → Type 0

pub record Contract : Type 1 where
  pub permits : Call → Type 0
  pub grants : Given

-- Every call that `m` can make is permitted and every result satisfies `Q`, whatever the answers
-- are that the contract grants.
pub data Meets {A : Type 0} (k : Contract) (Q : A → Type 0) : Prog A → Type 0 where
  done : (a : A) → Q a → Meets k Q (ret a)
  next :
      (c : Call) (f : Answer c → Prog A)
      → k.permits c
      → ((r : Answer c) → k.grants c r → Meets k Q (f r))
      → Meets k Q (call c f)

abbrev pub Anything {ℓ} : {A : Type ℓ} → A → Type 0
Anything a = Unit

module _ {A B : Type 0} {k : Contract} {Q : A → Type 0} {R : B → Type 0} where
  pub Meets-bind :
      (m : Prog A) (f : A → Prog B)
      → Meets k Q m
      → ((a : A) → Q a → Meets k R (f a))
      → Meets k R (m >>= f)
  Meets-bind m f (done a q) hf = hf a q
  Meets-bind m f (next c g p h) hf = next c _ p (λ r gr. Meets-bind (g r) f (h r gr) hf)

module _ {A B : Type 0} {k : Contract} {R : B → Type 0} where
  pub Meets-on_result :
      (r : Result A) (f : A → Prog B) (g : Error → Prog B)
      → ((a : A) → r ≡ ok a → Meets k R (f a))
      → ((e : Error) → r ≡ err e → Meets k R (g e))
      → Meets k R (on_ok r f g)
  Meets-on_result (ok a) f g hf hg = hf a refl
  Meets-on_result (err e) f g hf hg = hg e refl

  pub Meets-on_ok :
      (r : Result A) (f : A → Prog B) (g : Error → Prog B)
      → ((a : A) → r ≡ ok a → Meets k R (f a))
      → ((e : Error) → Meets k R (g e))
      → Meets k R (on_ok r f g)
  Meets-on_ok r f g hf hg = Meets-on_result r f g hf (λ e is_e. hg e)

  pub Meets-on_none :
      (o : Option A) (m : Prog B) (f : A → Prog B)
      → (o ≡ none → Meets k R m)
      → ((a : A) → o ≡ some a → Meets k R (f a))
      → Meets k R (on_none o m f)
  Meets-on_none none m f hm hf = hm refl
  Meets-on_none (some a) m f hm hf = hf a refl

module _ {A : Type 0} {k : Contract} {Q : A → Type 0} where
  pub Meets-if :
      (b : Bool) (m n : Prog A)
      → (b ≡ true → Meets k Q m)
      → (b ≡ false → Meets k Q n)
      → Meets k Q (if b then m else n)
  Meets-if true m n hm hn = hm refl
  Meets-if false m n hm hn = hn refl

  pub Meets-weaken :
      (m : Prog A) (R : A → Type 0) → ((a : A) → Q a → R a) → Meets k Q m → Meets k R m
  Meets-weaken m R w (done a q) = done a (w a q)
  Meets-weaken m R w (next c f p h) = next c f p (λ r gr. Meets-weaken (f r) R w (h r gr))

-- a call that changes the cluster, asks the model or reports
unfoldable pub is_guarded : Call → Bool
is_guarded (update_deployment ns dep) = true
is_guarded (delete_pod ns name grace) = true
is_guarded (decide prompt) = true
is_guarded (record_decision r) = true
is_guarded (notify_decision r) = true
is_guarded _ = false

-- The contract puts no condition on the other calls.
abbrev pub AllowsReads : Contract → Type 0
AllowsReads k = (c : Call) → is_guarded c ≡ false → k.permits c

-- A program that meets a contract meets every weaker one.
pub Meets-loosen :
    {A : Type 0} {k l : Contract} {Q : A → Type 0} (m : Prog A)
    → ((c : Call) → k.permits c → l.permits c)
    → ((c : Call) (r : Answer c) → l.grants c r → k.grants c r)
    → Meets k Q m
    → Meets l Q m
Meets-loosen m p g (done a q) = done a q
Meets-loosen m p g (next c f allowed h) =
    next c f (p c allowed) (λ r gr. Meets-loosen (f r) p g (h r (g c r gr)))
