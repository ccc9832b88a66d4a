-- ===== src/Effects/Spending.antt =====
-- How often a program asks the model: a supply of calls that a program uses up, and what it leaves.
use mathlib.Core.Bool.{true≢false}
use k8s_ai_remediator.Prelude.{
  ◌≡◌, ◌≢◌, refl, arith, ℕ, zero, suc, ◌≤◌, Bool, true, false, Bytes, subst, sym, ap, ◌∙◌,
  if◌then◌else◌,
}
use k8s_ai_remediator.Result.{Error, Result, ok, err}
use k8s_ai_remediator.Effects.{Call, Answer, decide, Prog, ret, call, ◌>>=◌, on_ok}
use k8s_ai_remediator.Effects.Contract.{Contract, Meets, done, next}

-- With a supply of `n` calls of the model, every run of the program stays within it and leaves at
-- least `left a` where it returns `a`.
pub data Spends {A : Type 0} (left : A → ℕ) : ℕ → Prog A → Type 0 where
  stop : (n : ℕ) (a : A) → left a ≤ n → Spends left n (ret a)
  pass :
      (n : ℕ) (c : Call) (f : Answer c → Prog A)
      → ((p : Bytes) → c ≢ decide p)
      → ((r : Answer c) → Spends left n (f r))
      → Spends left n (call c f)
  spend :
      (n : ℕ) (p : Bytes) (f : Answer (decide p) → Prog A)
      → ((r : Answer (decide p)) → Spends left n (f r))
      → Spends left (suc n) (call (decide p) f)

unfoldable pub is_ask : Call → Bool
is_ask (decide p) = true
is_ask _ = false

pub unasked : (c : Call) → is_ask c ≡ false → (p : Bytes) → c ≢ decide p
unfolding is_ask
unasked c h p e = true≢false (ap is_ask (sym e) ∙ h)

module _ {A : Type 0} {left : A → ℕ} where
  pub Spends-more : {n : ℕ} (m : ℕ) (p : Prog A) → Spends left n p → n ≤ m → Spends left m p
  Spends-more m p (stop n a l) h = stop m a (omega (arith, h, l))
  Spends-more m p (pass n c f o s) h = pass m c f o (λ r. Spends-more m (f r) (s r) h)
  Spends-more zero p (spend n q f s) h = ground (arith, h)
  Spends-more (suc m) p (spend n q f s) h =
      spend m q f (λ r. Spends-more m (f r) (s r) (omega (arith, h)))

  -- a call that is not one of the model's
  pub Spends-pass :
      (n : ℕ) (c : Call) (f : Answer c → Prog A)
      → is_ask c ≡ false
      → ((r : Answer c) → Spends left n (f r))
      → Spends left n (call c f)
  Spends-pass n c f h s = pass n c f (unasked c h) s

  pub Spends-if :
      {n : ℕ} (b : Bool) (p q : Prog A)
      → (b ≡ true → Spends left n p)
      → (b ≡ false → Spends left n q)
      → Spends left n (if b then p else q)
  Spends-if true p q hp hq = hp refl
  Spends-if false p q hp hq = hq refl

module _ {A B : Type 0} {left : A → ℕ} {rest : B → ℕ} where
  pub Spends-bind :
      {n : ℕ} (p : Prog A) (f : A → Prog B)
      → Spends left n p
      → ((a : A) → Spends rest (left a) (f a))
      → Spends rest n (p >>= f)
  Spends-bind p f (stop n a l) hf = Spends-more n (f a) (hf a) l
  Spends-bind p f (pass n c g o s) hf = pass n c _ o (λ r. Spends-bind (g r) f (s r) hf)
  Spends-bind p f (spend n q g s) hf = spend n q _ (λ r. Spends-bind (g r) f (s r) hf)

module _ {A B : Type 0} {left : B → ℕ} where
  pub Spends-on_ok :
      {n : ℕ} (r : Result A) (f : A → Prog B) (g : Error → Prog B)
      → ((a : A) → Spends left n (f a))
      → ((e : Error) → Spends left n (g e))
      → Spends left n (on_ok r f g)
  Spends-on_ok (ok a) f g hf hg = hf a
  Spends-on_ok (err e) f g hf hg = hg e

-- A program that may not ask the model leaves the whole supply.
pub Spends-of-Meets :
    {A : Type 0} {k : Contract} {Q : A → Type 0} (n : ℕ) (p : Prog A)
    → ((q : Bytes) → ¬ k.permits (decide q))
    → ((c : Call) (r : Answer c) → k.grants c r)
    → Meets k Q p
    → Spends (λ _. n) n p
Spends-of-Meets n p never granted (done a q) = stop n a (omega arith)
Spends-of-Meets {k = k} n p never granted (next c f allowed h) =
    pass n c f (λ q e. never q (subst k.permits e allowed))
      (λ r. Spends-of-Meets n (f r) never granted (h r (granted c r)))
