-- ===== src/WebUi/Login/Access.antt =====
-- Who reaches a protected handler (requireAuth of internal/webui/auth.go).
use k8s_ai_remediator.Prelude.{
  ℕ, ◌≡◌, ◌≢◌, ◌⊎◌, inl, inr, refl, true, false, some, [], Bytes, codes, eqb, eqb_iff, eqb_sound,
  arith, Option-cases,
}
use k8s_ai_remediator.WebUi.Throttle.{LoginThrottle, allowed}
use k8s_ai_remediator.WebUi.Session.{session_key, unix, verify_session}
use k8s_ai_remediator.WebUi.Session.Cookies.{IsSigned, verify_session-IsSigned}
use k8s_ai_remediator.WebUi.Login.{
  Request, handled, Options, Platform, client_ip, current_user, check_basic, require_auth,
  unauthorized, is_safe_method,
}

module _ (platform : Platform) (opts : Options) (r : Request) (now : ℕ) where
  -- a cookie that is signed under the password's key and has not expired
  pub record HasSession : Type 0 where
    pub cookie : Bytes
    pub user : Bytes
    pub sent : r.session_cookie ≡ some cookie
    pub named : user ≢ []
    pub signed :
        IsSigned platform.crypto cookie (session_key platform.crypto opts.password) user (unix now)

  current_user-HasSession : current_user platform opts r now ≢ [] → HasSession
  unfolding current_user
  current_user-HasSession h = elim (Option-cases r.session_cookie) [
    | inl missing ↦ absurd (h (ground (arith, missing)))
    | inr (cookie, sent) ↦ record {
      cookie = cookie;
      user = verify_session platform.crypto cookie key (unix now);
      sent = sent;
      named = λ empty. h (rw sent empty);
      signed =
          verify_session-IsSigned platform.crypto cookie key _ (unix now) refl
            (λ empty. h (rw sent empty));
    }
  ]
    where
      key : Bytes
      key = session_key platform.crypto opts.password

  -- the right credentials, from a client that may try them
  abbrev pub HasPassword : LoginThrottle → Type 0
  HasPassword t =
      (r.basic_auth ≡ some (opts.username, opts.password))
      × (allowed (client_ip platform r) now t ≡ true)

  unauthorized-ne-handled : unauthorized r ≢ handled
  unfolding unauthorized
  unauthorized-ne-handled = ground arith

  check_basic-handled :
      (user pass : Bytes) (t : LoginThrottle)
      → (check_basic platform opts r user pass now t).1 ≡ handled
      → (user ≡ opts.username)
        × (pass ≡ opts.password)
        × (allowed (client_ip platform r) now t ≡ true)
  unfolding check_basic
  check_basic-handled user pass t h =
      ground
        (arith, unauthorized-ne-handled, eqb_sound user opts.username, eqb_sound pass opts.password)

  -- A protected handler runs only for a request that is not a cross-site write, and that carries
  -- either a signed session cookie which has not expired, or the user name and the password while
  -- its client is not locked out.
  pub require_auth-handled :
      (t : LoginThrottle)
      → (require_auth platform opts r now t).1 ≡ handled
      → ((is_safe_method r.method ≡ true) ⊎ (eqb r.fetch_site (codes "cross-site") ≡ false))
        × (HasSession ⊎ HasPassword t)
  unfolding require_auth
  require_auth-handled t h = (same_site, admitted)
    where
      cookie : eqb (current_user platform opts r now) [] ≡ false → HasSession
      cookie differs =
          current_user-HasSession
            (λ empty. ground (arith, differs, empty, eqb_iff (current_user platform opts r now) []))

      password :
          (user pass : Bytes)
          → r.basic_auth ≡ some (user, pass)
          → (check_basic platform opts r user pass now t).1 ≡ handled
          → HasPassword t
      password user pass sent ok =
          let (u, p, free) = check_basic-handled user pass t ok in (rw (← u, ← p) sent, free)

      same_site : (is_safe_method r.method ≡ true) ⊎ (eqb r.fetch_site (codes "cross-site") ≡ false)
      same_site = ground arith

      admitted : HasSession ⊎ HasPassword t
      admitted = elim (Option-cases r.basic_auth) [
        | inl missing ↦ ground (arith, cookie, missing, unauthorized-ne-handled)
        | inr (credentials, sent) ↦
            ground (arith, cookie, sent, password credentials.0 credentials.1 sent)
      ]
