-- ===== src/WebUi/Login/Guesses.antt =====
-- The credentials that a request submits, and what the server does with them
-- (internal/webui/login.go, auth.go and ratelimit.go).
use k8s_ai_remediator.Prelude.{
  ℕ, suc, ◌≤◌, ◌≡◌, refl, Bool, true, false, not, ◌&&◌, ◌||◌, Option, none, some, List, [], ◌∷◌,
  Bytes, codes, at, eqb, eqb_sound, arith, if◌then◌else◌, Bool-cases, inl, inr,
}
use k8s_ai_remediator.Result.{Error}
use k8s_ai_remediator.Text.{trim_space, has_prefix}
use k8s_ai_remediator.WebUi.Throttle.{LoginThrottle, allowed, Verdict, fails, succeeds, settle}
use k8s_ai_remediator.WebUi.Login.{
  Response, signed_in, handled, Request, Options, Platform, client_ip, matches, current_user,
  check_basic, submit, handle_login_submit, require_auth, serve, serve_login, is_safe_method,
}

-- the form of a login
abbrev form_credentials : Request → Option Error → Option (Bytes × Bytes)
form_credentials r none =
    some (trim_space (at (codes "username") r.form), at (codes "password") r.form)
form_credentials r (some e) = none

get_only : (m : Bytes) → eqb m (codes "GET") ≡ true → eqb m (codes "POST") ≡ false
get_only m h = rw (eqb_sound m (codes "GET") h) (unfold eqb in refl)

module _ (platform : Platform) (opts : Options) where
  -- the user name and password that the server compares, if it does not refuse the client
  unfoldable pub submitted : Request → ℕ → Option (Bytes × Bytes)
  submitted r now =
      if eqb r.path (codes "/login")
      then (if eqb r.method (codes "POST") then form_credentials r r.form_error else none)
      else if eqb r.path (codes "/logout")
      then none
      else if eqb r.path (codes "/healthz") || has_prefix (codes "/static/") r.path
      then none
      else if not (is_safe_method r.method) && eqb r.fetch_site (codes "cross-site")
      then none
      else if not (eqb (current_user platform opts r now) [])
      then none
      else r.basic_auth

  abbrev pub verdict : Bytes → Bytes × Bytes → Verdict
  verdict ip credentials =
      if matches platform opts credentials.0 credentials.1 then succeeds ip else fails ip

  abbrev pub settled : Bytes → ℕ → Option (Bytes × Bytes) → LoginThrottle → LoginThrottle
  settled ip now none t = t
  settled ip now (some credentials) t =
      if allowed ip now t then settle now (verdict ip credentials) t else t

  pub serve-settled :
      (r : Request) (now : ℕ) (t : LoginThrottle)
      → (serve platform opts r now t).0 ≡ settled (client_ip platform r) now (submitted r now) t
  unfolding serve serve_login handle_login_submit submit require_auth check_basic submitted settle
  serve-settled r now t = ground (arith, get_only r.method)

-- The clock does not go back.
abbrev pub IsTimed : ℕ → List (ℕ × Request) → Type 0
IsTimed now [] = Unit
IsTimed now ((t, r) ∷ rs) = (now ≤ t) × IsTimed t rs

abbrev pub last_time : ℕ → List (ℕ × Request) → ℕ
last_time now [] = now
last_time now ((t, r) ∷ rs) = last_time t rs

module _ (platform : Platform) (opts : Options) (ip : Bytes) where
  -- whether the client submits credentials that are right, or wrong
  abbrev pub submits : Bool → Option (Bytes × Bytes) → Bool
  submits right none = false
  submits right (some c) = if matches platform opts c.0 c.1 then right else not right

  -- the wrong credentials of the client `ip` while it is not locked out
  unfoldable pub charged_guesses : List (ℕ × Request) → LoginThrottle → ℕ
  charged_guesses [] t = 0
  charged_guesses ((now, r) ∷ rs) t =
      let rest = charged_guesses rs (serve platform opts r now t).0 in
      if eqb (client_ip platform r) ip
        && (submits false (submitted platform opts r now) && allowed ip now t)
      then suc rest
      else rest

  -- no request of the client `ip` has the right credentials
  abbrev pub NeverRight : List (ℕ × Request) → Type 0
  NeverRight [] = Unit
  NeverRight ((now, r) ∷ rs) =
      ((client_ip platform r ≡ ip) → submits true (submitted platform opts r now) ≡ false)
      × NeverRight rs

-- an answer that lets the client in
abbrev pub is_let_in : Response → Bool
is_let_in (signed_in cookie expiry next) = true
is_let_in handled = true
is_let_in _ = false

module _ (platform : Platform) (opts : Options) where
  -- The credentials are tried: were they the right ones, the request would be let in, and not by
  -- its cookie.
  abbrev pub is_tried : Request → ℕ → LoginThrottle → Bytes × Bytes → Bool
  is_tried r now t c =
      let guessed : Options = record { username = c.0; password = c.1 } in
      eqb (current_user platform guessed r now) [] && is_let_in (serve platform guessed r now t).1

  abbrev pub tries_wrong : Request → ℕ → LoginThrottle → Option (Bytes × Bytes) → Bool
  tries_wrong r now t none = false
  tries_wrong r now t (some c) = not (matches platform opts c.0 c.1) && is_tried r now t c

  -- the wrong credentials of the client `ip` that are tried
  unfoldable pub wrong_guesses : Bytes → List (ℕ × Request) → LoginThrottle → ℕ
  wrong_guesses ip [] t = 0
  wrong_guesses ip ((now, r) ∷ rs) t =
      let rest = wrong_guesses ip rs (serve platform opts r now t).0 in
      if eqb (client_ip platform r) ip && tries_wrong r now t (submitted platform opts r now)
      then suc rest
      else rest

  pub is_tried-allowed :
      (r : Request) (now : ℕ) (t : LoginThrottle) (c : Bytes × Bytes)
      → submitted platform opts r now ≡ some c
      → is_tried r now t c ≡ true
      → allowed (client_ip platform r) now t ≡ true
  unfolding serve serve_login handle_login_submit submit require_auth check_basic submitted
  is_tried-allowed r now t c given tried =
      elim (Bool-cases (allowed (client_ip platform r) now t)) [
        | inl free ↦ free
        | inr locked ↦ absurd (ground (arith, locked, given, tried, get_only r.method))
      ]
