-- ===== src/WebUi/Login.antt =====
-- internal/webui/login.go and the handlers of auth.go: who reaches the dashboard. A request's clock
-- is read once; credentials are compared by value, which is what subtle.ConstantTimeCompare answers.
pub mod Escape
pub mod Access
pub mod Guesses
pub mod Limit
use k8s_ai_remediator.Prelude.{
  ℕ, ◌+◌, ◌-◌, ◌/◌, ◌%◌, Bool, true, false, not, ◌&&◌, ◌||◌, Option, none, some, [], ◌∷◌, ◌++◌,
  Bytes, codes, Map, at, eqb, ltb, leb, ◌==◌, if◌then◌else◌,
}
use k8s_ai_remediator.Result.{Error}
use k8s_ai_remediator.Text.{trim_space, has_prefix, contains}
use k8s_ai_remediator.WebUi.Throttle.{LoginThrottle, allowed, record_failure, record_success}
use k8s_ai_remediator.WebUi.Session.{
  Crypto, session_key, sign_session, verify_session, unix, session_ttl,
}

-- what the handlers read of an http.Request; `form_error` is what ParseForm returns
pub record Request : Type 0 where
  pub method : Bytes
  pub path : Bytes
  pub request_uri : Bytes
  pub remote_addr : Bytes
  pub fetch_site : Bytes
  pub accept : Bytes
  pub session_cookie : Option Bytes
  pub basic_auth : Option (Bytes × Bytes)
  pub form_error : Option Error
  pub form : Map Bytes
  pub query : Map Bytes

pub data Response : Type 0 where
  http_error : ℕ → Bytes → Response
  -- 401 with the header WWW-Authenticate
  challenge : Response
  see_other : Bytes → Response
  -- the cookie's value, its expiry and the redirect
  signed_in : Bytes → ℕ → Bytes → Response
  -- the login page with its error and its target
  login_form : Bytes → Bytes → Response
  -- the redirect to the login page that clears the cookie
  signed_out : Response
  -- no handler of this file's
  public : Response
  -- the wrapped handler answers
  handled : Response

pub record Options : Type 0 where
  pub username : Bytes
  pub password : Bytes

-- third-party code: the cryptography, and net.SplitHostPort with an error as `none`
pub record Platform : Type 0 where
  pub crypto : Crypto
  pub split_host_port : Bytes → Option Bytes

-- "0123456789ABCDEF"[d]
abbrev pub hex_upper : ℕ → ℕ
hex_upper d = if ltb d 10 then b'0' + d else b'A' + (d - 10)

abbrev pub is_unreserved : ℕ → Bool
is_unreserved c =
    (leb b'A' c && leb c b'Z')
    || ((leb b'a' c && leb c b'z')
        || ((leb b'0' c && leb c b'9') || (c == b'-' || (c == b'_' || (c == b'.' || c == b'~')))))

abbrev pub escape_byte : ℕ → Bytes
escape_byte c =
    if is_unreserved c then c ∷ [] else b'%' ∷ hex_upper (c / 16) ∷ hex_upper (c % 16) ∷ []

unfoldable pub url_query_escape : Bytes → Bytes
url_query_escape [] = []
url_query_escape (c ∷ s) = escape_byte c ++ url_query_escape s

unfoldable pub sanitise_next : Bytes → Bytes
sanitise_next raw =
    let next = trim_space raw in
    if eqb next []
    then b'/' ∷ []
    else if not (has_prefix (codes "/") next) || has_prefix (codes "//") next
    then b'/' ∷ []
    else next

unfoldable pub is_api_request : Request → Bool
is_api_request r =
    has_prefix (codes "/api/") r.path
    || (contains (codes "application/json") r.accept
        || contains (codes "text/event-stream") r.accept)

unfoldable pub unauthorized : Request → Response
unfolding is_api_request url_query_escape
unauthorized r =
    if is_api_request r
    then challenge
    else see_other (codes "/login?next=" ++ url_query_escape r.request_uri)

-- the methods that requireAuth exempts from its cross-site test
abbrev pub is_safe_method : Bytes → Bool
is_safe_method m = eqb m (codes "GET") || (eqb m (codes "HEAD") || eqb m (codes "OPTIONS"))

unfoldable pub client_ip : Platform → Request → Bytes
client_ip platform r = elim (platform.split_host_port r.remote_addr) [
  | none ↦ r.remote_addr
  | some host ↦ host
]

module _ (platform : Platform) (opts : Options) where
  abbrev pub matches : Bytes → Bytes → Bool
  matches user pass = eqb user opts.username && eqb pass opts.password

  unfoldable pub current_user : Request → ℕ → Bytes
  current_user r now = elim r.session_cookie [
    | none ↦ []
    | some cookie ↦
        verify_session platform.crypto cookie (session_key platform.crypto opts.password) (unix now)
  ]

  unfoldable pub start_session : Bytes → Bytes → ℕ → Response
  start_session user next now =
      let expiry = now + session_ttl in
      let key = session_key platform.crypto opts.password in
      signed_in (sign_session platform.crypto user (unix expiry) key) expiry next

  -- the credentials of the login form
  unfoldable pub submit : Request → ℕ → LoginThrottle → LoginThrottle × Response
  unfolding client_ip start_session sanitise_next url_query_escape
  submit r now t =
      let user = trim_space (at (codes "username") r.form) in
      let pass = at (codes "password") r.form in
      let next = sanitise_next (at (codes "next") r.form) in
      if not (allowed (client_ip platform r) now t)
      then (t, see_other (codes "/login?error=locked&next=" ++ url_query_escape next))
      else if not (matches user pass)
      then (
        record_failure (client_ip platform r) now t,
        see_other (codes "/login?error=invalid&next=" ++ url_query_escape next),
      )
      else (record_success (client_ip platform r) t, start_session user next now)

  unfoldable pub handle_login_submit : Request → ℕ → LoginThrottle → LoginThrottle × Response
  unfolding submit
  handle_login_submit r now t =
      if not (eqb r.method (codes "POST"))
      then (t, http_error 405 (codes "method not allowed"))
      else elim r.form_error [ none ↦ submit r now t | some e ↦ (t, http_error 400 e.text) ]

  -- the credentials of HTTP basic authentication
  unfoldable pub check_basic :
      Request → Bytes → Bytes → ℕ → LoginThrottle → LoginThrottle × Response
  unfolding client_ip unauthorized
  check_basic r user pass now t =
      if not (allowed (client_ip platform r) now t)
      then (t, http_error 429 (codes "too many failed attempts, try again later"))
      else if matches user pass
      then (record_success (client_ip platform r) t, handled)
      else (record_failure (client_ip platform r) now t, unauthorized r)

  unfoldable pub require_auth : Request → ℕ → LoginThrottle → LoginThrottle × Response
  unfolding current_user check_basic unauthorized
  require_auth r now t =
      if not (is_safe_method r.method) && eqb r.fetch_site (codes "cross-site")
      then (t, http_error 403 (codes "cross-site request blocked"))
      else if not (eqb (current_user r now) [])
      then (t, handled)
      else elim r.basic_auth [
        | none ↦ (t, unauthorized r)
        | some (user, pass) ↦ check_basic r user pass now t
      ]

  unfoldable pub handle_login_page : Request → ℕ → Response
  unfolding current_user sanitise_next
  handle_login_page r now =
      if not (eqb (current_user r now) [])
      then see_other (b'/' ∷ [])
      else login_form (at (codes "error") r.query) (sanitise_next (at (codes "next") r.query))

  -- `/login` in `routes`
  unfoldable pub serve_login : Request → ℕ → LoginThrottle → LoginThrottle × Response
  unfolding handle_login_page handle_login_submit
  serve_login r now t =
      if eqb r.method (codes "GET")
      then (t, handle_login_page r now)
      else if eqb r.method (codes "POST")
      then handle_login_submit r now t
      else (t, http_error 405 (codes "method not allowed"))

  -- the mux that `routes` fills: all paths but these four are behind requireAuth
  unfoldable pub serve : Request → ℕ → LoginThrottle → LoginThrottle × Response
  unfolding serve_login require_auth
  serve r now t =
      if eqb r.path (codes "/login")
      then serve_login r now t
      else if eqb r.path (codes "/logout")
      then (t, signed_out)
      else if eqb r.path (codes "/healthz") || has_prefix (codes "/static/") r.path
      then (t, public)
      else require_auth r now t
