-- ===== src/Gateway.antt =====
-- `GatewayHttpClient._request` of app/integrations/http_client.py. The headers, the log and the
-- pauses between the attempts are left out.
pub mod Bounds
use ushnotice.Common.{
  ℕ, zero, suc, ltb, nat_eq, String, ◌<>◌, ◌==◌, ◌&&◌, ◌||◌, not, starts_with, Bool, true, false,
  Option, none, some, ◌>>=◌, if◌then◌else◌,
}
use ushnotice.Json.{Json, Fields}

-- A response: its status, the header "location", and `json()`, none where that raises.
pub record Response : Type 0 where
  pub status_code : ℕ
  pub location : Option String
  pub json : Option Json

-- How a call of httpx ends: a response, a `TimeoutException`, or another exception.
pub data Answer : Type 0 where
  response : Response → Answer
  timeout : Answer
  exception : String → Answer

-- the parts of a URL that `urlsplit` gives and the client reads
pub record Url : Type 0 where
  pub scheme : String
  pub netloc : String
  pub path : String

-- What the client takes from httpx and from urllib: the request has a method, a URL, the parameters
-- and the body.
pub record Http (E : Type 0) : Type 0 where
  pub send : String → String → Option Fields → Option Json → E → Answer × E
  -- `raise_for_status` raises nothing
  pub is_success : ℕ → Bool
  -- none stands for a ValueError
  pub urljoin : String → String → Option String
  pub urlsplit : String → Option Url

pub record Client (E : Type 0) : Type 0 where
  pub base_url : String
  pub env : E

-- How `_request` ends: the body, a `ServiceClientError` for a status, a `ServiceTimeoutError`,
-- another exception, or the `ServiceClientError` where nothing was tried.
pub data Result : Type 0 where
  ok : Json → Result
  client_error : ℕ → Result
  timeout_error : Result
  other : String → Result
  not_tried : Result

unfoldable pub is_retryable : ℕ → Bool
is_retryable n = nat_eq n 429 || nat_eq n 500 || nat_eq n 502 || nat_eq n 503 || nat_eq n 504

unfoldable pub is_redirect : ℕ → Bool
is_redirect n = nat_eq n 301 || nat_eq n 302 || nat_eq n 307 || nat_eq n 308

-- `_build_url`, on a base and a path of the service without a slash at their ends
unfoldable pub build_url : String → String → String → String
build_url base_url service_path path =
    base_url <> service_path <> (if starts_with path "/" then path else "/" <> path)

-- the header where it is given and not empty
unfoldable pub target_of : Response → Option String
target_of r = elim r.location [
  | none ↦ none
  | some l ↦ if is_redirect r.status_code && not (l == "") then some l else none
]

-- what is left to be raised after the last attempt
unfoldable pub last_error : Option Result → Result
last_error none = not_tried
last_error (some e) = e

-- Where the loop over the redirects stands: the last answer, the URL, the redirects that are left,
-- and the client.
pub record Followed (E : Type 0) : Type 0 where
  pub answer : Answer
  pub url : String
  pub left : ℕ
  pub client : Client E

module _ {E : Type 0} (http : Http E) (method : String) (body : Option Json) where
  unfoldable pub call : String → Option Fields → Client E → Answer × Client E
  call url params c =
      let (a, env) = http.send method url params body c.env in (a, record c { env = env })

  -- the base URL after a redirect that changes the scheme or the host only
  unfoldable pub adopt : Url → Url → Client E → Client E
  adopt old new c =
      if old.path == new.path && not (old.scheme == new.scheme && old.netloc == new.netloc)
      then record c { base_url = new.scheme <> "://" <> new.netloc }
      else c

  -- where a redirect leads, with the client that has adopted it
  unfoldable pub redirected : String → String → Client E → Option (String × Client E)
  unfolding adopt
  redirected url location c = do
    target ← http.urljoin url location
    old ← http.urlsplit url
    new ← http.urlsplit target
    some (target, adopt old new c)

  -- The loop over the redirects; method and body are kept. A location that is no URL raises.
  unfoldable pub follow : ℕ → String → Answer × Client E → Followed E
  unfolding redirected call target_of
  follow zero url (a, c) = record { answer = a; url = url; left = 0; client = c }
  follow (suc left) url (timeout, c) = record {
    answer = timeout;
    url = url;
    left = suc left;
    client = c;
  }
  follow (suc left) url (exception e, c) = record {
    answer = exception e;
    url = url;
    left = suc left;
    client = c;
  }
  follow (suc left) url (response r, c) = elim (target_of r) [
    | none ↦ record { answer = response r; url = url; left = suc left; client = c }
    | some location ↦ elim (redirected url location c) [
      | none ↦ record { answer = exception "ValueError"; url = url; left = left; client = c }
      | some (target, c') ↦ follow left target (call target none c')
    ]
  ]

  -- The response that is not tried again: its body, or what is raised.
  unfoldable pub read : Response → Result
  read r =
      if http.is_success r.status_code
      then (elim r.json [ some v ↦ ok v | none ↦ other "JSONDecodeError" ])
      else client_error r.status_code

  -- After an attempt, with `n` attempts left: what comes of trying again, of trying again after a
  -- timeout, and the client as it is.
  unfoldable pub conclude :
      ℕ → Result × Client E → Result × Client E → Client E → Answer → Result × Client E
  unfolding is_retryable read
  conclude n again later c (response r) =
      if is_retryable r.status_code && ltb 0 n then again else (read r, c)
  conclude n again later c timeout = later
  conclude n again later c (exception e) = (other e, c)

  -- The loop over the attempts, of which `n` are left, after the exception `last`.
  unfoldable pub attempts :
      Option Fields → ℕ → Option Result → String → ℕ → Client E → Result × Client E
  unfolding last_error conclude follow call
  attempts params zero last url left c = (last_error last, c)
  attempts params (suc n) last url left c =
      let f = follow left url (call url params c) in
      let again = attempts params n last f.url f.left f.client in
      let later = attempts params n (some timeout_error) f.url f.left f.client in
      conclude n again later f.client f.answer

  -- `_request`: at most three redirects altogether
  unfoldable pub request : String → String → Option Fields → ℕ → Client E → Result × Client E
  unfolding build_url attempts
  request service_path path params max_retries c =
      attempts params max_retries none (build_url c.base_url service_path path) 3 c
