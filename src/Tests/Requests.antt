-- ===== src/Tests/Requests.antt =====
-- A gateway that redirects for ever, and one that never answers.
use ushnotice.Common.{ℕ, ◌+◌, ◌≤◌, ◌≡◌, refl, false, some, none}
use ushnotice.Gateway.{
  Response, response, timeout, Http, Client, timeout_error, client_error, request,
}
use ushnotice.Gateway.Bounds.{Counts, AlwaysTimesOut, request_bounded, request_slow}

-- The world outside counts the requests.
abbrev redirecting : Http ℕ
redirecting = record {
  send = λ method url params body n.
      (response (record { status_code = 301; location = some "/b"; json = none }), n + 1);
  is_success = λ status. false;
  urljoin = λ url location. some location;
  urlsplit = λ url. some (record { scheme = "http"; netloc = "gateway"; path = "/" });
}

abbrev silent : Http ℕ
silent = record redirecting { send = λ method url params body n. (timeout, n + 1) }

redirecting-Counts : Counts redirecting
redirecting-Counts = record { count = λ n. n; count-send = λ method url params body n. refl }

silent-Counts : Counts silent
silent-Counts = record { count = λ n. n; count-send = λ method url params body n. refl }

silent-AlwaysTimesOut : AlwaysTimesOut silent
silent-AlwaysTimesOut = record { times_out = λ method url params body n. refl }

abbrev client : Client ℕ
client = record { base_url = "http://gateway"; env = 0 }

-- Three redirects are followed, and the fourth response is an error.
redirected : (request redirecting "POST" none "/auth" "users" none 3 client).0 ≡ client_error 301
unfolding request ushnotice.Gateway.is_redirect
redirected = refl

request_bounded_example :
    redirecting-Counts.count (request redirecting "POST" none "/auth" "users" none 3 client).1.env
    ≤ redirecting-Counts.count 0 + 3 + 3
request_bounded_example =
    request_bounded redirecting "POST" none redirecting-Counts "/auth" "users" none 3 client

request_slow_example :
    ((request silent "GET" none "/auth" "users" none 3 client).0 ≡ timeout_error)
    × (silent-Counts.count (request silent "GET" none "/auth" "users" none 3 client).1.env
        ≡ silent-Counts.count 0 + 3)
request_slow_example =
    request_slow silent "GET" none silent-Counts silent-AlwaysTimesOut "/auth" "users" none 2 client
