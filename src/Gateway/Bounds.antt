-- ===== src/Gateway/Bounds.antt =====
-- How many requests the client makes.
use ushnotice.Common.{
  ℕ, zero, suc, ◌+◌, ◌≤◌, ◌≡◌, refl, ◌∙◌, inl, inr, String, Option-cases, Yields, Yields-bind,
  Option, none, some, arith,
}
use ushnotice.Json.{Json, Fields}
use ushnotice.Gateway.{
  Answer, response, timeout, exception, Http, Client, Result, timeout_error, target_of, call, adopt,
  redirected, Url, follow, conclude, attempts, request, build_url,
}

module _ {E : Type 0} (http : Http E) where
  -- A world outside that counts the requests.
  pub record Counts : Type 0 where
    pub count : E → ℕ
    pub count-send :
        (method url : String) (params : Option Fields) (body : Option Json) (e : E)
        → count (http.send method url params body e).1 ≡ count e + 1

  -- A network on which every request times out.
  pub record AlwaysTimesOut : Type 0 where
    pub times_out :
        (method url : String) (params : Option Fields) (body : Option Json) (e : E)
        → (http.send method url params body e).0 ≡ timeout

module _ {E : Type 0} (http : Http E) (method : String) (body : Option Json)
    (counts : Counts http) where
  abbrev count_of : Client E → ℕ
  count_of c = counts.count c.env

  count-call :
      (url : String) (params : Option Fields) (c : Client E)
      → count_of (call http method body url params c).1 ≡ count_of c + 1
  unfolding call
  count-call url params c = counts.count-send method url params body c.env

  count-adopt :
      (old new : Url) (c : Client E) → count_of (adopt http method body old new c) ≡ count_of c
  unfolding adopt
  count-adopt old new c = ground arith

  Uncounted : Client E → String × Client E → Type 0
  Uncounted c r = count_of r.1 ≡ count_of c

  count-redirected :
      (url location : String) (c : Client E)
      → Yields (Uncounted c) (redirected http method body url location c)
  unfolding redirected Uncounted
  count-redirected url location c =
      Yields-bind (Uncounted c) (http.urljoin url location) _ (λ target.
        Yields-bind (Uncounted c) (http.urlsplit url) _ (λ old.
          Yields-bind (Uncounted c) (http.urlsplit target) _ (λ new. count-adopt old new c)))

  -- Each redirect that is followed is one request at most.
  count-follow :
      (left : ℕ) (url : String) (r : Answer × Client E)
      → count_of (follow http method body left url r).client
          + (follow http method body left url r).left
        ≤ count_of r.1 + left
  unfolding follow Uncounted
  count-follow zero url (a, c) = omega arith
  count-follow (suc left) url (timeout, c) = omega arith
  count-follow (suc left) url (exception e, c) = omega arith
  count-follow (suc left) url (response r, c) = elim (Option-cases (target_of r)) [
    | inl end ↦ rw (end, follow) (omega arith)
    | inr (location, e) ↦ elim (Option-cases (redirected http method body url location c)) [
      | inl none_there ↦ rw (e, follow) (rw (none_there, follow) (omega arith))
      | inr ((target, c'), there) ↦
          rw (e, follow)
            (rw (there, follow)
              (omega (
                arith,
                count-follow left target (call http method body target none c'),
                count-call target none c',
                rw there at (count-redirected url location c),
              )))
    ]
  ]

  conclude_bounded :
      (k n : ℕ) (again later : Result × Client E) (c : Client E) (a : Answer)
      → count_of again.1 ≤ k
      → count_of later.1 ≤ k
      → count_of c ≤ k
      → count_of (conclude http method body n again later c a).1 ≤ k
  unfolding conclude
  conclude_bounded k n again later c (response r) h i j = ground arith
  conclude_bounded k n again later c timeout h i j = i
  conclude_bounded k n again later c (exception e) h i j = j

  attempts_bounded :
      (params : Option Fields) (n : ℕ) (last : Option Result) (url : String) (left : ℕ)
      (c : Client E)
      → count_of (attempts http method body params n last url left c).1 ≤ count_of c + n + left
  unfolding attempts
  attempts_bounded params zero last url left c = omega arith
  attempts_bounded params (suc n) last url left c =
      let f = follow http method body left url (call http method body url params c) in
      let spent = count-follow left url (call http method body url params c) in
      let one = count-call url params c in
      conclude_bounded (count_of c + suc n + left) n
        (attempts http method body params n last f.url f.left f.client)
        (attempts http method body params n (some timeout_error) f.url f.left f.client) f.client
        f.answer (omega (arith, spent, one, attempts_bounded params n last f.url f.left f.client))
        (omega
          (arith, spent, one, attempts_bounded params n (some timeout_error) f.url f.left f.client))
        (omega (arith, spent, one))

  -- Where the world outside counts the requests, _request makes at most as many as it has attempts,
  -- and three more for redirects.
  pub request_bounded :
      (service_path path : String) (params : Option Fields) (max_retries : ℕ) (c : Client E)
      → counts.count (request http method body service_path path params max_retries c).1.env
        ≤ counts.count c.env + max_retries + 3
  unfolding request
  request_bounded service_path path params max_retries c =
      attempts_bounded params max_retries none _ 3 c

  module _ (slow : AlwaysTimesOut http) where
    follow_slow :
        (left : ℕ) (url : String) (params : Option Fields) (c : Client E)
        → follow http method body left url (call http method body url params c) ≡ record {
          answer = timeout;
          url = url;
          left = left;
          client = (call http method body url params c).1;
        }
    unfolding follow call
    follow_slow zero url params c = rw (slow.times_out method url params body c.env)
    follow_slow (suc left) url params c = rw (slow.times_out method url params body c.env)

    attempts_slow :
        (params : Option Fields) (n : ℕ) (url : String) (left : ℕ) (c : Client E)
        → ((attempts http method body params n (some timeout_error) url left c).0 ≡ timeout_error)
          × (count_of (attempts http method body params n (some timeout_error) url left c).1
              ≡ count_of c + n)
    unfolding attempts conclude
    attempts_slow params zero url left c = (refl, omega arith)
    attempts_slow params (suc n) url left c = rw (follow_slow left url params c) (
        let (raised, made) =
          attempts_slow params n url left (call http method body url params c).1 in
        (raised, made ∙ omega (arith, count-call url params c)))

    -- On a network on which every request times out, _request with at least one attempt raises
    -- ServiceTimeoutError, after exactly as many requests as it has attempts.
    pub request_slow :
        (service_path path : String) (params : Option Fields) (n : ℕ) (c : Client E)
        → ((request http method body service_path path params (suc n) c).0 ≡ timeout_error)
          × (counts.count (request http method body service_path path params (suc n) c).1.env
              ≡ counts.count c.env + suc n)
    unfolding request attempts conclude
    request_slow service_path path params n c =
        let url = build_url c.base_url service_path path in
        rw (follow_slow 3 url params c) (
          let (raised, made) =
            attempts_slow params n url 3 (call http method body url params c).1 in
          (raised, made ∙ omega (arith, count-call url params c)))
