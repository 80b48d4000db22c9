-- ===== src/Providers/Kwtsms/Laws.antt =====
-- Which numbers the provider refuses, and which refusals end the attempts.
use Prim.Native.Char.{Char}
use ushnotice.Common.{
  ℕ, zero, suc, ◌≡◌, refl, String, ◌==◌, not, Bool-cases, true, false, inl, inr, any, arith, eq_iff,
  keep_chars, all_chars-keep_chars, all_chars-drop_chars,
}
use ushnotice.Json.{str, obj, Fields, get}
use ushnotice.Domain.Enums.{sms}
use ushnotice.Domain.Models.{Notification}
use ushnotice.Domain.Values.{NotificationRequest}
use ushnotice.Store.{World}
use ushnotice.Store.Attempts
use ushnotice.Notify.Services.{Services, delivered}
use ushnotice.Notify.Attempting.{call, attempt_loop}
use ushnotice.Providers.Kwtsms.{
  Provider, responded, among, non_retryable_codes, retryable_codes, normalise_phone, is_number,
  is_retryable_code, result_of, read, refused, get_or, is_ok, send_sms, payload,
}

-- The two lists of codes have none in common.
apart :
    (t : String) → among retryable_codes (str t) ≡ true → among non_retryable_codes (str t) ≡ false
unfolding any
apart t h = elim (Bool-cases ("ERR013" == t)) [
  | inl e ↦ rw (← (eq_iff "ERR013" t).0 e) refl
  | inr e ↦ elim (Bool-cases ("ERR028" == t)) [
    | inl f ↦ rw (← (eq_iff "ERR028" t).0 f) refl
    | inr f ↦ cc (rw (e, f) at h)
  ]
]

module _ {E : Type 0} (p : Provider E) where
  -- A code may be retried exactly if it is not one of the codes that are not to be.
  pub is_retryable_code-not :
      (t : String) → is_retryable_code p (str t) ≡ not (among non_retryable_codes (str t))
  unfolding is_retryable_code
  is_retryable_code-not t = ground (arith, apart t)

  -- Where every decimal digit counts as a digit, only a number without digits is refused.
  pub is_number-normalise_phone :
      (to : String)
      → ((c : Char) → p.is_decimal c ≡ true → p.is_digit c ≡ true)
      → is_number p (normalise_phone p to) ≡ not (normalise_phone p to == "")
  unfolding is_number normalise_phone
  is_number-normalise_phone to digits =
      let kept = all_chars-keep_chars p.is_decimal p.is_digit to digits in
      ground (arith, kept, all_chars-drop_chars p.is_digit 2 (keep_chars p.is_decimal to) kept)

module _ {E : Type 0} (s : Services E) (req : NotificationRequest) (provider body : String) where
  -- A refusal for good ends the attempts, however many are left.
  pub attempt_loop_refused :
      (left number : ℕ) (n : Notification) (w : World E)
      → let r = (call s req provider body (Attempts.create n.id provider number w).1).0 in
        r.success ≡ false
        → r.is_retryable ≡ false
        → attempt_loop s req provider body left number n w
          ≡ attempt_loop s req provider body zero number n w
  unfolding attempt_loop
  attempt_loop_refused zero number n w failed final = refl
  attempt_loop_refused (suc left) number n w failed final =
      rw (failed, attempt_loop) (rw (final, attempt_loop) refl)

module _ {E : Type 0} (p : Provider E) where
  send_sms_answer :
      (to body : String) (fields : Fields) (t : String) (e : E)
      → is_number p (normalise_phone p to) ≡ true
      → (p.post (payload p (normalise_phone p to) body "") e).0 ≡ responded (obj fields)
      → is_ok p (get fields "result") ≡ false
      → get_or p fields "code" (str "UNKNOWN") ≡ str t
      → (send_sms p to body "" e).0 ≡ refused p fields (str t)
  unfolding send_sms result_of read
  send_sms_answer to body fields t e valid answer not_ok code =
      rw (valid, send_sms) (rw (answer, result_of) (rw (not_ok, read) (rw code refl)))

  refused_final :
      (fields : Fields) (t : String)
      → among non_retryable_codes (str t) ≡ true
      → ((refused p fields (str t)).success ≡ false)
        × ((refused p fields (str t)).is_retryable ≡ false)
  unfolding refused
  refused_final fields t final = (refl, ground (arith, is_retryable_code-not p t, final))

  -- Where SMS go out by KwtSmsProvider, and it answers an attempt for a valid number with one of
  -- the codes that are not to be retried, that attempt is the only one, however many are left.
  pub attempt_loop_final_code :
      (s : Services E) (req : NotificationRequest) (provider body : String) (left number : ℕ)
      (n : Notification) (w : World E) (fields : Fields) (t : String)
      → ((to subject text : String) (e : E)
          → s.deliver sms to subject text e
            ≡ (delivered (send_sms p to text "" e).0, (send_sms p to text "" e).1))
      → req.recipient.channel ≡ sms
      → is_number p (normalise_phone p req.recipient.address) ≡ true
      → (p.post (payload p (normalise_phone p req.recipient.address) body "") w.env).0
        ≡ responded (obj fields)
      → is_ok p (get fields "result") ≡ false
      → get_or p fields "code" (str "UNKNOWN") ≡ str t
      → among non_retryable_codes (str t) ≡ true
      → attempt_loop s req provider body left number n w
        ≡ attempt_loop s req provider body zero number n w
  unfolding call Attempts.create
  attempt_loop_final_code s req provider body left number n w fields t sends by_sms valid answer
        not_ok code final =
      let to = req.recipient.address in
      let answered = send_sms_answer to body fields t w.env valid answer not_ok code in
      let result : (call s req provider body (Attempts.create n.id provider number w).1).0
          ≡ refused p fields (str t) =
        rw (by_sms, call) (rw (sends to "" body w.env) answered) in
      let (failed, for_good) = refused_final fields t final in
      attempt_loop_refused s req provider body left number n w (rw result failed)
        (rw result for_good)
