-- ===== src/Invoicing/Triggers/Gates.antt =====
-- When a booking's trigger calls no service, and when it raises.
use ushnotice.Common.{
  ◌≡◌, refl, String, Bool-cases, true, false, inl, inr, arith, Option, none, some, List, [], ◌∷◌,
  Yields, Yields-bind, Yields-bind_from, ◌⊎◌, ◌≢◌, ◌∙◌,
}
use ushnotice.Json.{Json, Fields, get}
use ushnotice.Invoicing.Lines.{or_dict, Line}
use ushnotice.Invoicing.Booking.{is_voucher, is_loyalty, build_booking_invoice_lines, service_name}
use ushnotice.Invoicing.Accounting.{
  Accounting, Called, answered, refused, Draft, or_gets, attempt, closed, closed_with, post, forget,
}
use ushnotice.Invoicing.Triggers.{
  is_unpaid, is_gated, booking_draft, post_draft, booking_of_voucher, is_redemption,
  trigger_booking_invoice, with_lines,
}

module _ {E : Type 0} (a : Accounting E) where
  -- The client's closing raised, after the calls for a draft.
  pub record ClosingRaised (o : Option (Option Draft)) (before after : E) : Type 0 where
    pub draft : Draft
    pub drafted : o ≡ some (some draft)
    pub raised : a.aclose (attempt a draft before).1 ≡ (refused, after)

  -- What raises has called no service, or is the closing.
  abbrev RaisesEarly {κ} : {A : Type κ} → Option (Option Draft) → E → Option A × E → Type κ
  RaisesEarly o e r = r.0 ≡ none → (r.1 ≡ e) ⊎ ClosingRaised o e r.1

  closed_with_raised :
      (result : Option Json) (c : Called Unit × E)
      → (closed_with a result c).0 ≡ none
      → c ≡ (refused, (closed_with a result c).1)
  unfolding closed_with
  closed_with_raised result (answered _, e) h = cc
  closed_with_raised result (refused, e) h = refl

  closed_raised :
      (r : Option Json × E) → (closed a r).0 ≡ none → a.aclose r.1 ≡ (refused, (closed a r).1)
  unfolding closed
  closed_raised (result, e) h = closed_with_raised result (a.aclose e) h

  post_draft-RaisesEarly : (o : Option (Option Draft)) (e : E) → RaisesEarly o e (post_draft a o e)
  unfolding post_draft post
  post_draft-RaisesEarly none e h = inl refl
  post_draft-RaisesEarly (some none) e h = inl refl
  post_draft-RaisesEarly (some (some draft)) e h =
      inr (record { draft = draft; drafted = refl; raised = closed_raised (attempt a draft e) h })

  of_voucher-RaisesEarly :
      (body : Fields) (v : Option Json) (e : E)
      → RaisesEarly (booking_draft a body) e (booking_of_voucher a body v e)
  unfolding booking_of_voucher
  of_voucher-RaisesEarly body none e h = inl refl
  of_voucher-RaisesEarly body (some voucher) e h =
      elim (Bool-cases (is_redemption a body voucher)) [
        | inl skip ↦ inl (rw (skip, booking_of_voucher) refl)
        | inr go ↦
            rw (go, booking_of_voucher)
              (post_draft-RaisesEarly (booking_draft a body) e (rw (go, booking_of_voucher) at h))
      ]

  forget-RaisesEarly :
      (o : Option (Option Draft)) (e : E) (r : Option (Option Json) × E)
      → RaisesEarly o e r
      → RaisesEarly o e (forget r)
  unfolding forget
  forget-RaisesEarly o e (none, e') h raises = h refl
  forget-RaisesEarly o e (some _, e') h raises = cc

  forget_env : (r : Option (Option Json) × E) → (forget r).1 ≡ r.1
  unfolding forget
  forget_env (none, e) = refl
  forget_env (some _, e) = refl

  gated_unpaid : (body : Fields) → is_unpaid a body ≡ true → is_gated a body ≢ false
  unfolding is_gated
  gated_unpaid body unpaid h = ground (arith, unpaid)

  -- An exception that leaves trigger_booking_invoice comes before any service was called, or is
  -- what the closing of the client of ushanr raised after the calls for the draft of the booking.
  pub trigger_booking_invoice_raised :
      (body : Fields) (e : E)
      → (trigger_booking_invoice a body e).0 ≡ none
      → ((trigger_booking_invoice a body e).1 ≡ e)
        ⊎ ClosingRaised (booking_draft a body) e (trigger_booking_invoice a body e).1
  unfolding trigger_booking_invoice
  trigger_booking_invoice_raised body e h = elim (Bool-cases (is_gated a body)) [
    | inl gated ↦ inl (rw (gated, trigger_booking_invoice) refl)
    | inr open_ ↦
        rw (open_, trigger_booking_invoice)
          (forget-RaisesEarly (booking_draft a body) e _ (of_voucher-RaisesEarly body _ e)
            (rw (open_, trigger_booking_invoice) at h))
  ]

  IsNone : Option Draft → Type 0
  IsNone o = o ≡ none

  voucher_lines :
      (body : Fields)
      → is_loyalty a.python a.accounts body ≡ false
      → is_voucher a.python a.accounts body ≡ true
      → Yields (λ ls. ls ≡ []) (build_booking_invoice_lines a.python a.accounts body)
  unfolding build_booking_invoice_lines
  voucher_lines body no_loyalty voucher =
      Yields-bind (λ ls. ls ≡ []) (service_name a.python a.accounts body) _
        (λ name. rw (no_loyalty, voucher) refl)

  with_lines_empty : (ls : List Line) (draft : Draft) → ls ≡ [] → with_lines a ls draft ≡ none
  unfolding with_lines
  with_lines_empty ls draft h = rw (h, with_lines) refl

  booking_draft-IsNone :
      (body : Fields)
      → Yields (λ ls. ls ≡ []) (build_booking_invoice_lines a.python a.accounts body)
      → Yields IsNone (booking_draft a body)
  unfolding booking_draft IsNone
  booking_draft-IsNone body empty =
      let customer = or_dict (get body "customer_data") in
      let phones : List String = "phone" ∷ "phone_number" ∷ "contact_number" ∷ [] in
      Yields-bind IsNone (or_gets (get body "customer_name") customer ("name" ∷ [])) _ (λ name.
        Yields-bind IsNone (or_gets (get body "customer_phone") customer phones) _ (λ phone.
          Yields-bind IsNone (or_gets (get body "customer_email") customer ("email" ∷ [])) _
            (λ email.
              Yields-bind_from (λ ls. ls ≡ []) IsNone
                (build_booking_invoice_lines a.python a.accounts body) _ empty
                (λ ls none_left. with_lines_empty ls _ none_left))))

  post_draft_quiet :
      (o : Option (Option Draft)) (e : E) → Yields IsNone o → (post_draft a o e).1 ≡ e
  unfolding post_draft IsNone
  post_draft_quiet none e h = refl
  post_draft_quiet (some o) e h = rw (h, post_draft) refl

  of_voucher_quiet :
      (body : Fields) (v : Option Json) (e : E)
      → Yields IsNone (booking_draft a body)
      → (booking_of_voucher a body v e).1 ≡ e
  unfolding booking_of_voucher
  of_voucher_quiet body none e h = refl
  of_voucher_quiet body (some voucher) e h = elim (Bool-cases (is_redemption a body voucher)) [
    | inl skip ↦ rw (skip, booking_of_voucher) refl
    | inr go ↦ rw (go, booking_of_voucher) (post_draft_quiet (booking_draft a body) e h)
  ]

  -- For a booking that is not paid, or that is no loyalty reward and redeems a voucher,
  -- trigger_booking_invoice calls no service.
  pub trigger_booking_invoice_quiet :
      (body : Fields) (e : E)
      → (is_unpaid a body ≡ true)
        ⊎ ((is_loyalty a.python a.accounts body ≡ false)
            × (is_voucher a.python a.accounts body ≡ true))
      → (trigger_booking_invoice a body e).1 ≡ e
  unfolding trigger_booking_invoice
  trigger_booking_invoice_quiet body e why = elim (Bool-cases (is_gated a body)) [
    | inl gated ↦ rw (gated, trigger_booking_invoice) refl
    | inr open_ ↦
        rw (open_, trigger_booking_invoice)
          (elim why [
            | inl unpaid ↦ absurd (gated_unpaid body unpaid open_)
            | inr (no_loyalty, voucher) ↦
                forget_env _
                ∙ of_voucher_quiet body _ e
                    (booking_draft-IsNone body (voucher_lines body no_loyalty voucher))
          ])
  ]
