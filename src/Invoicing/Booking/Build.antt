-- ===== src/Invoicing/Booking/Build.antt =====
-- What the whole builder yields for a booking.
use ushnotice.Common.{
  ℕ, ◌≤◌, ◌≡◌, Bool-cases, refl, ap, true, false, inl, inr, some, List, [], ◌∷◌, ◌++◌, All,
  All-append, any, Yields, Yields-bind, Yields-bind_from, subst,
}
use ushnotice.Common.Int.{ℤ, pos, ◌-ℤ◌, ltb_ℤ, abs}
use mathlib.Core.Option
use ushnotice.Json.{Json, Fields, get}
use ushnotice.Invoicing.Lines.{Line, Python, Accounts, millionths, current_sum}
use ushnotice.Invoicing.Booking.{
  deduct, service_lines, service_name, main_lines, addon_lines, extra_lines, fee_lines, gross_lines,
  priced, arrangement_price, extra_price, is_loyalty, is_voucher, build_booking_invoice_lines,
  standard_lines, dicts, priced_apart, addon_name,
}
use ushnotice.Invoicing.Booking.Total.{IsUnit, is_ample, net_sum, current_sum-net_lines}

module _ (py : Python) (accounts : Accounts) where
  service_lines-IsUnit : (es : List Fields) → Yields (All IsUnit) (service_lines py accounts es)
  unfolding service_lines
  service_lines-IsUnit [] = tt
  service_lines-IsUnit (e ∷ es) = Yields-bind (All IsUnit) (service_name py accounts e) _ (λ name.
      Yields-bind_from (All IsUnit) (All IsUnit) (service_lines py accounts es) _
        (service_lines-IsUnit es) (λ rest units. (refl, units)))

  main_lines-IsUnit :
      (name : Json) (body : Fields) (arrangement : ℤ)
      → Yields (All IsUnit) (main_lines py accounts name body arrangement)
  unfolding main_lines
  main_lines-IsUnit name body arrangement =
      Yields-bind (All IsUnit) (dicts (get body "services")) _ (λ es.
        elim (Bool-cases (priced_apart py accounts es arrangement)) [
          | inl apart ↦ rw apart (service_lines-IsUnit es)
          | inr single ↦ rw single (refl, tt)
        ])

  addon_lines-IsUnit :
      (body : Fields) (price : ℤ) → Yields (All IsUnit) (addon_lines py accounts body price)
  unfolding addon_lines
  addon_lines-IsUnit body price = elim (Bool-cases (ltb_ℤ (pos 0) price)) [
    | inl e ↦ rw e (
        Yields-bind (All IsUnit) (addon_name py accounts (get body "addons")) _
          (λ name. (refl, tt)))
    | inr e ↦ rw e tt
  ]

  extra_lines-IsUnit : (body : Fields) (price : ℤ) → All IsUnit (extra_lines py accounts body price)
  unfolding extra_lines
  extra_lines-IsUnit body price = elim (Bool-cases (ltb_ℤ (pos 0) price)) [
    | inl e ↦ rw e (refl, tt)
    | inr e ↦ rw e tt
  ]

  fee_lines-IsUnit : (price : ℤ) → All IsUnit (fee_lines py accounts price)
  unfolding fee_lines
  fee_lines-IsUnit price = elim (Bool-cases (ltb_ℤ (pos 0) price)) [
    | inl e ↦ rw e (refl, tt)
    | inr e ↦ rw e tt
  ]

  -- Every line before the discount is of one unit.
  gross_lines-IsUnit :
      (name : Json) (body : Fields) → Yields (All IsUnit) (gross_lines py accounts name body)
  unfolding gross_lines
  gross_lines-IsUnit name body =
      Yields-bind (All IsUnit) (arrangement_price py accounts body) _ (λ arrangement.
        Yields-bind_from (All IsUnit) (All IsUnit) (main_lines py accounts name body arrangement) _
          (main_lines-IsUnit name body arrangement)
          (λ services units.
            Yields-bind (All IsUnit) (priced py accounts body "addon_price" "addon_price") _
              (λ price.
                Yields-bind_from (All IsUnit) (All IsUnit) (addon_lines py accounts body price) _
                  (addon_lines-IsUnit body price)
                  (λ addons more.
                    Yields-bind (All IsUnit) (extra_price py accounts body) _ (λ extra.
                      Yields-bind (All IsUnit) (priced py accounts body "fees" "fees") _ (λ fees.
                        let extras = extra_lines py accounts body extra in
                        let fee = fee_lines py accounts fees in
                        All-append IsUnit services (addons ++ (extras ++ fee)) units (
                          All-append IsUnit addons (extras ++ fee) more (
                            All-append IsUnit extras fee (extra_lines-IsUnit body extra)
                              (fee_lines-IsUnit fees)))))))))

  -- The lines of a booking with a total above zero and a discount of zero or more, which is neither
  -- a loyalty reward nor paid with a voucher, come to its total, if what the discount leaves of the
  -- gross lines is at most 0.010 from it and one of the lines is then still at 0.010 or more.
  pub current_sum-build :
      (body : Fields) (name : Json) (gross : List Line) (target : ℤ) (n : ℕ)
      → service_name py accounts body ≡ some name
      → gross_lines py accounts name body ≡ some gross
      → priced py accounts body "total_amount" "total" ≡ some target
      → priced py accounts body "discount" "discount" ≡ some (pos n)
      → is_loyalty py accounts body ≡ false
      → is_voucher py accounts body ≡ false
      → ltb_ℤ (pos 0) target ≡ true
      → abs (target -ℤ net_sum n gross) ≤ 10
      → any is_ample (deduct (pos n) gross) ≡ true
      → Option.map current_sum (build_booking_invoice_lines py accounts body)
        ≡ some (millionths target)
  unfolding build_booking_invoice_lines standard_lines
  current_sum-build body name gross target n named grossed targeted discounted no_loyalty no_voucher
        positive near ample =
      let units : All IsUnit gross =
        subst (Yields (All IsUnit)) grossed (gross_lines-IsUnit name body) in
      rw (named, no_loyalty, no_voucher, grossed, targeted, discounted)
        (ap some (current_sum-net_lines target n gross units positive near ample))
