-- ===== src/Invoicing/Shop/Laws.antt =====
-- The reconciliation of a shop order's lines.
use native.Mathlib.Nat.{mul-div_cancel, mul_comm}
use ushnotice.Common.{
  ap, sym, ◌∙◌, ◌/◌, ◌<◌, inl, inr, ℕ, ◌*◌, ◌+◌, ◌≤◌, ◌≡◌, ◌↔◌, refl, true, false, List, ◌∷◌, arith,
  leb,
}
use ushnotice.Common.Int.{
  ℤ, pos, pos_part, neg_part, abs, is_zero_ℤ, ltb_ℤ, ◌+ℤ◌, ◌-ℤ◌, ◌*ℤ◌, *ℤ_parts, +ℤ_parts, int_laws,
}
use ushnotice.Invoicing.Lines.{Line, millionths, current_sum, absorb, reconcile}
use ushnotice.Invoicing.Booking.Total.{
  takes, millionths-+ℤ, leb-millionths, quantize-millionths, test-millionths,
}
use ushnotice.Invoicing.Booking.Discount.{ℤ-cases}

*ℤ-+ℤ : (a b : ℤ) (k : ℕ) → (a +ℤ b) *ℤ pos k ≡ a *ℤ pos k +ℤ b *ℤ pos k
*ℤ-+ℤ a b k =
    let scaled : (pos_part (a +ℤ b) + neg_part a + neg_part b) * k
        ≡ (neg_part (a +ℤ b) + pos_part a + pos_part b) * k =
      ap (λ x. x * k) (+ℤ_parts a b) in
    omega (int_laws, scaled, *ℤ_parts (a +ℤ b) k, *ℤ_parts a k, *ℤ_parts b k)

mul_cancel : (m k j : ℕ) → 0 < m → k * m ≡ j * m → k ≡ j
mul_cancel m k j positive h =
    sym (mul-div_cancel k positive) ∙ (ap (λ x. x / m) h ∙ mul-div_cancel j positive)

cancel : (e : ℤ) (k : ℕ) → is_zero_ℤ e ≡ false → e *ℤ pos k ≡ e *ℤ pos 1000 → k ≡ 1000
cancel e k nonzero h = elim (ℤ-cases e) [
  | inl (m, s) ↦ mul_cancel (pos_part e) k 1000 (ground arith) (
      let same = ap pos_part h in
      let same_neg = ap neg_part h in
      let none_neg : neg_part e ≡ 0 = ap neg_part s in
      omega (
        int_laws,
        *ℤ_parts e k,
        *ℤ_parts e 1000,
        mul_comm k (pos_part e),
        ap (λ x. x * k) none_neg,
      ))
  | inr (m, s) ↦ mul_cancel (neg_part e) k 1000 (ground arith) (
      let same = ap pos_part h in
      let same_neg = ap neg_part h in
      let none_pos : pos_part e ≡ 0 = ap pos_part s in
      omega (
        int_laws,
        *ℤ_parts e k,
        *ℤ_parts e 1000,
        mul_comm k (neg_part e),
        ap (λ x. x * k) none_pos,
      ))
]

back : (s k : ℤ) → k ≡ s +ℤ k -ℤ s
back s k = omega int_laws

fill : (t s e : ℤ) → t -ℤ s ≡ e → s +ℤ e ≡ t
fill t s e h = rw (← h) (omega int_laws)

refill : (s e k t : ℤ) → t -ℤ s ≡ e → s +ℤ k ≡ t → k ≡ e
refill s e k t h j = back s k ∙ (ap (λ x. x -ℤ s) j ∙ h)

-- What the first line, of quantity k, adds to the sum when it takes the difference.
current_sum-absorb :
    (e : ℤ) (l : Line) (ls : List Line) (k : ℕ)
    → l.quantity ≡ pos k
    → takes e l ≡ true
    → current_sum (absorb (millionths e) (l ∷ ls)) ≡ current_sum (l ∷ ls) +ℤ e *ℤ pos k
unfolding current_sum absorb
current_sum-absorb e l ls k counted able =
    rw
      (
        millionths-+ℤ l.unit_price e,
        leb-millionths (l.unit_price +ℤ e),
        able,
        quantize-millionths (l.unit_price +ℤ e),
        counted,
        *ℤ-+ℤ l.unit_price e k,
      )
      (omega int_laws)

reconcile_near :
    (target e : ℤ) (ls : List Line)
    → ltb_ℤ (pos 0) target ≡ true
    → millionths target -ℤ current_sum ls ≡ millionths e
    → abs e ≤ 10
    → is_zero_ℤ e ≡ false
    → reconcile target ls ≡ absorb (millionths e) ls
unfolding reconcile
reconcile_near target e ls positive gap near nonzero =
    let close_enough : leb (abs e) 10 ≡ true = ground arith in
    rw (gap, test-millionths e, positive, close_enough, nonzero) refl

-- Where the first line takes a difference of at most 0.010 that is a whole number of thousandths
-- and not zero, to a positive target, the lines come to the target exactly if that line, of a
-- quantity of zero or more, is of one unit: the difference is added to the unit price.
pub current_sum-reconcile_iff :
    (target e : ℤ) (l : Line) (ls : List Line) (k : ℕ)
    → ltb_ℤ (pos 0) target ≡ true
    → millionths target -ℤ current_sum (l ∷ ls) ≡ millionths e
    → abs e ≤ 10
    → is_zero_ℤ e ≡ false
    → takes e l ≡ true
    → l.quantity ≡ pos k
    → (current_sum (reconcile target (l ∷ ls)) ≡ millionths target) ↔ (k ≡ 1000)
current_sum-reconcile_iff target e l ls k positive gap near nonzero able counted =
    let s = current_sum (l ∷ ls) in
    rw
      (
        reconcile_near target e (l ∷ ls) positive gap near nonzero,
        current_sum-absorb e l ls k counted able,
      )
      (
        λ h. cancel e k nonzero (refill s (millionths e) (e *ℤ pos k) (millionths target) gap h),
        λ one. rw one (fill (millionths target) s (millionths e) gap),
      )
