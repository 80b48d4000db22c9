-- ===== src/Invoicing/Booking/Total.antt =====
-- The total of a booking's lines after the discount and the reconciliation.
use ushnotice.Common.{
  ℕ, ◌+◌, ◌*◌, ◌≤◌, ◌≡◌, Bool, Bool-cases, refl, ap, ◌∙◌, true, ◌&&◌, inl, inr, arith, not, List,
  [], ◌∷◌, All, any, if◌then◌else◌, leb,
}
use ushnotice.Common.Int.{
  ℤ, pos, negsuc, ◌+ℤ◌, ◌-ℤ◌, ◌*ℤ◌, ltb_ℤ, leb_ℤ, abs, is_zero_ℤ, thousand_parts, int_laws,
  round_half_even,
}
use ushnotice.Invoicing.Lines.{Line, one, quantize, millionths, absorb, reconcile, current_sum}
use ushnotice.Invoicing.Booking.{deduct, net_lines}
use ushnotice.Invoicing.Booking.Discount.{
  price_sum, charge, min_ℕ, price_sum-deduct, deduct_zero, deduct-All,
}

-- a line of one unit
abbrev pub IsUnit : Line → Type 0
IsUnit l = l.quantity ≡ one

round_half_even-exact : (n : ℕ) → round_half_even (n * 1000) 1000 ≡ n
unfolding round_half_even
round_half_even-exact n = ground arith

pub quantize-millionths : (a : ℤ) → quantize (millionths a) ≡ a
unfolding quantize ◌*ℤ◌ ◌-ℤ◌
quantize-millionths (pos n) = ground (arith, round_half_even-exact n)
quantize-millionths (negsuc n) = ground (arith, round_half_even-exact (n + 1))

current_sum-IsUnit : (ls : List Line) → All IsUnit ls → current_sum ls ≡ millionths (price_sum ls)
unfolding current_sum price_sum
current_sum-IsUnit [] h = omega int_laws
current_sum-IsUnit (l ∷ ls) (h, hs) = rw (h, current_sum-IsUnit ls hs) (omega int_laws)

pub millionths-+ℤ : (a b : ℤ) → millionths a +ℤ millionths b ≡ millionths (a +ℤ b)
millionths-+ℤ a b = omega int_laws

-- whether a line takes the difference
abbrev pub takes : ℤ → Line → Bool
takes e l = leb_ℤ (pos 0) (l.unit_price +ℤ e)

pub leb-millionths : (a : ℤ) → leb_ℤ (pos 0) (millionths a) ≡ leb_ℤ (pos 0) a
leb-millionths a = ground (arith, thousand_parts a)

move : (p e s : ℤ) → p +ℤ e +ℤ s ≡ p +ℤ s +ℤ e
move p e s = omega int_laws

push : (p s e : ℤ) → p +ℤ (s +ℤ e) ≡ p +ℤ s +ℤ e
push p s e = omega int_laws

price_sum-absorb :
    (e : ℤ) (ls : List Line)
    → any (takes e) ls ≡ true
    → price_sum (absorb (millionths e) ls) ≡ price_sum ls +ℤ e
unfolding price_sum absorb any
price_sum-absorb e [] h = cc
price_sum-absorb e (l ∷ ls) h =
    rw
      (
        millionths-+ℤ l.unit_price e,
        leb-millionths (l.unit_price +ℤ e),
        quantize-millionths (l.unit_price +ℤ e),
      )
      (elim (Bool-cases (takes e l)) [
        | inl hit ↦ rw hit (move l.unit_price e (price_sum ls))
        | inr miss ↦ rw miss (
            ap (λ s. l.unit_price +ℤ s) (price_sum-absorb e ls (ground arith))
            ∙ push l.unit_price (price_sum ls) e)
      ])

absorb-IsUnit : (diff : ℤ) (ls : List Line) → All IsUnit ls → All IsUnit (absorb diff ls)
unfolding absorb
absorb-IsUnit diff [] h = tt
absorb-IsUnit diff (l ∷ ls) (h, hs) =
    elim (Bool-cases (leb_ℤ (pos 0) (millionths l.unit_price +ℤ diff))) [
      | inl hit ↦ rw hit (h, hs)
      | inr miss ↦ rw miss (h, absorb-IsUnit diff ls hs)
    ]

millionths--ℤ : (a b : ℤ) → millionths a -ℤ millionths b ≡ millionths (a -ℤ b)
millionths--ℤ a b = omega int_laws

-- The test of the reconciliation is on the difference in thousandths.
pub test-millionths :
    (e : ℤ)
    → (leb (abs (millionths e)) 10000 && not (is_zero_ℤ (millionths e)))
      ≡ (leb (abs e) 10 && not (is_zero_ℤ e))
test-millionths e = ground (arith, thousand_parts e)

refill : (target s : ℤ) → s +ℤ (target -ℤ s) ≡ target
refill target s = omega int_laws

close : (target s : ℤ) → is_zero_ℤ (target -ℤ s) ≡ true → s ≡ target
close target s h = grind int_laws

reconcile-IsUnit :
    (target : ℤ) (ls : List Line)
    → All IsUnit ls
    → let e = target -ℤ price_sum ls in
      reconcile target ls ≡ (
        if ltb_ℤ (pos 0) target && (leb (abs e) 10 && not (is_zero_ℤ e))
        then absorb (millionths e) ls
        else ls)
unfolding reconcile
reconcile-IsUnit target ls units =
    let e = target -ℤ price_sum ls in
    rw (current_sum-IsUnit ls units, millionths--ℤ target (price_sum ls), test-millionths e) refl

-- The lines come to the target if their total is at most 0.010 from it, and one of them can take the
-- difference.
pub current_sum-reconcile :
    (target : ℤ) (ls : List Line)
    → All IsUnit ls
    → ltb_ℤ (pos 0) target ≡ true
    → abs (target -ℤ price_sum ls) ≤ 10
    → any (takes (target -ℤ price_sum ls)) ls ≡ true
    → current_sum (reconcile target ls) ≡ millionths target
current_sum-reconcile target ls units positive near able =
    let e = target -ℤ price_sum ls in
    let close_enough : leb (abs e) 10 ≡ true = ground arith in
    rw (reconcile-IsUnit target ls units, positive, close_enough)
      (elim (Bool-cases (is_zero_ℤ e)) [
        | inl same ↦ rw (same, current_sum-IsUnit ls units, close target (price_sum ls) same) refl
        | inr other ↦
            rw
              (
                other,
                current_sum-IsUnit (absorb (millionths e) ls)
                    (absorb-IsUnit (millionths e) ls units),
                price_sum-absorb e ls able,
                refill target (price_sum ls),
              )
              refl
      ])

-- a line with a price of 0.010 or more
abbrev pub is_ample : Line → Bool
is_ample l = leb_ℤ (pos 10) l.unit_price

takes-is_ample :
    (e : ℤ) (ls : List Line) → abs e ≤ 10 → any is_ample ls ≡ true → any (takes e) ls ≡ true
unfolding any ◌+ℤ◌
takes-is_ample e [] near h = h
takes-is_ample e (l ∷ ls) near h = ground (arith, takes-is_ample e ls near)

-- The sum that is left of the prices after a discount of n thousandths.
abbrev pub net_sum : ℕ → List Line → ℤ
net_sum n ls = price_sum ls -ℤ pos (min_ℕ n (charge ls))

net_sum-deduct : (n : ℕ) (ls : List Line) → price_sum (deduct (pos n) ls) ≡ net_sum n ls
net_sum-deduct n ls = rw (← price_sum-deduct n ls) (omega int_laws)

-- The lines of one unit come to the target, after a discount of n, if what the discount leaves is
-- at most 0.010 from it and a line of at least 0.010 is left.
pub current_sum-net_lines :
    (target : ℤ) (n : ℕ) (ls : List Line)
    → All IsUnit ls
    → ltb_ℤ (pos 0) target ≡ true
    → abs (target -ℤ net_sum n ls) ≤ 10
    → any is_ample (deduct (pos n) ls) ≡ true
    → current_sum (net_lines target (pos n) ls) ≡ millionths target
unfolding net_lines
current_sum-net_lines target n ls units positive near ample =
    let taken = deduct (pos n) ls in
    let all_taken : (if ltb_ℤ (pos 0) (pos n) then taken else ls) ≡ taken =
      ground (arith, deduct_zero ls) in
    let left = target -ℤ price_sum taken in
    let near_taken : abs left ≤ 10 = rw (net_sum-deduct n ls) near in
    rw all_taken (
      current_sum-reconcile target taken (deduct-All IsUnit (pos n) ls (λ l p h. h) units) positive
        near_taken (takes-is_ample left taken near_taken ample))
