-- ===== src/Invoicing/Booking/Discount.antt =====
-- What the discount's loop takes off the lines.
use ushnotice.Common.{
  ℕ, ◌⊎◌, sym, ◌-◌, ◌+◌, ◌≡◌, Bool-cases, refl, ap, ◌∙◌, ◌&&◌, inl, inr, arith, List, [], ◌∷◌, All,
  if◌then◌else◌, leb,
}
use ushnotice.Common.Int.{ℤ, pos, negsuc, pos_part, ◌+ℤ◌, ◌-ℤ◌, ltb_ℤ, leb_ℤ, min_ℤ, int_laws}
use ushnotice.Invoicing.Lines.{Line, with_price}
use ushnotice.Invoicing.Booking.{deduct}

-- the sum of the unit prices
unfoldable pub price_sum : List Line → ℤ
price_sum [] = pos 0
price_sum (l ∷ ls) = l.unit_price +ℤ price_sum ls

-- the sum of those above zero, from which a discount can be taken
unfoldable pub charge : List Line → ℕ
charge [] = 0
charge (l ∷ ls) = pos_part l.unit_price + charge ls

abbrev pub min_ℕ : ℕ → ℕ → ℕ
min_ℕ a b = if leb a b then a else b

pub deduct_zero : (ls : List Line) → deduct (pos 0) ls ≡ ls
unfolding deduct
deduct_zero [] = refl
deduct_zero (l ∷ ls) = ground (arith, deduct_zero ls)

pub ℤ-cases : (a : ℤ) → ((p : ℕ) × (a ≡ pos p)) ⊎ ((p : ℕ) × (a ≡ negsuc p))
ℤ-cases (pos p) = inl (p, refl)
ℤ-cases (negsuc p) = inr (p, refl)

sub-min : (p n : ℕ) → pos n -ℤ min_ℤ (pos p) (pos n) ≡ pos (n - p)
unfolding ◌-ℤ◌
sub-min p n = ground arith

price-min : (p n : ℕ) → pos p -ℤ min_ℤ (pos p) (pos n) ≡ pos (p - n)
unfolding ◌-ℤ◌
price-min p n = ground arith

with_price-same : (l : Line) (p : ℤ) → l.unit_price ≡ p → with_price l p ≡ l
with_price-same l p e = λ i. with_price l (sym e i)

-- The loop at a line with a price of zero or more, and at one below.
deduct-pos :
    (n p : ℕ) (l : Line) (ls : List Line)
    → l.unit_price ≡ pos p
    → deduct (pos n) (l ∷ ls) ≡ with_price l (pos (p - n)) ∷ deduct (pos (n - p)) ls
unfolding deduct
deduct-pos n p l ls e = rw e (rw (sub-min p n, price-min p n) (ground (arith, deduct_zero ls)))

deduct-negsuc :
    (n p : ℕ) (l : Line) (ls : List Line)
    → l.unit_price ≡ negsuc p
    → deduct (pos n) (l ∷ ls) ≡ l ∷ deduct (pos n) ls
unfolding deduct
deduct-negsuc n p l ls e = rw e (ground arith)

take-pos :
    (p n c : ℕ) (a : ℤ)
    → pos (p - n) +ℤ a +ℤ pos (min_ℕ n (p + c)) ≡ pos p +ℤ (a +ℤ pos (min_ℕ (n - p) c))
take-pos p n c a = grind int_laws

take-negsuc :
    (p n c : ℕ) (a : ℤ)
    → negsuc p +ℤ a +ℤ pos (min_ℕ n (0 + c)) ≡ negsuc p +ℤ (a +ℤ pos (min_ℕ n c))
take-negsuc p n c a = grind int_laws

-- The discount is taken off the sum of the unit prices as far as the prices above zero reach.
pub price_sum-deduct :
    (n : ℕ) (ls : List Line)
    → price_sum (deduct (pos n) ls) +ℤ pos (min_ℕ n (charge ls)) ≡ price_sum ls
unfolding price_sum charge deduct
price_sum-deduct n [] = grind int_laws
price_sum-deduct n (l ∷ ls) = elim (ℤ-cases l.unit_price) [
  | inl (p, e) ↦
      rw (deduct-pos n p l ls e, e)
        (take-pos p n (charge ls) (price_sum (deduct (pos (n - p)) ls))
          ∙ ap (λ s. pos p +ℤ s) (price_sum-deduct (n - p) ls))
  | inr (p, e) ↦
      rw (deduct-negsuc n p l ls e, e)
        (take-negsuc p n (charge ls) (price_sum (deduct (pos n) ls))
          ∙ ap (λ s. negsuc p +ℤ s) (price_sum-deduct n ls))
]

-- The loop keeps the prices at zero or more, and the quantities.
pub deduct-All :
    (P : Line → Type 0) (rem : ℤ) (ls : List Line)
    → ((l : Line) (p : ℤ) → P l → P (with_price l p))
    → All P ls
    → All P (deduct rem ls)
unfolding deduct
deduct-All P rem [] keeps h = tt
deduct-All P rem (l ∷ ls) keeps (h, hs) =
    let deduction = min_ℤ l.unit_price rem in
    elim (Bool-cases (ltb_ℤ (pos 0) l.unit_price && ltb_ℤ (pos 0) rem)) [
      | inl taken ↦ rw taken (elim (Bool-cases (leb_ℤ (rem -ℤ deduction) (pos 0))) [
        | inl done ↦ rw done (keeps l (l.unit_price -ℤ deduction) h, hs)
        | inr more ↦
            rw more
              (keeps l (l.unit_price -ℤ deduction) h, deduct-All P (rem -ℤ deduction) ls keeps hs)
      ])
      | inr left ↦ rw left (h, deduct-All P rem ls keeps hs)
    ]
