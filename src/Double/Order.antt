-- ===== src/Double/Order.antt =====
-- The order that `<` is on the values of a `double` that are numbers: one rank for each value, the
-- two zeros at the same.
use smartcity.Prelude.{ℕ, ◌+◌, ◌-◌, ◌^◌, ◌≡◌, ◌∙◌, sym, true, false, ltb, leb, if◌then◌else◌, arith}
use smartcity.Double.{Double, IsDouble, is_nan, lt_double}

pub record IsNumber (x : Double) : Type 0 where
  pub word : IsDouble x
  pub number : is_nan x ≡ false

unfoldable pub rank : Double → ℕ
rank x = if leb (2 ^ 63) x then 2 ^ 64 - x else 2 ^ 63 + x

pub lt_double-rank :
    (a b : Double) → IsNumber a → IsNumber b → lt_double a b ≡ ltb (rank a) (rank b)
unfolding lt_double rank is_nan
lt_double-rank a b ha hb = ground (arith, ha.word, hb.word, ha.number, hb.number)

-- If `a` is not below `b` and `b` not below `c`, then `a` is not below `c`.
pub not-lt_double_trans :
    (a b c : Double)
    → IsNumber a
    → IsNumber b
    → IsNumber c
    → lt_double a b ≡ false
    → lt_double b c ≡ false
    → lt_double a c ≡ false
not-lt_double_trans a b c ha hb hc h k =
    lt_double-rank a c ha hc
    ∙ between (rank a) (rank b) (rank c) (sym (lt_double-rank a b ha hb) ∙ h)
        (sym (lt_double-rank b c hb hc) ∙ k)
  where
    between : (i j k : ℕ) → ltb i j ≡ false → ltb j k ≡ false → ltb i k ≡ false
    between i j k p q = ground arith

pub not-lt_double-of_gt :
    (a b : Double) → IsNumber a → IsNumber b → lt_double a b ≡ true → lt_double b a ≡ false
not-lt_double-of_gt a b ha hb h =
    lt_double-rank b a hb ha ∙ below (rank a) (rank b) (sym (lt_double-rank a b ha hb) ∙ h)
  where
    below : (i j : ℕ) → ltb i j ≡ true → ltb j i ≡ false
    below i j p = ground arith

pub not-lt_double_self : (a : Double) → IsNumber a → lt_double a a ≡ false
not-lt_double_self a ha = lt_double-rank a a ha ha ∙ same (rank a)
  where
    same : (i : ℕ) → ltb i i ≡ false
    same i = ground arith
