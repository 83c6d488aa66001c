-- ===== src/Gateway/Readings/Highest.antt =====
-- The highest reading.
use mathlib.Core.List.{Mem, Mem-prop, mem-cons, mem-cons_self, mem-cons_of_mem}
use mathlib.Core.Logic.Or
use smartcity.Prelude.{
  ◌≡◌, ◌≢◌, refl, ap, ◌∙◌, true, false, some, none, List, [], ◌∷◌, All, Bool-cases, inl, inr,
}
use smartcity.Double.{is_nan, lt_double}
use smartcity.Double.Order.{IsNumber, not-lt_double_trans, not-lt_double-of_gt, not-lt_double_self}
use smartcity.Message.{SensorReading}
use smartcity.Gateway.{GatewayState}
use smartcity.Gateway.Queries.{max_loop, compute_max_locked}

abbrev pub IsMeasured : SensorReading → Type 0
IsMeasured r = IsNumber r.value

-- `b` is one of `rs`, and none of them is above it.
abbrev pub IsHighest : SensorReading → List SensorReading → Type 0
IsHighest b rs = Mem b rs × All (λ (r : SensorReading). lt_double b.value r.value ≡ false) rs

not_above :
    (a b : SensorReading) (rs : List SensorReading)
    → IsMeasured a
    → IsMeasured b
    → All IsMeasured rs
    → lt_double a.value b.value ≡ false
    → All (λ (r : SensorReading). lt_double b.value r.value ≡ false) rs
    → All (λ (r : SensorReading). lt_double a.value r.value ≡ false) rs
not_above a b [] ha hb hs h hr = tt
not_above a b (r ∷ rest) ha hb hs h hr = (
  not-lt_double_trans a.value b.value r.value ha hb hs.0 h hr.0,
  not_above a b rest ha hb hs.1 h hr.1,
)

max_loop-IsHighest :
    (rs : List SensorReading) (b : SensorReading)
    → IsMeasured b
    → All IsMeasured rs
    → (m : SensorReading) × (max_loop rs (some b) ≡ some m) × IsMeasured m × IsHighest m (b ∷ rs)
unfolding max_loop
max_loop-IsHighest [] b hb hs = (b, refl, hb, (mem-cons_self, (not-lt_double_self b.value hb, tt)))
max_loop-IsHighest (r ∷ rest) b hb hs = elim (Bool-cases (lt_double b.value r.value)) [
  | inl above ↦
      let (m, e, hm, (isin, (top, low))) = max_loop-IsHighest rest r hs.0 hs.1 in
      let over =
        not-lt_double_trans m.value r.value b.value hm hs.0 hb top
          (not-lt_double-of_gt b.value r.value hb hs.0 above) in
      (m, rw above e, hm, (mem-cons_of_mem b isin, (over, (top, low))))
  | inr below ↦
      let (m, e, hm, (isin, (top, low))) = max_loop-IsHighest rest b hb hs.1 in
      let over = not-lt_double_trans m.value b.value r.value hm hb hs.0 top below in
      let isin' : Mem m (b ∷ r ∷ rest) =
        Or.elim Mem-prop (mem-cons.0 isin) (λ e. mem-cons.1 (Or.inl e))
          (λ t. mem-cons_of_mem b (mem-cons_of_mem r t)) in
      (m, rw below e, hm, (isin', (top, (over, low))))
]

-- Where every reading is a number and there is one at all, the answer is one of the readings, and no
-- reading is above it.
pub compute_max_locked-IsHighest :
    (state : GatewayState)
    → All IsMeasured state.readings
    → state.readings ≢ []
    → (m : SensorReading) × (compute_max_locked state ≡ some m) × IsHighest m state.readings
unfolding compute_max_locked
compute_max_locked-IsHighest state h some_reading = pick state.readings h some_reading
  where
    pick :
        (rs : List SensorReading)
        → All IsMeasured rs
        → rs ≢ []
        → (m : SensorReading) × (max_loop rs none ≡ some m) × IsHighest m rs
    pick [] hs ne = absurd (ne refl)
    pick (r ∷ rest) hs ne =
        let (m, e, _, highest) = max_loop-IsHighest rest r hs.0 hs.1 in (m, e, highest)

max_loop-nan :
    (rs : List SensorReading) (b : SensorReading)
    → is_nan b.value ≡ true
    → max_loop rs (some b) ≡ some b
unfolding max_loop
max_loop-nan [] b h = refl
max_loop-nan (r ∷ rest) b h =
    let never : lt_double b.value r.value ≡ false = unfold lt_double in rw h in
    rw never (max_loop-nan rest b h)

-- Where the first reading is no number it is the answer, whatever readings come after it.
pub compute_max_locked-nan :
    (state : GatewayState) (r : SensorReading) (rest : List SensorReading)
    → state.readings ≡ r ∷ rest
    → is_nan r.value ≡ true
    → compute_max_locked state ≡ some r
unfolding compute_max_locked
compute_max_locked-nan state r rest e h = ap (λ rs. max_loop rs none) e ∙ max_loop-nan rest r h
