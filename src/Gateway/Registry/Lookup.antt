-- ===== src/Gateway/Registry/Lookup.antt =====
-- Look-ups by id, and writes to the first device with an id.
use smartcity.Prelude.{
  ◌≡◌, refl, sym, ap, ◌∙◌, true, false, ◌⊎◌, inl, inr, some, none, List, [], ◌∷◌, ◌++◌, Bytes, All,
  str_eq, str_eq→eq, str_eq_refl, if◌then◌else◌, Bool-cases, arith,
}
use mathlib.Core.Option
use smartcity.Encode.{CString}
use smartcity.CString.{is_text}
use smartcity.Gateway.{SensorRecord, has_id, first_with, write_first}

pub is_text→eq : (a : CString) (b : Bytes) → is_text a b ≡ true → a ≡ some b
unfolding is_text
is_text→eq none b h = cc
is_text→eq (some a) b h = ap some (str_eq→eq a b h)

pub has_id→eq : (id : Bytes) (r : SensorRecord) → has_id id r ≡ true → r.info.sensor_id ≡ some id
unfolding has_id
has_id→eq id r h = is_text→eq r.info.sensor_id id h

pub eq→has_id :
    (id s : Bytes) (r : SensorRecord) → r.info.sensor_id ≡ some s → has_id id r ≡ str_eq s id
unfolding has_id is_text
eq→has_id id s r h = rw h

pub none→has_id : (id : Bytes) (r : SensorRecord) → r.info.sensor_id ≡ none → has_id id r ≡ false
unfolding has_id is_text
none→has_id id r h = rw h

str_eq-ne : (s id : Bytes) → str_eq id s ≡ false → str_eq s id ≡ false
str_eq-ne s id h = elim (Bool-cases (str_eq s id)) [
  | inl e ↦ cc (str_eq→eq s id e, str_eq_refl s)
  | inr e ↦ e
]

-- A look-up behind a write that leaves the id of what it writes to.
pub first_with-write_first :
    (s id : Bytes) (f : SensorRecord → SensorRecord) (rs : List SensorRecord)
    → ((r : SensorRecord) → has_id s r ≡ true → (f r).info.sensor_id ≡ some s)
    → first_with id (write_first s f rs)
      ≡ (if str_eq s id then Option.map f (first_with id rs) else first_with id rs)
unfolding first_with write_first
first_with-write_first s id f [] keeps = ground arith
first_with-write_first s id f (r ∷ rest) keeps = elim (Bool-cases (has_id s r)) [
  | inl hit ↦
      rw (hit, eq→has_id id s (f r) (keeps r hit), eq→has_id id s r (has_id→eq s r hit))
        (ground arith)
  | inr miss ↦ elim (Bool-cases (has_id id r)) [
    | inl here ↦
        let other : str_eq s id ≡ false =
          str_eq-ne s id (sym (eq→has_id s id r (has_id→eq id r here)) ∙ miss) in
        rw (miss, here, other)
    | inr there ↦ rw (miss, there) (first_with-write_first s id f rest keeps)
  ]
]

-- A look-up in a table that got one more device.
pub first_with-append :
    (id : Bytes) (rs : List SensorRecord) (r : SensorRecord)
    → first_with id (rs ++ (r ∷ []))
      ≡ elim (first_with id rs) [ some x ↦ some x | none ↦ (if has_id id r then some r else none) ]
unfolding first_with
first_with-append id [] r = refl
first_with-append id (x ∷ rest) r = elim (Bool-cases (has_id id x)) [
  | inl e ↦ rw e
  | inr e ↦ rw e (first_with-append id rest r)
]

-- No device with this id; NULL is the id of none.
abbrev pub Fresh : CString → List SensorRecord → Type 0
Fresh none rs = Unit {0}
Fresh (some s) rs = All (λ r. has_id s r ≡ false) rs

-- No two devices have the same id.
abbrev pub Distinct : List SensorRecord → Type 0
Distinct [] = Unit {0}
Distinct (r ∷ rest) = Fresh r.info.sensor_id rest × Distinct rest

-- What a write may do to the id of the device that it writes to: keep it, or lose it.
abbrev pub KeepsId : Bytes → (SensorRecord → SensorRecord) → Type 0
KeepsId s f =
    (r : SensorRecord)
    → has_id s r ≡ true
    → ((f r).info.sensor_id ≡ some s) ⊎ ((f r).info.sensor_id ≡ none)

absent-write_first :
    (s id : Bytes) (f : SensorRecord → SensorRecord) (rs : List SensorRecord)
    → KeepsId s f
    → All (λ r. has_id id r ≡ false) rs
    → All (λ r. has_id id r ≡ false) (write_first s f rs)
unfolding write_first
absent-write_first s id f [] keeps h = tt
absent-write_first s id f (r ∷ rest) keeps h = elim (Bool-cases (has_id s r)) [
  | inl hit ↦ rw hit (elim (keeps r hit) [
    | inl same ↦ (eq→has_id id s (f r) same ∙ sym (eq→has_id id s r (has_id→eq s r hit)) ∙ h.0, h.1)
    | inr gone ↦ (none→has_id id (f r) gone, h.1)
  ])
  | inr miss ↦ rw miss (h.0, absent-write_first s id f rest keeps h.1)
]

Fresh-write_first :
    (s : Bytes) (id : CString) (f : SensorRecord → SensorRecord) (rs : List SensorRecord)
    → KeepsId s f
    → Fresh id rs
    → Fresh id (write_first s f rs)
Fresh-write_first s none f rs keeps h = tt
Fresh-write_first s (some id) f rs keeps h = absent-write_first s id f rs keeps h

pub Distinct-write_first :
    (s : Bytes) (f : SensorRecord → SensorRecord) (rs : List SensorRecord)
    → KeepsId s f
    → Distinct rs
    → Distinct (write_first s f rs)
unfolding write_first
Distinct-write_first s f [] keeps h = tt
Distinct-write_first s f (r ∷ rest) keeps h = elim (Bool-cases (has_id s r)) [
  | inl hit ↦ rw hit (elim (keeps r hit) [
    | inl same ↦ (rw same (rw (has_id→eq s r hit) at h.0), h.1)
    | inr gone ↦ (rw gone tt, h.1)
  ])
  | inr miss ↦ rw miss (
    Fresh-write_first s r.info.sensor_id f rest keeps h.0,
    Distinct-write_first s f rest keeps h.1,
  )
]

pub first_with-none :
    (id : Bytes) (rs : List SensorRecord)
    → first_with id rs ≡ none
    → All (λ r. has_id id r ≡ false) rs
unfolding first_with
first_with-none id [] h = tt
first_with-none id (r ∷ rest) h = elim (Bool-cases (has_id id r)) [
  | inl e ↦ cc (rw e at h)
  | inr e ↦ (e, first_with-none id rest (rw e at h))
]

absent-append :
    (id : Bytes) (rs : List SensorRecord) (r : SensorRecord)
    → All (λ x. has_id id x ≡ false) rs
    → has_id id r ≡ false
    → All (λ x. has_id id x ≡ false) (rs ++ (r ∷ []))
absent-append id [] r h e = (e, tt)
absent-append id (x ∷ rest) r h e = (h.0, absent-append id rest r h.1 e)

Fresh-append :
    (id : CString) (rs : List SensorRecord) (r : SensorRecord)
    → Fresh id rs
    → ((s : Bytes) → id ≡ some s → has_id s r ≡ false)
    → Fresh id (rs ++ (r ∷ []))
Fresh-append none rs r h other = tt
Fresh-append (some s) rs r h other = absent-append s rs r h (other s refl)

-- A device whose id is NULL, or that of no device of the table, can be added.
pub Distinct-append :
    (rs : List SensorRecord) (r : SensorRecord)
    → Fresh r.info.sensor_id rs
    → Distinct rs
    → Distinct (rs ++ (r ∷ []))
Distinct-append [] r new h =
    (elim r.info.sensor_id as (λ c. Fresh c []) [ none ↦ tt | some s ↦ tt ], tt)
Distinct-append (x ∷ rest) r new h = (
  Fresh-append x.info.sensor_id rest r h.0 (λ s e. unlike r.info.sensor_id refl s e),
  Distinct-append rest r (shorter r.info.sensor_id new) h.1,
)
  where
    shorter : (id : CString) → Fresh id (x ∷ rest) → Fresh id rest
    shorter none f = tt
    shorter (some s) f = f.1

    unlike :
        (id : CString)
        → r.info.sensor_id ≡ id
        → (s : Bytes) → x.info.sensor_id ≡ some s
        → has_id s r ≡ false
    unlike none own s e = none→has_id s r own
    unlike (some t) own s e =
        let first : has_id t x ≡ false = (rw own at new).0 in
        eq→has_id s t r own ∙ str_eq-ne t s (sym (eq→has_id t s x e) ∙ first)
