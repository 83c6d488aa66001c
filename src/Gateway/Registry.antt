-- ===== src/Gateway/Registry.antt =====
-- The table of devices: no id twice, and what a look-up finds after each change.
pub mod Lookup
pub mod Unique
use Lookup.{is_text→eq, first_with-write_first, first_with-append}
use smartcity.Prelude.{
  ℕ, ◌+◌, ◌*◌, ◌%◌, ◌≤◌, ◌≡◌, refl, sym, ap, ◌∙◌, Bool, true, false, ◌⊎◌, inl, inr, some, none,
  Option, List, [], ◌∷◌, ◌++◌, Bytes, All, length, str_eq, str_eq→eq, str_eq_refl, if◌then◌else◌,
  Bool-cases, Option-cases, arith,
}
use mathlib.Core.Option
use smartcity.Buffer.{size_mod}
use smartcity.Double.{Double}
use smartcity.Encode.{CString}
use smartcity.CString.{is_text, smart_dup_cstring, smart_dup_cstring-granted, lost_self}
use smartcity.Message.{SensorInfo, SensorReading, DiscoveryResponse}
use smartcity.Gateway.{
  SensorRecord, GatewayState, initial_state, has_id, first_with, write_first, find_sensor,
  write_sensor, copy_info, copy_failed, append_sensor_copy, update_sensor,
  update_last_seen_for_reading, append_reading_copy, append_copy, receive_reading,
  sensor_record_size,
}

pub copy_info-granted :
    (alloc : ℕ → Bool) (d : SensorInfo) → ((n : ℕ) → alloc n ≡ true) → copy_info alloc d ≡ d
unfolding copy_info
copy_info-granted alloc d granted =
    let same = λ (c : CString). smart_dup_cstring-granted alloc c granted in
    rw (same d.sensor_id, same d.sensor_ip, same d.state_text)

pub copy_failed_self : (alloc : ℕ → Bool) (d : SensorInfo) → copy_failed alloc d d ≡ false
unfolding copy_failed
copy_failed_self alloc d = rw (lost_self d.sensor_id, lost_self d.sensor_ip, lost_self d.state_text)

module _ (alloc : ℕ → Bool) (now : Double) (state : GatewayState) (d : DiscoveryResponse) where
  unfoldable pub announced : SensorRecord
  announced = record { info = copy_info alloc d; last_seen = now }

  pub update_known :
      {r : SensorRecord}
      → find_sensor state d.sensor_id ≡ some r
      → update_sensor alloc now state d ≡ write_sensor d.sensor_id (λ _. announced) state
  unfolding update_sensor announced
  update_known e = rw (e, update_sensor)

  pub update_new :
      find_sensor state d.sensor_id ≡ none
      → update_sensor alloc now state d ≡ (append_sensor_copy alloc now state d).0
  unfolding update_sensor
  update_new e = rw (e, update_sensor)

  announced-granted : ((n : ℕ) → alloc n ≡ true) → announced ≡ record { info = d; last_seen = now }
  unfolding announced
  announced-granted granted = rw (copy_info-granted alloc d granted)

  nothing_lost : ((n : ℕ) → alloc n ≡ true) → copy_failed alloc d (copy_info alloc d) ≡ false
  nothing_lost granted = rw (copy_info-granted alloc d granted) (copy_failed_self alloc d)

  append_granted :
      ((n : ℕ) → alloc n ≡ true)
      → (append_sensor_copy alloc now state d).0
        ≡ record state { sensors = state.sensors ++ (announced ∷ []) }
  unfolding append_sensor_copy announced
  append_granted granted = rw (granted, nothing_lost granted)

append_sensor_copy-readings :
    (alloc : ℕ → Bool) (now : Double) (state : GatewayState) (d : DiscoveryResponse)
    → (append_sensor_copy alloc now state d).0.readings ≡ state.readings
unfolding append_sensor_copy
append_sensor_copy-readings alloc now state d = ground arith

pub update_sensor-readings :
    (alloc : ℕ → Bool) (now : Double) (state : GatewayState) (d : DiscoveryResponse)
    → (update_sensor alloc now state d).readings ≡ state.readings
update_sensor-readings alloc now state d = elim (Option-cases (find_sensor state d.sensor_id)) [
  | inl missing ↦
      rw (update_new alloc now state d missing) (append_sensor_copy-readings alloc now state d)
  | inr (r, found) ↦ rw (update_known alloc now state d found) (unwritten d.sensor_id)
]
  where
    unwritten :
        (own : CString)
        → (write_sensor own (λ _. announced alloc now state d) state).readings ≡ state.readings
    unwritten none = unfold write_sensor in refl
    unwritten (some s) = unfold write_sensor in refl

-- With an allocator that refuses nothing a device that announces itself is found as it announced
-- itself and with the present time, and every other id is found as before.
pub find_sensor-update_sensor :
    (alloc : ℕ → Bool) (now : Double) (state : GatewayState) (d : DiscoveryResponse) (id : Bytes)
    → ((n : ℕ) → alloc n ≡ true)
    → find_sensor (update_sensor alloc now state d) (some id) ≡ (
        if is_text d.sensor_id id
        then some (record { info = d; last_seen = now })
        else find_sensor state (some id))
unfolding find_sensor
find_sensor-update_sensor alloc now state d id granted =
    elim (Option-cases (find_sensor state d.sensor_id)) [
      | inl missing ↦
          rw
            (
              update_new alloc now state d missing,
              append_granted alloc now state d granted,
              announced-granted alloc now state d granted,
            )
            (first_with-append id state.sensors fresh ∙ added missing)
      | inr (r, found) ↦ rw (update_known alloc now state d found) (written d.sensor_id refl found)
    ]
  where
    fresh : SensorRecord
    fresh = record { info = d; last_seen = now }

    added :
        find_sensor state d.sensor_id ≡ none
        → elim (first_with id state.sensors) [
          | some x ↦ some x
          | none ↦ (if has_id id fresh then some fresh else none)
        ]
          ≡ (if is_text d.sensor_id id then some fresh else first_with id state.sensors)
    added missing = elim (Bool-cases (is_text d.sensor_id id)) [
      | inl hit ↦
          let own : d.sensor_id ≡ some id = is_text→eq d.sensor_id id hit in
          let empty : first_with id state.sensors ≡ none =
            sym (ap (find_sensor state) own) ∙ missing in
          let hit' : has_id id fresh ≡ true = unfold has_id in hit in rw (empty, hit')
      | inr miss ↦ elim (Option-cases (first_with id state.sensors)) [
        | inl e ↦ let miss' : has_id id fresh ≡ false = unfold has_id in miss in rw (e, miss')
        | inr (x, e) ↦ rw (e, miss)
      ]
    ]

    overwritten :
        (s : Bytes) {r : SensorRecord}
        → first_with s state.sensors ≡ some r
        → (if str_eq s id
            then Option.map (λ _. fresh) (first_with id state.sensors)
            else first_with id state.sensors)
          ≡ (if str_eq s id then some fresh else first_with id state.sensors)
    overwritten s found = elim (Bool-cases (str_eq s id)) [
      | inl e ↦
          let same : first_with id state.sensors ≡ some _ =
            ap (λ t. first_with t state.sensors) (sym (str_eq→eq s id e)) ∙ found in
          rw (e, same)
      | inr e ↦ rw e
    ]

    written :
        (own : CString) {r : SensorRecord}
        → d.sensor_id ≡ own
        → find_sensor state own ≡ some r
        → first_with id (write_sensor own (λ _. announced alloc now state d) state).sensors
          ≡ (if is_text d.sensor_id id then some fresh else first_with id state.sensors)
    written none own found = cc
    written (some s) {r} own found =
        let named : is_text d.sensor_id id ≡ str_eq s id =
          ap (λ c. is_text c id) own ∙ (unfold is_text in refl) in
        let changed : first_with id (write_sensor (some s) (λ _. fresh) state).sensors ≡ (
            if str_eq s id
            then Option.map (λ _. fresh) (first_with id state.sensors)
            else first_with id state.sensors) =
          unfold write_sensor in
          first_with-write_first s id (λ _. fresh) state.sensors (λ _ _. own) in
        rw (named, announced-granted alloc now state d granted) (changed ∙ overwritten s found)
