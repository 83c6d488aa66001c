-- ===== src/Gateway/Registry/Unique.antt =====
-- No id stands twice in the table of devices, after any change and whatever the allocator answers.
use smartcity.Gateway.Registry.{announced, update_known, update_new}
use smartcity.Gateway.Registry.Lookup.{
  Fresh, Distinct, KeepsId, has_id→eq, first_with-none, Distinct-append, Distinct-write_first,
}
use smartcity.Prelude.{
  ℕ, ◌+◌, ◌*◌, ◌%◌, ◌≡◌, refl, ◌∙◌, Bool, not, ◌⊎◌, inl, inr, some, none, [], ◌∷◌, ◌++◌, Bytes,
  length, Bool-cases, Option-cases,
}
use smartcity.Buffer.{size_mod}
use smartcity.Double.{Double}
use smartcity.Encode.{CString}
use smartcity.CString.{smart_dup_cstring}
use smartcity.Message.{SensorReading, DiscoveryResponse}
use smartcity.Gateway.{
  SensorRecord, GatewayState, find_sensor, write_sensor, copy_info, copy_failed, append_sensor_copy,
  update_sensor, append_reading_copy, append_copy, receive_reading, sensor_record_size,
}

Fresh-of_missing :
    (state : GatewayState) (id : CString) → find_sensor state id ≡ none → Fresh id state.sensors
unfolding find_sensor
Fresh-of_missing state none h = tt
Fresh-of_missing state (some s) h = first_with-none s state.sensors h

-- A copy keeps a text or loses it.
dup_cases :
    (alloc : ℕ → Bool) (c : CString)
    → (smart_dup_cstring alloc c ≡ c) ⊎ (smart_dup_cstring alloc c ≡ none)
unfolding smart_dup_cstring
dup_cases alloc none = inl refl
dup_cases alloc (some s) = elim (Bool-cases (alloc (length s + 1))) [
  | inl e ↦ inl (rw e)
  | inr e ↦ inr (rw e)
]

Fresh-of_announced :
    (alloc : ℕ → Bool) (now : Double) (state : GatewayState) (d : DiscoveryResponse)
    → Fresh d.sensor_id state.sensors
    → Fresh (announced alloc now state d).info.sensor_id state.sensors
unfolding announced copy_info
Fresh-of_announced alloc now state d h = elim (dup_cases alloc d.sensor_id) [
  | inl same ↦ rw same h
  | inr gone ↦ rw gone tt
]

append_cases :
    (alloc : ℕ → Bool) (now : Double) (state : GatewayState) (d : DiscoveryResponse)
    → ((append_sensor_copy alloc now state d).0 ≡ state)
      ⊎ ((append_sensor_copy alloc now state d).0
          ≡ record state { sensors = state.sensors ++ (announced alloc now state d ∷ []) })
unfolding append_sensor_copy announced
append_cases alloc now state d =
    elim (Bool-cases (not (alloc ((length state.sensors + 1) * sensor_record_size % size_mod)))) [
      | inl e ↦ inl (rw e)
      | inr e ↦ elim (Bool-cases (copy_failed alloc d (copy_info alloc d))) [
        | inl e' ↦ inl (rw (e, e'))
        | inr e' ↦ inr (rw (e, e'))
      ]
    ]

announced-KeepsId :
    (alloc : ℕ → Bool) (now : Double) (state : GatewayState) (d : DiscoveryResponse) (s : Bytes)
    → d.sensor_id ≡ some s
    → KeepsId s (λ _. announced alloc now state d)
unfolding announced copy_info
announced-KeepsId alloc now state d s own _ _ = elim (dup_cases alloc d.sensor_id) [
  | inl same ↦ inl (same ∙ own)
  | inr gone ↦ inr gone
]

-- Whatever the allocator answers, an announcement leaves no id in the table twice where none was
-- twice before.
pub update_sensor-Distinct :
    (alloc : ℕ → Bool) (now : Double) (state : GatewayState) (d : DiscoveryResponse)
    → Distinct state.sensors
    → Distinct (update_sensor alloc now state d).sensors
update_sensor-Distinct alloc now state d h = elim (Option-cases (find_sensor state d.sensor_id)) [
  | inl missing ↦ rw (update_new alloc now state d missing) (added missing)
  | inr (r, found) ↦ rw (update_known alloc now state d found) (written d.sensor_id refl)
]
  where
    added :
        find_sensor state d.sensor_id ≡ none
        → Distinct (append_sensor_copy alloc now state d).0.sensors
    added missing = elim (append_cases alloc now state d) [
      | inl e ↦ rw e h
      | inr e ↦ rw e (
          Distinct-append state.sensors _
            (Fresh-of_announced alloc now state d (Fresh-of_missing state d.sensor_id missing)) h)
    ]

    written :
        (own : CString)
        → d.sensor_id ≡ own
        → Distinct (write_sensor own (λ _. announced alloc now state d) state).sensors
    written none own = unfold write_sensor in h
    written (some s) own =
        unfold write_sensor in
        Distinct-write_first s _ state.sensors (announced-KeepsId alloc now state d s own) h

append_reading_copy-sensors :
    (alloc : ℕ → Bool) (state : GatewayState) (reading : SensorReading)
    → (append_reading_copy alloc state reading).0.sensors ≡ state.sensors
unfolding append_reading_copy
append_reading_copy-sensors alloc state reading =
    elim (Option-cases (append_copy alloc state.readings reading)) [
      | inl e ↦ rw (e, append_reading_copy)
      | inr (items, e) ↦ rw (e, append_reading_copy)
    ]

pub write_sensor-Distinct :
    (id : CString) (f : SensorRecord → SensorRecord) (state : GatewayState)
    → ((r : SensorRecord) → (f r).info.sensor_id ≡ r.info.sensor_id)
    → Distinct state.sensors
    → Distinct (write_sensor id f state).sensors
unfolding write_sensor
write_sensor-Distinct none f state keeps h = h
write_sensor-Distinct (some s) f state keeps h =
    Distinct-write_first s f state.sensors (λ r hit. inl (keeps r ∙ has_id→eq s r hit)) h

-- Whatever the allocator answers, a reading leaves no id in the table twice where none was twice
-- before.
pub receive_reading-Distinct :
    (alloc : ℕ → Bool) (now : Double) (state : GatewayState) (reading : SensorReading)
    → Distinct state.sensors
    → Distinct (receive_reading alloc now state reading).sensors
unfolding receive_reading
receive_reading-Distinct alloc now state reading h =
    write_sensor-Distinct reading.sensor_id _ (append_reading_copy alloc state reading).0
      (λ r. refl) (rw append_reading_copy-sensors h)
