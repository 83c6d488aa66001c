-- ===== src/Gateway/Events.antt =====
-- The changes of the gateway's tables as a sequence of events, one for each critical section that
-- writes: update_sensor, the section of udp_server_thread, and the second one of
-- send_control_command. The order of a sequence is the order in which the threads take the lock.
pub mod Refinement
pub mod Requests
use smartcity.Prelude.{ℕ, Bool, List, [], ◌∷◌, ◌++◌}
use smartcity.Double.{Double}
use smartcity.Encode.{CString}
use smartcity.Message.{SensorReading, DiscoveryResponse, ControlResponse}
use smartcity.Gateway.{GatewayState, update_sensor, receive_reading, write_sensor}
use smartcity.Gateway.Command.{apply_control}

-- Each with the time at which it happens.
pub data Event : Type 0 where
  announced : Double → DiscoveryResponse → Event
  measured : Double → SensorReading → Event
  commanded : Double → CString → ControlResponse → Event

module _ (alloc : ℕ → Bool) where
  unfoldable pub happen : Event → GatewayState → GatewayState
  unfolding update_sensor receive_reading write_sensor apply_control
  happen (announced now d) state = update_sensor alloc now state d
  happen (measured now r) state = receive_reading alloc now state r
  happen (commanded now id r) state = write_sensor id (apply_control alloc now r) state

  unfoldable pub run : List Event → GatewayState → GatewayState
  unfolding happen
  run [] state = state
  run (e ∷ rest) state = run rest (happen e state)
