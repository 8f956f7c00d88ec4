-- ===== src/ControlledRobot/Sending.antt =====
-- src/ControlledRobot/ControlledRobot.hpp and ControlledRobot.cpp: sending telemetry, log messages
-- and permission requests, and storing maps. `updateStatistics` is empty unless the library is built
-- with RRC_STATISTICS, and is left out.
use robot_remote_control.Base.{
  [], ℕ, ◌+◌, ◌-◌, ◌%◌, leb, ◌||◌, Bool, true, false, if◌then◌else◌, none, some, List, ◌++◌, Result,
  ok, fault, Fault, ◌>>=◌, length, size_mod,
}
use robot_remote_control.Base.Int.{ℤ, pos, negsuc, to_int}
use robot_remote_control.Bytes.{Bytes, encode_uint16}
use robot_remote_control.Types.{Kind}
use robot_remote_control.MessageTypes.Telemetry
use robot_remote_control.MessageTypes.Level.{custom}
use robot_remote_control.RingBuffer.Slots.{push_at}
use robot_remote_control.SimpleBuffer.{init_buffer_id}
use robot_remote_control.Transport.{none_flag}
use robot_remote_control.Env.{Env}
use robot_remote_control.ControlledRobot.{Robot}
use robot_remote_control.ControlledRobot.Promises.{promise_at, put_promise, get_future}

-- `bytes - sizeof(uint16_t)` as an `int`, for a `uint32_t` number of bytes: the difference wraps at
-- the width of `size_t`, and its low 32 bits are taken.
unfoldable pub payload_size : ℕ → ℤ
payload_size bytes = to_int ((bytes % 4_294_967_296 + size_mod - 2) % size_mod)

-- The maps that are packed, with their MapMessageType.
pub data PackedMap : Type 0 where
  point_cloud_map grid_map : PackedMap

abbrev pub map_type : PackedMap → ℕ
map_type point_cloud_map = 1
map_type grid_map = 2

module _ (env : Env) where
  open env.protobuf use {
    Message, kind_of, serialize, requestuid, log_level, new_log_message, new_robot_state,
  }
  open env.transport use {State, send}

  -- `telemetryTransport->send(buf)`, and the number of bytes behind the type.
  unfoldable pub send_out : Bytes → State → Robot env → Result (ℤ × Robot env)
  unfolding payload_size
  send_out buf t r =
      let (sent, t') = send buf none_flag t in
      elim sent [
        | none ↦ fault Fault.send_error
        | some bytes ↦ ok (payload_size bytes, record r { telemetry_transport = some t' })
      ]

  -- The latest data is stored for requests. What `pushData` returns is not looked at, and nobody
  -- can add a callback to the robot's buffers.
  unfoldable pub store_telemetry : Message → ℕ → Robot env → Result (Robot env)
  store_telemetry protodata type r =
      push_at (kind_of protodata) r.buffers.slots type protodata true >>= λ out.
      ok (record r { buffers = record (r.buffers) { slots = out.1 } })

  unfoldable pub send_telemetry : Message → ℕ → Bool → Robot env → Result (ℤ × Robot env)
  unfolding send_out store_telemetry
  send_telemetry protodata type request_only r = elim r.telemetry_transport [
    | none ↦ ok (pos 0, r)
    | some t ↦
        let buf = encode_uint16 type ++ serialize protodata in
        store_telemetry protodata type r >>= λ stored.
        if request_only then ok (to_int (length buf), stored) else send_out buf t stored
  ]

  -- Both overloads of `setLogMessage`; a level and a text are put into a message first.
  unfoldable pub set_log_message : Message → Robot env → Result (ℤ × Robot env)
  set_log_message m r =
      if leb (log_level m) r.log_level || leb custom (log_level m)
      then send_telemetry m Telemetry.log_message false r
      else ok (negsuc 0, r)

  unfoldable pub set_log_text : ℕ → Bytes → Robot env → Result (ℤ × Robot env)
  set_log_text lvl text r =
      if leb lvl r.log_level || leb custom lvl
      then send_telemetry (new_log_message lvl text) Telemetry.log_message false r
      else ok (negsuc 0, r)

  unfoldable pub set_robot_state : List Bytes → Robot env → Result (ℤ × Robot env)
  set_robot_state state r = send_telemetry (new_robot_state state) Telemetry.robot_state false r

  -- The robot after `pendingPermissionRequests[uid]`, which makes a promise if there is none.
  abbrev pub promised : Message → Robot env → Robot env
  promised request r = record r {
    pending_permission_requests =
        put_promise (requestuid request)
          (promise_at (requestuid request) r.pending_permission_requests)
          r.pending_permission_requests;
  }

  -- The future is known by its key. Where `get_future` throws, the exception is caught and the
  -- function ends without a return value.
  unfoldable pub request_permission : Message → Robot env → Result (Bytes × Robot env)
  request_permission request r =
      let uid = requestuid request in
      send_telemetry request Telemetry.permission_request false (promised request r) >>= λ sent.
      elim (get_future (promise_at uid sent.1.pending_permission_requests)) [
        | none ↦ fault Fault.no_return
        | some p ↦ ok (
          uid,
          record (sent.1) {
            pending_permission_requests = put_promise uid p sent.1.pending_permission_requests;
          },
        )
      ]

  -- The number of a map is a `uint32_t`, and is cut to a `uint16_t` for `initBufferID` only.
  unfoldable pub set_map : Bytes → ℕ → Robot env → Result (ℤ × Robot env)
  set_map m map_id r = do
    ready ← init_buffer_id Kind.string [] (map_id % 65536) r.map_buffer
    (_, slots, _) ← push_at Kind.string ready map_id m true
    ok (pos 1, record r { map_buffer = slots })

  -- `setPointCloudMap` and `setGridMap`. `pack` is `PackFrom` of the `Any` in a new `Map`.
  unfoldable pub set_packed_map :
      (Message → Message) → PackedMap → Message → Robot env → Result (ℤ × Robot env)
  unfolding set_map
  set_packed_map pack kind m r = set_map (serialize (pack m)) (map_type kind) r
