-- ===== src/Session/Requesting.antt =====
-- Maps, log levels and heartbeats between a controller and the robot that it is connected to.
use robot_remote_control.Base.{
  ℕ, suc, ◌<◌, ◌≤◌, ◌≡◌, ◌≢◌, refl, ◌∙◌, true, false, ◌⊎◌, some, [], ◌∷◌, ◌++◌, ok, length, Returns,
  Returns-map,
}
use robot_remote_control.Base.Int.{negsuc}
use robot_remote_control.Bytes.{Bytes, encode_uint16}
use robot_remote_control.Types.{Protobuf}
use robot_remote_control.Floats.{Floats}
use robot_remote_control.MessageTypes.Control
use robot_remote_control.MessageTypes.Telemetry
use robot_remote_control.MessageTypes.Level.{custom}
use robot_remote_control.Timer.{start, is_expired}
use robot_remote_control.ControlledRobot.{Robot}
use robot_remote_control.ControlledRobot.Sending.{set_map, set_log_message, send_telemetry}
use robot_remote_control.ControlledRobot.Requests.{send_reply}
use robot_remote_control.ControlledRobot.Reachable.{Reachable, Reachable-IsSound}
use robot_remote_control.ControlledRobot.Stored.{map_requested-set_map}
use robot_remote_control.ControlledRobot.Logging.{
  selected, evaluate_request-selected, set_log_message-evaluate_request,
}
use robot_remote_control.RobotController.{Controller}
use robot_remote_control.RobotController.Requests.{Clock, set_log_level}
use robot_remote_control.RobotController.Asking.{answered, request_map}
use robot_remote_control.Session.{
  robot_env, controller_env, send_request-evaluate_request, newest_last,
}
use robot_remote_control.Session.Commanding.{encode_uint16-length}

module _ (f : Floats) (pb : Protobuf f.Float) where
  open f use {Float, geb, seconds, add, nonzero}
  open pb use {Message, kind_of, log_level, new_heart_beat, heartbeatduration}

  abbrev replied : Bytes → Robot (robot_env f pb) → Robot (robot_env f pb)
  replied message r = record r {
    command_transport = record (r.command_transport) {
      outbox = r.command_transport.outbox ++ message ∷ [];
    };
  }

  send_reply_sent :
      (message : Bytes) (r : Robot (robot_env f pb))
      → send_reply (robot_env f pb) message r ≡ ok (replied message r)
  unfolding send_reply
  send_reply_sent message r = refl

  -- A map that the application of the robot sets under a number of 16 bits is what the controller gets
  -- by its request for the number, whatever the robot went through before, if the map is not empty and
  -- the reply comes in time; the controller is connected then.
  pub request_map-set_map :
      (m : Bytes) (map_id : ℕ) (r : Robot (robot_env f pb)) (c : Controller (controller_env f pb))
      (fuel : ℕ) (clock : Clock)
      → Reachable (robot_env f pb) r
      → map_id < 65536
      → length m ≢ 0
      → is_expired f (clock 1) (start f c.max_latency (clock 0) c.request_timer) ≡ false
      → Returns (set_map (robot_env f pb) m map_id r) (λ out.
        (c' : Controller (controller_env f pb)) × (request_map
            (controller_env f pb)
            (suc fuel)
            clock
            map_id
            (record c { command_transport = some (out.1) })
          ≡ some (ok (m, c')))
        × (c'.connected ≡ true))
  unfolding request_map
  request_map-set_map m map_id r c fuel clock reached small something in_time =
      Returns-map _ _ (set_map (robot_env f pb) m map_id r)
        (map_requested-set_map (robot_env f pb) m map_id r
          (Reachable-IsSound (robot_env f pb) r reached).maps small)
        λ out stored. (
          answered (controller_env f pb) clock (replied m out.1) c,
          send_request-evaluate_request f pb fuel clock _ m Control.map_request out.1
              (replied m out.1) c (stored.1 ∙ rw (send_reply_sent m out.1))
              (newest_last out.1.command_transport.outbox m) something in_time,
          refl,
        )

  -- A log level that the controller asks for is acknowledged if the reply comes in time, and the robot
  -- then refuses messages above the level with -1 and no effect, unless they are of a custom level, and
  -- sends all others as telemetry.
  pub set_log_message-set_log_level :
      (level : ℕ) (r : Robot (robot_env f pb)) (c : Controller (controller_env f pb)) (fuel : ℕ)
      (clock : Clock)
      → level < 65536
      → is_expired f (clock 1) (start f c.max_latency (clock 0) c.request_timer) ≡ false
      → (c' : Controller (controller_env f pb)) × (r' : Robot (robot_env f pb)) × (set_log_level
            (controller_env f pb)
            (suc fuel)
            clock
            level
            (record c { command_transport = some r })
          ≡ some (ok (encode_uint16 Control.log_level_select, c')))
        × (c'.command_transport ≡ some r')
        × ((m : Message)
            → (level < log_level m
                → log_level m < custom
                → set_log_message (robot_env f pb) m r' ≡ ok (negsuc 0, r'))
              × ((log_level m ≤ level) ⊎ (custom ≤ log_level m)
                  → set_log_message (robot_env f pb) m r'
                    ≡ send_telemetry (robot_env f pb) m Telemetry.log_message false r'))
  unfolding set_log_level
  set_log_message-set_log_level level r c fuel clock small in_time =
      let reply = encode_uint16 Control.log_level_select in
      let r' = selected (robot_env f pb) level r in
      let handles = evaluate_request-selected (robot_env f pb) level r (length reply) small refl in
      (
        answered (controller_env f pb) clock r' c,
        r',
        send_request-evaluate_request f pb fuel clock _ reply Control.log_level_select r r' c
            handles (newest_last r.command_transport.outbox reply)
            (encode_uint16-length Control.log_level_select) in_time,
        refl,
        rw handles at
            (set_log_message-evaluate_request (robot_env f pb) level r (length reply) small refl),
      )
