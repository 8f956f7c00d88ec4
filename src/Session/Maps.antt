-- ===== src/Session/Maps.antt =====
-- Point clouds and grids that the robot offers as maps.
use robot_remote_control.Base.{
  ℕ, suc, ◌<◌, ◌≡◌, ◌≢◌, true, false, some, ok, length, Returns, Returns-map, arith,
}
use robot_remote_control.Types.{Kind, Protobuf}
use robot_remote_control.Floats.{Floats}
use robot_remote_control.Timer.{start, is_expired}
use robot_remote_control.ControlledRobot.{Robot}
use robot_remote_control.ControlledRobot.Sending.{
  PackedMap, point_cloud_map, grid_map, map_type, set_map, set_packed_map,
}
use robot_remote_control.ControlledRobot.Reachable.{Reachable}
use robot_remote_control.RobotController.{Controller}
use robot_remote_control.RobotController.Requests.{Clock}
use robot_remote_control.RobotController.Asking.{request_map_message}
use robot_remote_control.Session.{robot_env, controller_env}
use robot_remote_control.Session.Requesting.{request_map-set_map}

map_type-small : (kind : PackedMap) → map_type kind < 65536
map_type-small point_cloud_map = omega arith
map_type-small grid_map = omega arith

module _ (f : Floats) (pb : Protobuf f.Float) where
  open pb use {Message, kind_of, serialize, parse, parse-serialize}

  -- A point cloud or a grid that the application of the robot sets as a map is what the application of
  -- the controller gets, packed, by its request for maps of the type, whatever the robot went through
  -- before, if it is not serialized to nothing and the reply comes in time. `pack` gives a message of
  -- the class `Map`.
  pub request_map_message-set_packed_map :
      (pack : Message → Message) (kind : PackedMap) (m : Message) (r : Robot (robot_env f pb))
      (c : Controller (controller_env f pb)) (fuel : ℕ) (clock : Clock)
      → Reachable (robot_env f pb) r
      → kind_of (pack m) ≡ Kind.map_data
      → length (serialize (pack m)) ≢ 0
      → is_expired f (clock 1) (start f c.max_latency (clock 0) c.request_timer) ≡ false
      → Returns (set_packed_map (robot_env f pb) pack kind m r) (λ out.
        (c' : Controller (controller_env f pb)) × (request_map_message
            (controller_env f pb)
            (suc fuel)
            clock
            (map_type kind)
            (record c { command_transport = some (out.1) })
          ≡ some (ok (pack m, c')))
        × (c'.connected ≡ true))
  unfolding set_packed_map request_map_message
  request_map_message-set_packed_map pack kind m r c fuel clock reached of_class something in_time =
      let parsed : parse Kind.map_data (serialize (pack m)) ≡ (true, pack m) =
        rw of_class at (parse-serialize (pack m)) in
      Returns-map _ _ (set_map (robot_env f pb) (serialize (pack m)) (map_type kind) r)
        (request_map-set_map f pb (serialize (pack m)) (map_type kind) r c fuel clock reached
          (map_type-small kind) something in_time)
        λ out (c', e, up). (c', rw (e, parsed), up)
