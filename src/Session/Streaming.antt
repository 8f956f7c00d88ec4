-- ===== src/Session/Streaming.antt =====
-- Telemetry from the setters of a robot to the getters of a controller. The two use one transport, each
-- with its own end of the channel.
use robot_remote_control.Base.{
  ℕ, ◌≡◌, ◌<◌, ◌≤◌, refl, ◌∙◌, ap, false, none, some, List, [], ◌∷◌, ◌++◌, map, Result, ok, ◌>>=◌,
  length, lookup, take, All, Returns, Returns-bind, Returns-map, Returns_value,
}
use mathlib.Core.Path.{subst}
use robot_remote_control.Bytes.{Bytes, encode_uint16}
use robot_remote_control.Types.Table.{lookup_below}
use robot_remote_control.Transport.{none_flag}
use robot_remote_control.RingBuffer.Queue
use robot_remote_control.Env.{Env}
use robot_remote_control.ControlledRobot.{Robot}
use robot_remote_control.ControlledRobot.Sending.{send_telemetry, store_telemetry}
use robot_remote_control.ControlledRobot.Setters.{
  Setter, setter_type, setter_class, setter_request_only, set_telemetry, registered_class,
}
use robot_remote_control.ControlledRobot.Reachable.{Reachable, sent, Reachable-IsSound}
use robot_remote_control.ControlledRobot.Stored.{store_telemetry-Holds, send_out_ok}
use robot_remote_control.RobotController.{Controller, controller_types}
use robot_remote_control.RobotController.Reading.{Reader, reader_type, reader_class, read_telemetry}
use robot_remote_control.RobotController.Update.{receive_telemetry}
use robot_remote_control.RobotController.Delivered.{Pending, get_telemetry-Pending}
use robot_remote_control.RobotController.Stream.{Yields, receive_telemetry-Pending}
use robot_remote_control.RobotController.Reachable.{Reached, Reached-IsSound, Sized-Queued}

module _ (env : Env) where
  open env.protobuf use {Message, kind_of, serialize}
  open env.transport use {State, send}

  -- The strings are sent one after the other, and without an exception.
  abbrev pub Sends : State → List Bytes → State → Type 0
  Sends t [] last = t ≡ last
  Sends t (buf ∷ bufs) last =
      ((bytes : ℕ) × ((send buf none_flag t).0 ≡ some bytes))
      × Sends (send buf none_flag t).1 bufs last

  -- What the setter sends of a message.
  abbrev pub framed : Setter → Message → Bytes
  framed s m = encode_uint16 (setter_type s) ++ serialize m

  -- The application of the robot calls the setter for one message after the other.
  unfoldable pub set_each : Setter → List Message → Robot env → Result (Robot env)
  set_each s [] r = ok r
  set_each s (m ∷ ms) r = set_telemetry env s m r >>= λ out. set_each s ms out.1

  -- The robot can go on, and its end of the channel is as given.
  abbrev pub At : State → Robot env → Type 0
  At t r = Reachable env r × (r.telemetry_transport ≡ some t)

  sent_on :
      (s : Setter) (m : Message) (r : Robot env) (t : State) (bytes : ℕ)
      → At t r
      → setter_request_only s ≡ false
      → kind_of m ≡ setter_class s
      → (send (framed s m) none_flag t).0 ≡ some bytes
      → Returns
          (set_telemetry env s m r)
          (λ out. out.1.telemetry_transport ≡ some (send (framed s m) none_flag t).1)
  unfolding set_telemetry send_telemetry
  sent_on s m r t bytes (reached, connected) streams of_class sends =
      let listed = registered_class s in
      rw (connected, send_telemetry, streams)
        (Returns-bind _ _ (store_telemetry env m (setter_type s) r) _
          (store_telemetry-Holds env m (setter_type s) r
            (rw of_class ((Reachable-IsSound env r reached).telemetry _ _ listed)))
          λ stored done. rw (send_out_ok env (framed s m) t bytes stored sends) refl)

  set_telemetry-At :
      (s : Setter) (m : Message) (r : Robot env) (t : State) (bytes : ℕ)
      → At t r
      → setter_request_only s ≡ false
      → kind_of m ≡ setter_class s
      → (send (framed s m) none_flag t).0 ≡ some bytes
      → Returns (set_telemetry env s m r) (λ out. At (send (framed s m) none_flag t).1 out.1)
  unfolding set_telemetry
  set_telemetry-At s m r t bytes here streams of_class sends =
      let (out, e, moved) =
        Returns_value _ (set_telemetry env s m r)
          (sent_on s m r t bytes here streams of_class sends) in
      rw e (
        sent m (setter_type s) (setter_request_only s) r out here.0
            (rw of_class (registered_class s)) e,
        moved,
      )

  set_each-At :
      (s : Setter) (ms : List Message) (r : Robot env) (t last : State)
      → At t r
      → setter_request_only s ≡ false
      → All (λ m. kind_of m ≡ setter_class s) ms
      → Sends t (map (framed s) ms) last
      → Returns (set_each s ms r) (At last)
  unfolding set_each
  set_each-At s [] r t last here streams of_class ends = (here.0, here.1 ∙ ap some ends)
  set_each-At s (m ∷ ms) r t last here streams of_class ((bytes, sends), more) =
      Returns-bind (λ out. At (send (framed s m) none_flag t).1 out.1) _ (set_telemetry env s m r) _
        (set_telemetry-At s m r t bytes here streams of_class.0 sends)
        (λ out moved. set_each-At s ms out.1 _ last moved streams of_class.1 more)

  -- Reading gives these messages, and then nothing.
  abbrev pub Gives : Reader → List Message → Controller env → Type 0
  Gives g [] c = Returns (read_telemetry env g c) (λ got. got.0 ≡ none)
  Gives g (m ∷ ms) c = Returns (read_telemetry env g c) (λ got. (got.0 ≡ some m) × Gives g ms got.1)

  Pending-Gives :
      (g : Reader) (cap : ℕ) (ms : List Message) (c : Controller env)
      → Pending env (reader_type g) (reader_class g) cap ms c
      → Gives g ms c
  unfolding read_telemetry Queue.pop Queue.first
  Pending-Gives g cap [] c waiting =
      Returns-map _ _ (read_telemetry env g c)
        (get_telemetry-Pending env (reader_type g) cap (reader_class g) [] c waiting)
        (λ got given. given.0)
  Pending-Gives g cap (m ∷ ms) c waiting =
      Returns-map _ _ (read_telemetry env g c)
        (get_telemetry-Pending env (reader_type g) cap (reader_class g) (m ∷ ms) c waiting)
        (λ got given. (given.0, Pending-Gives g cap ms got.1 given.1))

  listed_class : (g : Reader) → lookup (reader_type g) controller_types ≡ some (reader_class g)
  listed_class Reader.get_current_pose = refl
  listed_class Reader.get_current_twist = refl
  listed_class Reader.get_current_acceleration = refl
  listed_class Reader.get_poses = refl
  listed_class Reader.get_current_joint_state = refl
  listed_class Reader.get_current_wrench_state = refl
  listed_class Reader.get_current_imu_state = refl
  listed_class Reader.get_current_contact_points = refl
  listed_class Reader.get_permission_request = refl
  listed_class Reader.get_log_message = refl
  listed_class Reader.get_robot_state = refl
  listed_class Reader.get_current_transforms = refl
  listed_class Reader.get_point_cloud = refl

  -- What the controller has after it took in the messages, if it had these before.
  abbrev Streamed : ℕ → ℕ → Reader → State → List Message → Controller env → List Message → Type 0
  Streamed fuel cap g last ms c q =
      (out : Controller env) × (receive_telemetry env fuel c ≡ some (ok out))
      × (out.telemetry_transport ≡ some last)
      × Gives g (take cap (q ++ ms)) out

  -- The application of a robot calls one of its setters for some messages, and the channel brings what
  -- was sent to a controller, in that order. Whatever the robot and the controller went through before:
  -- the setter returns each time, and the controller takes all of the messages in at the start of its next
  -- update; its getter for the type then gives what waited before and behind it the messages, as many of them as
  -- the buffer has room for, and then nothing.
  pub read_telemetry-set_telemetry :
      (s : Setter) (g : Reader) (ms : List Message) (r : Robot env) (c : Controller env)
      (cap fuel : ℕ) (from from' to to' : State)
      → Reachable env r
      → Reached env cap c
      → setter_type s ≡ reader_type g
      → setter_class s ≡ reader_class g
      → setter_request_only s ≡ false
      → All (λ m. kind_of m ≡ setter_class s) ms
      → r.telemetry_transport ≡ some from
      → c.telemetry_transport ≡ some to
      → Sends from (map (framed s) ms) from'
      → Yields env to (map (framed s) ms) to'
      → length ms < fuel
      → Returns (set_each s ms r) (λ r'. r'.telemetry_transport ≡ some from')
        × ((q : List Message) × (length q ≤ cap) × Gives g q c × Streamed fuel cap g to' ms c q)
  read_telemetry-set_telemetry s g ms r c cap fuel from from' to to' reached reached' same_type
        same_class streams of_class robot_end controller_end sends yields enough =
      let k = reader_class g in
      let type = reader_type g in
      let sound = Reached-IsSound env cap c reached' in
      let listed = listed_class g in
      let (some_room, (q, fits, waiting)) =
        Sized-Queued k cap c.buffers.slots type (sound.telemetry type k listed).buffer in
      let (out, ran, ended, pending) =
        receive_telemetry-Pending env fuel type cap k to to' ms q c controller_end
          (subst (λ j. Yields env to (map (λ m. encode_uint16 j ++ serialize m) ms) to') same_type
            yields)
          enough (lookup_below 65536 type k controller_types refl listed)
          (rw same_class at of_class) (sound.adders type k listed) fits waiting in
      (
        Returns-map (At from') _ (set_each s ms r)
            (set_each-At s ms r from from' (reached, robot_end) streams of_class sends)
            (λ r' here. here.1),
        (
          q,
          fits,
          Pending-Gives g cap q c waiting,
          (out, ran, ended, Pending-Gives g cap (take cap (q ++ ms)) out pending),
        ),
      )
