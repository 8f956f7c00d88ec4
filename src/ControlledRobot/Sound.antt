-- ===== src/ControlledRobot/Sound.antt =====
-- The buffers that the constructor registers are there in every state of the robot.
use robot_remote_control.Base.{
  ℕ, ◌≡◌, refl, sym, ◌∙◌, Bool, true, false, Bool-cases, ◌==◌, ==_iff, ==_ne, Option, some, inl,
  inr, List, [], ◌∷◌, lookup, lookup-insert, All, Returns, Returns-bind, Returns_value, arith,
}
use robot_remote_control.Types.{Kind}
use robot_remote_control.Types.Table.{mentions, distinct, not_mentioned, distinct_rest, same_class}
use robot_remote_control.MessageTypes.Telemetry
use robot_remote_control.SimpleBuffer.Store.{Fits}
use robot_remote_control.TelemetryBuffer.{TelemetryBuffer, new_telemetry_buffer}
use robot_remote_control.TelemetryBuffer.Registered.{Registered, Registers, register_type-Registers}
use robot_remote_control.Env.{Env}
use robot_remote_control.ControlledRobot.{
  Robot, command_types, telemetry_types, register_command_type, register_telemetry_type,
  register_commands, register_telemetry, new_controlled_robot,
}
use robot_remote_control.ControlledRobot.Commands.{CommandBuffer, new_command_buffer}

module _ (env : Env) where
  open env.protobuf use {Message, empty}
  open env.transport use {State}

  -- The command buffers of a robot: every type of the list has one of its class.
  abbrev pub HasCommands : List (ℕ × CommandBuffer Message) → Type 0
  HasCommands bufs =
      (type : ℕ) (k : Kind)
      → lookup type command_types ≡ some k
      → (b : CommandBuffer Message) × (lookup type bufs ≡ some b) × (b.kind ≡ k)

  -- The state between two calls: each telemetry type that the constructor registers has its buffer of
  -- capacity 1 and its converter, each command type has a buffer of its class, and every map number
  -- has no buffer or one of capacity 1.
  pub record IsSound (r : Robot env) : Type 0 where
    pub telemetry :
        (type : ℕ) (k : Kind) → lookup type telemetry_types ≡ some k → Registered type k 1 r.buffers
    pub commands : HasCommands r.commandbuffers
    pub maps : All (Fits Kind.string) r.map_buffer

  register_telemetry-kept :
      (types : List (ℕ × Kind)) (t : TelemetryBuffer Message) (j : ℕ) (l : Kind)
      → mentions j types ≡ false
      → Registered j l 1 t
      → Returns (register_telemetry env types t) (Registered j l 1)
  unfolding register_telemetry register_telemetry_type
  register_telemetry-kept [] t j l absent was = was
  register_telemetry-kept ((type, k) ∷ rest) t j l absent was =
      let (other, absent') = not_mentioned j type k rest absent in
      Returns-bind (Registers type k 1 t) _ _ _
        (register_type-Registers k (empty k) type 1 t (omega arith) (omega arith))
        (λ t' done. register_telemetry-kept rest t' j l absent' (done.others j l 1 other was))

  register_telemetry-Registered :
      (types : List (ℕ × Kind)) (t : TelemetryBuffer Message) (j : ℕ) (l : Kind)
      → distinct types ≡ true
      → lookup j types ≡ some l
      → Returns (register_telemetry env types t) (Registered j l 1)
  unfolding register_telemetry register_telemetry_type
  register_telemetry-Registered [] t j l once there = absurd (grind arith)
  register_telemetry-Registered ((type, k) ∷ rest) t j l once there =
      let (absent, once') = distinct_rest type k rest once in
      Returns-bind (Registers type k 1 t) _ _ _
        (register_type-Registers k (empty k) type 1 t (omega arith) (omega arith))
        (λ t' done. elim (Bool-cases (type == j)) [
          | inr other ↦ register_telemetry-Registered rest t' j l once' (rw other at there)
          | inl same ↦
              let here : type ≡ j = (==_iff type j).0 same in
              let of_class : k ≡ l = same_class k l (rw same at there) in
              register_telemetry-kept rest t' j l (rw here at absent)
                (rw (here, of_class) at done.registered)
        ])

  register_commands-kept :
      (types : List (ℕ × Kind)) (bufs : List (ℕ × CommandBuffer Message)) (j : ℕ)
      → mentions j types ≡ false
      → lookup j (register_commands env types bufs) ≡ lookup j bufs
  unfolding register_commands register_command_type
  register_commands-kept [] bufs j absent = refl
  register_commands-kept ((type, k) ∷ rest) bufs j absent =
      let (other, absent') = not_mentioned j type k rest absent in
      register_commands-kept rest (register_command_type env type k bufs) j absent'
      ∙ lookup-insert type j (new_command_buffer k (empty k)) bufs
      ∙ rw (==_ne type j (λ e. other (sym e)))

  register_commands-lookup :
      (types : List (ℕ × Kind)) (bufs : List (ℕ × CommandBuffer Message)) (j : ℕ) (l : Kind)
      → distinct types ≡ true
      → lookup j types ≡ some l
      → lookup j (register_commands env types bufs) ≡ some (new_command_buffer l (empty l))
  unfolding register_commands register_command_type
  register_commands-lookup [] bufs j l once there = absurd (grind arith)
  register_commands-lookup ((type, k) ∷ rest) bufs j l once there =
      let (absent, once') = distinct_rest type k rest once in
      elim (Bool-cases (type == j)) [
        | inr other ↦ register_commands-lookup rest _ j l once' (rw other at there)
        | inl same ↦
            let here : type ≡ j = (==_iff type j).0 same in
            let of_class : k ≡ l = same_class k l (rw same at there) in
            register_commands-kept rest _ j (rw here at absent)
            ∙ lookup-insert type j (new_command_buffer k (empty k)) bufs
            ∙ rw (same, of_class)
      ]

  -- The constructor returns a sound robot, whatever the transports and the memory it is made in.
  pub new_controlled_robot-IsSound :
      (c : State) (t : Option State) (latency : env.floats.Float) (garbage : Bool)
      → Returns (new_controlled_robot env c t latency garbage) IsSound
  unfolding new_controlled_robot new_command_buffer
  new_controlled_robot-IsSound c t latency garbage =
      let (buffers, e, first) =
        Returns_value _ (register_telemetry env telemetry_types new_telemetry_buffer) (
          register_telemetry-Registered telemetry_types new_telemetry_buffer Telemetry.current_pose
            Kind.pose refl refl) in
      rw e (record {
        telemetry = λ type k there.
            rw e at (
              register_telemetry-Registered telemetry_types new_telemetry_buffer type k refl there);
        commands = λ type k there. (
          new_command_buffer k (empty k),
          register_commands-lookup command_types [] type k refl there,
          refl,
        );
        maps = tt;
      })
