-- ===== src/ControlledRobot/Getters.antt =====
-- src/ControlledRobot/ControlledRobot.hpp: the getters of commands, each a call of `read` on the
-- command buffer of one type.
use robot_remote_control.Base.{
  ltb, ◌||◌, ◌∙◌, of_option, lookup, insert, lookup-insert, ==_refl, ◌==◌, ℕ, ◌≡◌, refl, Bool, true,
  false, some, List, ◌++◌, Result, ok, Fault, ◌>>=◌, Returns, arith,
}
use mathlib.Core.List.{append-nil}
use robot_remote_control.Bytes.{Bytes, encode_uint16}
use robot_remote_control.MessageTypes.Control
use robot_remote_control.Transport.{none_flag}
use robot_remote_control.Env.{Env}
use robot_remote_control.ControlledRobot.{Robot}
use robot_remote_control.ControlledRobot.Commands.{CommandBuffer, read}
use robot_remote_control.ControlledRobot.Requests.{evaluate_request}
use robot_remote_control.ControlledRobot.Handling.{
  IsPlain, accepted, refused, evaluate_request-accepted, evaluate_request-refused,
}

pub data Getter : Type 0 where
  get_target_pose_command get_twist_command get_go_to_command get_joints_command : Getter
  get_simple_action_command get_complex_action_command get_robot_trajectory_command : Getter

-- The type that the constructor registers the member for which the getter reads.
abbrev pub getter_type : Getter → ℕ
getter_type Getter.get_target_pose_command = Control.target_pose_command
getter_type Getter.get_twist_command = Control.twist_command
getter_type Getter.get_go_to_command = Control.goto_command
getter_type Getter.get_joints_command = Control.joints_command
getter_type Getter.get_simple_action_command = Control.simple_actions_command
getter_type Getter.get_complex_action_command = Control.complex_action_command
getter_type Getter.get_robot_trajectory_command = Control.robot_trajectory_command

is_plain : (type : ℕ) → (ltb type 7 || type == 12) ≡ true → IsPlain type
is_plain type e = record {
  small = ground arith;
  not_telemetry = λ same. ground arith;
  not_map = λ same. ground arith;
  not_level = λ same. ground arith;
  not_permission = λ same. ground arith;
}

pub getter_type-IsPlain : (g : Getter) → IsPlain (getter_type g)
getter_type-IsPlain Getter.get_target_pose_command = is_plain Control.target_pose_command refl
getter_type-IsPlain Getter.get_twist_command = is_plain Control.twist_command refl
getter_type-IsPlain Getter.get_go_to_command = is_plain Control.goto_command refl
getter_type-IsPlain Getter.get_joints_command = is_plain Control.joints_command refl
getter_type-IsPlain Getter.get_simple_action_command = is_plain Control.simple_actions_command refl
getter_type-IsPlain Getter.get_complex_action_command = is_plain Control.complex_action_command refl
getter_type-IsPlain Getter.get_robot_trajectory_command =
    is_plain Control.robot_trajectory_command refl

pub lookup_inserted :
    {V : Type 0} (k : ℕ) (v : V) (xs : List (ℕ × V)) → lookup k (insert k v xs) ≡ some v
lookup_inserted k v xs = lookup-insert k k v xs ∙ rw (==_refl k)

module _ (env : Env) where
  open env.protobuf use {Message, kind_of, serialize, parse}
  open env.transport use {State, send}

  -- Whether the command is new, what `*command` holds then, and the robot.
  unfoldable pub get_command : Getter → Robot env → Result (Bool × Message × Robot env)
  unfolding read
  get_command g r = do
    b ← of_option Fault.null_pointer (lookup (getter_type g) r.commandbuffers)
    let (fresh, command, b') = read b
    ok (fresh, command, record r { commandbuffers = insert (getter_type g) b' r.commandbuffers })

  get_stored :
      (g : Getter) (r : Robot env) (b : CommandBuffer Message)
      → lookup (getter_type g) r.commandbuffers ≡ some b
      → get_command g r
        ≡ ok (
          b.isnew,
          b.command,
          record r {
            commandbuffers = insert (getter_type g) (record b { isnew = false }) r.commandbuffers;
          },
        )
  unfolding get_command
  get_stored g r b found = rw (found, get_command)

  -- After a command of the getter's type was handled the getter gives it as new, and from then on gives
  -- it again and says that it is not new, until another command comes.
  pub get_command-evaluate_request :
      (g : Getter) (m : Message) (b : CommandBuffer Message) (r : Robot env) (bytes : ℕ)
      → lookup (getter_type g) r.commandbuffers ≡ some b
      → b.kind ≡ kind_of m
      → (send (encode_uint16 (getter_type g)) none_flag r.command_transport).0 ≡ some bytes
      → Returns (evaluate_request env (encode_uint16 (getter_type g) ++ serialize m) r) (λ out.
        Returns (get_command g out.1) (λ first.
          (first.0 ≡ true)
          × (first.1 ≡ m)
          × Returns (get_command g first.2) (λ second. (second.0 ≡ false) × (second.1 ≡ m))))
  get_command-evaluate_request g m b r bytes found same sends =
      let type = getter_type g in
      let stored = record b { command = m; isnew = true } in
      let after = accepted env type m b r in
      let once = record after {
        commandbuffers = insert type (record stored { isnew = false }) after.commandbuffers;
      } in
      rw (evaluate_request-accepted env type m b r bytes (getter_type-IsPlain g) found same sends) (
        rw (get_stored g after stored (lookup_inserted type stored r.commandbuffers)) (
          refl,
          refl,
          rw
              (get_stored g once (record stored { isnew = false })
                (lookup_inserted type (record stored { isnew = false }) after.commandbuffers))
              (refl, refl),
        ))

  -- A command that was handled and acknowledged and that its getter has not given yet is lost when a
  -- message of its type comes that cannot be parsed, which is answered by NO_CONTROL_DATA and calls
  -- nothing: the getter says that there is nothing new, and gives what the parser left.
  pub get_command-evaluate_request_bad :
      (g : Getter) (m : Message) (body : Bytes) (b : CommandBuffer Message) (r : Robot env)
      (bytes bytes' : ℕ)
      → lookup (getter_type g) r.commandbuffers ≡ some b
      → b.kind ≡ kind_of m
      → (send (encode_uint16 (getter_type g)) none_flag r.command_transport).0 ≡ some bytes
      → (parse b.kind body).0 ≡ false
      → (send
          (encode_uint16 Control.no_control_data)
          none_flag
          (send (encode_uint16 (getter_type g)) none_flag r.command_transport).1).0
        ≡ some bytes'
      → Returns {A = Robot env × ℕ × Robot env}
          (evaluate_request env (encode_uint16 (getter_type g) ++ serialize m) r >>= λ first.
            evaluate_request env (encode_uint16 (getter_type g) ++ body) first.1 >>= λ second.
            ok (first.1, second.0, second.1))
          (λ out.
            (out.1 ≡ Control.no_control_data)
            × (out.2.command_transport
                ≡ (send
                    (encode_uint16 Control.no_control_data)
                    none_flag
                    out.0.command_transport).1)
            × (out.2.called ≡ out.0.called)
            × Returns
                (get_command g out.2)
                (λ got. (got.0 ≡ false) × (got.1 ≡ (parse b.kind body).1)))
  get_command-evaluate_request_bad g m body b r bytes bytes' found same sends bad sends' =
      let type = getter_type g in
      let stored = record b { command = m; isnew = true } in
      let after = accepted env type m b r in
      let spoilt = record stored { command = (parse b.kind body).1; isnew = false } in
      let last = refused env type body stored after in
      rw (evaluate_request-accepted env type m b r bytes (getter_type-IsPlain g) found same sends) (
        rw
          (evaluate_request-refused env type body stored after bytes' (getter_type-IsPlain g)
            (lookup_inserted type stored r.commandbuffers) bad sends')
          (
            refl,
            refl,
            append-nil after.called,
            rw (get_stored g last spoilt (lookup_inserted type spoilt after.commandbuffers))
                (refl, refl),
          ))
