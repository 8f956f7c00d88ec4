-- ===== src/ControlledRobot/Keeping/Sending.antt =====
-- Sending telemetry and storing maps keep the robot sound.
use robot_remote_control.Base.{
  ◌%◌, Returns-map, get_elem?, All_at, All-set, WhenReturns_of_Returns, ℕ, ◌≡◌, sym, ◌∙◌, ap, Bool,
  true, Bool-cases, ◌==◌, ==_iff, none, some, Option-cases, inl, inr, [], ◌++◌, read_at, lookup,
  All, WhenReturns, WhenReturns-bind, arith,
}
use robot_remote_control.Bytes.{Bytes, encode_uint16}
use robot_remote_control.Types.{Kind}
use robot_remote_control.RingBuffer.Slots.{Slots, push_at}
use robot_remote_control.RingBuffer.Placed.{Placed, push_at-Placed, Placed-Holds, Placed-others}
use robot_remote_control.RingBuffer.Latest.{Holds, Single-Holds}
use robot_remote_control.SimpleBuffer.{init_buffer_id}
use robot_remote_control.SimpleBuffer.Store.{
  Fits, Ready, init_buffer_id-Ready, Stored, push_at-Stored,
}
use robot_remote_control.Transport.{none_flag}
use robot_remote_control.Env.{Env}
use robot_remote_control.RingBuffer.Access.{BufferPtr, push_data}
use robot_remote_control.ControlledRobot.{Robot, telemetry_types}
use robot_remote_control.ControlledRobot.Sending.{
  send_out, store_telemetry, send_telemetry, set_map,
}
use robot_remote_control.ControlledRobot.Sound.{IsSound}
use robot_remote_control.ControlledRobot.Keeping.Requests.{SoundOut}
use robot_remote_control.Types.Table.{same_class}

module _ (env : Env) where
  open env.floats use {Float}
  open env.protobuf use {Message, kind_of, serialize, parse}
  open env.transport use {State, send, receive}

  store_telemetry-IsSound :
      (m : Message) (type : ℕ) (r : Robot env)
      → IsSound env r
      → lookup type telemetry_types ≡ some (kind_of m)
      → WhenReturns (store_telemetry env m type r) (IsSound env)
  unfolding store_telemetry
  store_telemetry-IsSound m type r sound listed =
      WhenReturns-bind (IsSound env) (push_at (kind_of m) r.buffers.slots type m true) _ λ out e.
        let placed : Placed (kind_of m) type m r.buffers.slots out.1 = rw e at (
          push_at-Placed (kind_of m) type m r.buffers.slots
            (sound.telemetry type (kind_of m) listed).buffer) in
        record {
          telemetry = λ j k there. record {
            converter = (sound.telemetry j k there).converter;
            buffer = elim (Bool-cases (type == j)) [
              | inr other ↦
                  rw
                    (Placed-others (kind_of m) type m r.buffers.slots out.1 placed j
                      (λ e. grind (arith, other, e)))
                    (sound.telemetry j k there).buffer
              | inl same ↦
                  let here : type ≡ j = (==_iff type j).0 same in
                  let of_class : kind_of m ≡ k =
                    same_class (kind_of m) k
                      (sym listed ∙ ap (λ i. lookup i telemetry_types) here ∙ there) in
                  rw (← here, ← of_class)
                    (Returns-map (Holds (kind_of m) m) _ (read_at out.1 type)
                      (Placed-Holds (kind_of m) type m r.buffers.slots out.1 placed)
                      (Single-Holds (kind_of m) m))
            ];
          };
          commands = sound.commands;
          maps = sound.maps;
        }

  send_out-IsSound :
      (buf : Bytes) (t : State) (r : Robot env)
      → IsSound env r
      → WhenReturns (send_out env buf t r) (SoundOut env)
  unfolding send_out
  send_out-IsSound buf t r sound = elim (Option-cases (send buf none_flag t).0) [
    | inl e ↦ rw (e, WhenReturns) tt
    | inr (n, e) ↦
        rw (e, WhenReturns)
          (record { telemetry = sound.telemetry; commands = sound.commands; maps = sound.maps })
  ]

  pub send_telemetry-IsSound :
      (m : Message) (type : ℕ) (only : Bool) (r : Robot env)
      → IsSound env r
      → lookup type telemetry_types ≡ some (kind_of m)
      → WhenReturns (send_telemetry env m type only r) (SoundOut env)
  unfolding send_telemetry
  send_telemetry-IsSound m type only r sound listed = elim (Option-cases r.telemetry_transport) [
    | inl e ↦ rw (e, WhenReturns) sound
    | inr (t, e) ↦
        rw (e, WhenReturns)
          (WhenReturns-bind (SoundOut env) (store_telemetry env m type r) _ λ s stored.
            let kept = rw stored at (store_telemetry-IsSound m type r sound listed) in
            elim (Bool-cases only) [
              | inl e ↦ rw e kept
              | inr e ↦ rw e (send_out-IsSound (encode_uint16 type ++ serialize m) t s kept)
            ])
  ]

  fitting_pointer :
      (id : ℕ) (m : Bytes) (slots : Slots Bytes) (p : BufferPtr Bytes)
      → get_elem? slots id ≡ some p
      → All (Fits Kind.string) slots
      → Fits Kind.string p
      → WhenReturns (push_at Kind.string slots id m true) (λ out. All (Fits Kind.string) out.1)
  unfolding push_at push_data
  fitting_pointer id m slots none e fits fit =
      rw (e, WhenReturns) (All-set (Fits Kind.string) slots id none fits tt)
  fitting_pointer id m slots (some b) e fits fit =
      WhenReturns_of_Returns _ (push_at Kind.string slots id m true) (
        Returns-map (λ out. Stored Kind.string id m slots out.1) _
          (push_at Kind.string slots id m true)
          (push_at-Stored Kind.string id m slots fits (rw e fit)) (λ out stored. stored.fits))

  push_at-Fits :
      (id : ℕ) (m : Bytes) (slots : Slots Bytes)
      → All (Fits Kind.string) slots
      → WhenReturns (push_at Kind.string slots id m true) (λ out. All (Fits Kind.string) out.1)
  unfolding push_at
  push_at-Fits id m slots fits = elim (Option-cases (get_elem? slots id)) [
    | inl e ↦ rw (e, WhenReturns) tt
    | inr (p, e) ↦ fitting_pointer id m slots p e fits (All_at (Fits Kind.string) slots id fits e)
  ]

  pub set_map-IsSound :
      (m : Bytes) (map_id : ℕ) (r : Robot env)
      → IsSound env r
      → WhenReturns (set_map env m map_id r) (SoundOut env)
  unfolding set_map
  set_map-IsSound m map_id r sound =
      WhenReturns-bind (SoundOut env) (init_buffer_id Kind.string [] (map_id % 65536) r.map_buffer)
        _
        λ ready e.
          let done : Ready Kind.string (map_id % 65536) r.map_buffer ready =
            rw e at
              (init_buffer_id-Ready Kind.string [] (map_id % 65536) r.map_buffer sound.maps) in
          WhenReturns-bind (SoundOut env) (push_at Kind.string ready map_id m true) _ λ out e'.
            record {
              telemetry = sound.telemetry;
              commands = sound.commands;
              maps = rw e' at (push_at-Fits map_id m ready done.fits);
            }
