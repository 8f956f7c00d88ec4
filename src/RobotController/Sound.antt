-- ===== src/RobotController/Sound.antt =====
-- The buffers and adders that the constructor registers.
use robot_remote_control.Base.{
  ◌<◌, ℕ, ◌≡◌, ◌≢◌, refl, ◌∙◌, true, false, Bool, Bool-cases, ◌==◌, ==_iff, Option, some, inl, inr,
  List, [], ◌∷◌, write_at_ok, lookup, get_elem?, get_elem?-set_self, get_elem?-set_ne, get_elem?-lt,
  Returns, Returns-bind, Returns_value, arith, size_mod, sym,
}
use robot_remote_control.Types.{Kind}
use robot_remote_control.Types.Table.{mentions, distinct, not_mentioned, distinct_rest, same_class}
use robot_remote_control.MessageTypes.Telemetry
use robot_remote_control.TelemetryBuffer.{fitted, register_type}
use robot_remote_control.TelemetryBuffer.Registered.{
  Registered, Registers, register_type-Registers, fitted_lem,
}
use robot_remote_control.Env.{Env}
use robot_remote_control.RobotController.{
  Controller, controller_types, register_adder, register_adders, new_robot_controller, unregistered,
}

module _ (env : Env) where
  open env.floats use {Float}
  open env.protobuf use {Message, empty}
  open env.transport use {State}

  -- The type has its buffer, of the capacity, and its adder.
  pub record Known (type : ℕ) (k : Kind) (cap : ℕ) (c : Controller env) : Type 0 where
    pub registered : Registered type k cap c.buffers
    pub adder : get_elem? c.telemetry_adders type ≡ some (some k)

  -- What one registration has done.
  pub record Adds (type : ℕ) (k : Kind) (cap : ℕ) (c c' : Controller env) : Type 0 where
    pub known : Known type k cap c'
    pub others : (j : ℕ) (l : Kind) → j ≢ type → Known j l cap c → Known j l cap c'
    pub same_sensors : c'.simplesensorbuffer ≡ c.simplesensorbuffer

  pub register_adder-Adds :
      (type : ℕ) (k : Kind) (cap : ℕ) (c : Controller env)
      → 0 < cap
      → cap < size_mod
      → Returns (register_adder env type k cap c) (Adds type k cap c)
  unfolding register_adder
  register_adder-Adds type k cap c some_room small =
      let (inside, same) = fitted_lem type c.telemetry_adders in
      Returns-bind (Registers type k cap c.buffers) _ (register_type k (empty k) type cap c.buffers)
        _ (register_type-Registers k (empty k) type cap c.buffers some_room small)
        λ buffers done.
          rw (write_at_ok (fitted type c.telemetry_adders) type (some k) inside) (record {
            known = record {
              registered = done.registered;
              adder = get_elem?-set_self (fitted type c.telemetry_adders) type (some k) inside;
            };
            others = λ j l other was. record {
              registered = done.others j l cap other was.registered;
              adder =
                  get_elem?-set_ne (fitted type c.telemetry_adders) type j (some k)
                    (λ e. other (sym e))
                  ∙ same j (get_elem?-lt c.telemetry_adders j was.adder)
                  ∙ was.adder;
            };
            same_sensors = refl;
          })

  register_adders-kept :
      (types : List (ℕ × Kind)) (cap : ℕ) (c : Controller env) (j : ℕ) (l : Kind)
      → 0 < cap
      → cap < size_mod
      → mentions j types ≡ false
      → Known j l cap c
      → Returns (register_adders env types cap c) (Known j l cap)
  unfolding register_adders
  register_adders-kept [] cap c j l some_room small absent was = was
  register_adders-kept ((type, k) ∷ rest) cap c j l some_room small absent was =
      let (other, absent') = not_mentioned j type k rest absent in
      Returns-bind (Adds type k cap c) _ (register_adder env type k cap c) _
        (register_adder-Adds type k cap c some_room small)
        (λ c' done.
          register_adders-kept rest cap c' j l some_room small absent' (done.others j l other was))

  register_adders-Known :
      (types : List (ℕ × Kind)) (cap : ℕ) (c : Controller env) (j : ℕ) (l : Kind)
      → 0 < cap
      → cap < size_mod
      → distinct types ≡ true
      → lookup j types ≡ some l
      → Returns (register_adders env types cap c) (Known j l cap)
  unfolding register_adders
  register_adders-Known [] cap c j l some_room small once there = absurd (grind arith)
  register_adders-Known ((type, k) ∷ rest) cap c j l some_room small once there =
      let (absent, once') = distinct_rest type k rest once in
      Returns-bind (Adds type k cap c) _ (register_adder env type k cap c) _
        (register_adder-Adds type k cap c some_room small)
        (λ c' done. elim (Bool-cases (type == j)) [
          | inr other ↦
              register_adders-Known rest cap c' j l some_room small once' (rw other at there)
          | inl same ↦
              let here : type ≡ j = (==_iff type j).0 same in
              let of_class : k ≡ l = same_class k l (rw same at there) in
              register_adders-kept rest cap c' j l some_room small (rw here at absent)
                (rw (here, of_class) at done.known)
        ])

  -- The constructor returns a controller that has, for each type that it lists, a buffer of the given
  -- capacity and an adder of the same class, if the capacity is above 0.
  pub new_robot_controller-Known :
      (t u : Option State) (cap : ℕ) (latency : Float) (garbage : Bool) (garbage_time : ℕ)
      → 0 < cap
      → cap < size_mod
      → Returns
          (new_robot_controller env t u cap latency garbage garbage_time)
          (λ c. (type : ℕ) (k : Kind) → lookup type controller_types ≡ some k → Known type k cap c)
  unfolding new_robot_controller
  new_robot_controller-Known t u cap latency garbage garbage_time some_room small =
      let start = unregistered env t u latency garbage garbage_time in
      let (c, e, first) =
        Returns_value (Known Telemetry.current_pose Kind.pose cap)
          (new_robot_controller env t u cap latency garbage garbage_time)
          (register_adders-Known controller_types cap start Telemetry.current_pose Kind.pose
            some_room small refl refl) in
      rw e (λ type k there.
        rw e at
          (register_adders-Known controller_types cap start type k some_room small refl there))
