-- ===== src/RobotController/Keeping/Updating.antt =====
-- `update` keeps the controller sound.
use robot_remote_control.Base.{
  ℕ, zero, suc, refl, Bool-cases, ◌==◌, Option, none, some, inl, inr, Option-cases, Result-cases,
  Result, ok, fault,
}
use robot_remote_control.Transport.{noblock}
use robot_remote_control.Env.{Env}
use robot_remote_control.RobotController.{Controller}
use robot_remote_control.RobotController.Requests.{Clock}
use robot_remote_control.RobotController.Receiving.{evaluate_telemetry}
use robot_remote_control.RobotController.Update.{receive_all, receive_telemetry, heart_beat, update}
use robot_remote_control.RobotController.Keeping.{IsSound, Same, Same-IsSound, WhenEnds}
use robot_remote_control.RobotController.Keeping.Receiving.{evaluate_telemetry-IsSound}
use robot_remote_control.RobotController.Keeping.Requests.{heart_beat-Same}

WhenEnds-map :
    {A : Type 0} (P Q : A → Type 0) (m : Option (Result A))
    → WhenEnds m P
    → ((a : A) → P a → Q a)
    → WhenEnds m Q
WhenEnds-map P Q none h k = tt
WhenEnds-map P Q (some (fault e)) h k = tt
WhenEnds-map P Q (some (ok a)) h k = k a h

module _ (env : Env) where
  open env.transport use {State, receive}

  connected-IsSound :
      (cap : ℕ) (t : State) (c : Controller env)
      → IsSound env cap c
      → IsSound env cap (record c { telemetry_transport = some t })
  connected-IsSound cap t c sound =
      Same-IsSound env cap c _ (record { buffers = refl; adders = refl; sensors = refl }) sound

  receive_all-IsSound :
      (cap fuel : ℕ) (t : State) (c : Controller env)
      → IsSound env cap c
      → WhenEnds (receive_all env fuel t c) (IsSound env cap)
  unfolding receive_all
  receive_all-IsSound cap zero t c sound = tt
  receive_all-IsSound cap (suc fuel) t c sound =
      let (n, buf, t') = receive noblock t in
      let c' = record c { telemetry_transport = some t' } in
      let sound' = connected-IsSound cap t' c sound in
      elim (Bool-cases (n == 0)) [
        | inl e ↦ rw (e, receive_all, WhenEnds) sound'
        | inr e ↦ elim (Result-cases (evaluate_telemetry env buf c')) [
          | inl (f, failed) ↦ rw (e, receive_all, failed, WhenEnds) tt
          | inr (out, came) ↦
              rw (e, receive_all, came, WhenEnds)
                (receive_all-IsSound cap fuel t' out.1
                  (rw came at (evaluate_telemetry-IsSound env cap buf c' sound')))
        ]
      ]

  receive_telemetry-IsSound :
      (cap fuel : ℕ) (c : Controller env)
      → IsSound env cap c
      → WhenEnds (receive_telemetry env fuel c) (IsSound env cap)
  unfolding receive_telemetry
  receive_telemetry-IsSound cap fuel c sound = elim (Option-cases c.telemetry_transport) [
    | inl e ↦ rw (e, WhenEnds) sound
    | inr (t, e) ↦ rw (e, WhenEnds) (receive_all-IsSound cap fuel t c sound)
  ]

  pub update-IsSound :
      (cap fuel now : ℕ) (clock : Clock) (back restarted : ℕ) (c : Controller env)
      → IsSound env cap c
      → WhenEnds (update env fuel now clock back restarted c) (IsSound env cap)
  unfolding update
  update-IsSound cap fuel now clock back restarted c sound =
      updated (receive_telemetry env fuel c) (receive_telemetry-IsSound cap fuel c sound)
    where
      updated :
          (out : Option (Result (Controller env)))
          → WhenEnds out (IsSound env cap)
          → WhenEnds
              (elim out [
                | none ↦ none
                | some (fault e) ↦ some (fault e)
                | some (ok c') ↦ heart_beat env fuel now clock back restarted c'
              ])
              (IsSound env cap)
      updated none h = tt
      updated (some (fault e)) h = tt
      updated (some (ok c')) h =
          WhenEnds-map (Same env c') _ (heart_beat env fuel now clock back restarted c')
            (heart_beat-Same env fuel now clock back restarted c')
            (λ d same. Same-IsSound env cap c' d same h)
