-- ===== src/Conversions/RosJoints.antt =====
-- src/Types/Conversions/ros/sensor_msgs/JointState.hpp.
use robot_remote_control.Base.{
  ℕ, suc, ◌≡◌, refl, sym, ◌∙◌, ◌⊎◌, inl, inr, List, [], ◌∷◌, ◌++◌, Result, ok, ◌>>=◌, read_at,
  length, length-append, arith,
}
use mathlib.Core.List.{append-nil, append_assoc}
use robot_remote_control.Bytes.{Bytes}
use robot_remote_control.Conversions.Messages.{JointState}
use robot_remote_control.Conversions.Ros.{Header, of_header, read_there}

-- sensor_msgs::JointState, by the members that are read.
pub record RosJoints (D : Type 0) : Type 0 where
  pub header : Header
  pub name : List Bytes
  pub position : List D
  pub velocity : List D
  pub effort : List D

module _ (D : Type 0) where
  -- `if (values.size()) { to->add(values[i]); }`
  unfoldable pub added : List D → ℕ → List D → Result (List D)
  added [] i target = ok target
  added (v ∷ vs) i target = read_at (v ∷ vs) i >>= λ x. ok (target ++ x ∷ [])

  -- The loop over the names from the `i`-th on.
  unfoldable pub add_joints : RosJoints D → ℕ → List Bytes → JointState D → Result (JointState D)
  unfolding added
  add_joints from i [] target = ok target
  add_joints from i (name ∷ names) target = do
    positions ← added from.position i target.position
    velocities ← added from.velocity i target.velocity
    efforts ← added from.effort i target.effort
    add_joints from (suc i) names (record target {
      name = target.name ++ name ∷ [];
      position = positions;
      velocity = velocities;
      effort = efforts;
    })

  unfoldable pub to_joints : RosJoints D → JointState D → Result (JointState D)
  unfolding add_joints of_header
  to_joints from target =
      add_joints from 0 from.name (record target { timestamp = of_header from.header })

  -- What is left to be added of a list that is empty, or as long as the names.
  abbrev pub Rest : List D → ℕ → List D → ℕ → Type 0
  Rest values i rest n =
      ((values ≡ []) × (rest ≡ []))
      ⊎ ((before : List D) × (values ≡ before ++ rest) × (length before ≡ i) × (length rest ≡ n))

  added-append :
      (before rest target : List D) (x : D)
      → added (before ++ x ∷ rest) (length before) target ≡ ok (target ++ x ∷ [])
  unfolding added
  added-append [] rest target x = refl
  added-append (b ∷ before) rest target x = rw (read_there before rest x)

  pub added-Rest :
      (values rest target : List D) (i n : ℕ)
      → Rest values i rest (suc n)
      → (target' : List D) × (rest' : List D) × (added values i target ≡ ok target')
        × (target' ++ rest' ≡ target ++ rest)
        × Rest values (suc i) rest' n
  unfolding added
  added-Rest values rest target i n (inl (none_there, none_left)) =
      (target, [], rw none_there refl, rw none_left refl, inl (none_there, refl))
  added-Rest values [] target i n (inr (before, split, at, left)) = absurd (omega arith)
  added-Rest values (x ∷ rest) target i n (inr (before, split, at, left)) = (
    target ++ x ∷ [],
    rest,
    rw (split, ← at) (added-append before rest target x),
    append_assoc target (x ∷ []) rest,
    inr (
      before ++ x ∷ [],
      split ∙ sym (append_assoc before (x ∷ []) rest),
      omega (arith, length-append before (x ∷ [])),
      omega arith,
    ),
  )

  pub Rest-nil : (values rest : List D) (i : ℕ) → Rest values i rest 0 → rest ≡ []
  Rest-nil values rest i (inl (none_there, none_left)) = none_left
  Rest-nil values [] i (inr (before, split, at, left)) = refl
  Rest-nil values (x ∷ rest) i (inr (before, split, at, left)) = absurd (omega arith)

  add_joints_all :
      (from : RosJoints D) (i : ℕ) (names : List Bytes) (positions velocities efforts : List D)
      (target : JointState D)
      → Rest from.position i positions (length names)
      → Rest from.velocity i velocities (length names)
      → Rest from.effort i efforts (length names)
      → add_joints from i names target
        ≡ ok (record target {
          name = target.name ++ names;
          position = target.position ++ positions;
          velocity = target.velocity ++ velocities;
          effort = target.effort ++ efforts;
        })
  unfolding add_joints
  add_joints_all from i [] positions velocities efforts target p v e =
      rw
        (
          Rest-nil from.position positions i p,
          Rest-nil from.velocity velocities i v,
          Rest-nil from.effort efforts i e,
        )
        (simp append-nil)
  add_joints_all from i (name ∷ names) positions velocities efforts target p v e =
      let (ps, ps', pe, pa, pr) =
        added-Rest from.position positions target.position i (length names) p in
      let (vs, vs', ve, va, vr) =
        added-Rest from.velocity velocities target.velocity i (length names) v in
      let (es, es', ee, ea, er) = added-Rest from.effort efforts target.effort i (length names) e in
      rw (pe, ve, ee)
        (add_joints_all from (suc i) names ps' vs' es' _ pr vr er
          ∙ rw (pa, va, ea, append_assoc) refl)

  -- A list that is empty or as long as the names.
  abbrev pub Complete : List D → List Bytes → Type 0
  Complete values names = (values ≡ []) ⊎ (length values ≡ length names)

  pub begins :
      (values : List D) (names : List Bytes)
      → Complete values names
      → Rest values 0 values (length names)
  begins values names (inl e) = inl (e, e)
  begins values names (inr e) = inr ([], refl, refl, e)

  -- The conversion of a joint state, each list of which is empty or as long as the names, adds all of it
  -- behind what the message holds, which is not cleared.
  pub to_joints_lem :
      (from : RosJoints D) (target : JointState D)
      → Complete from.position from.name
      → Complete from.velocity from.name
      → Complete from.effort from.name
      → to_joints from target
        ≡ ok (record target {
          timestamp = of_header from.header;
          name = target.name ++ from.name;
          position = target.position ++ from.position;
          velocity = target.velocity ++ from.velocity;
          effort = target.effort ++ from.effort;
        })
  unfolding to_joints
  to_joints_lem from target p v e =
      add_joints_all from 0 from.name from.position from.velocity from.effort
        (record target { timestamp = of_header from.header }) (begins from.position from.name p)
        (begins from.velocity from.name v) (begins from.effort from.name e)
