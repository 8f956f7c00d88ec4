-- ===== src/Conversions.antt =====
-- src/Types/Conversions: the conversions between the messages and the types of ROCK and ROS. Of those
-- types a conversion is given the members that it reads, and what it writes to.
pub mod Messages
pub mod Vectors
pub mod Times
pub mod Joints
pub mod Pointcloud
pub mod Motion
pub mod Mls
pub mod Ros
pub mod RosJoints
pub mod RosGeometry
pub mod RosSensors
pub mod RockSamples
use robot_remote_control.Base.{ℕ, ◌==◌, if◌then◌else◌, ◌≡◌, refl}

-- A vector of Eigen, or a struct of ROS with members of one type, which are counted from 0 in the
-- order of their names x, y, z, w.
pub record Members (V : Type 0) : Type 1 where
  pub Carrier : Type 0
  pub get : ℕ → Carrier → V
  pub set : ℕ → V → Carrier → Carrier
  pub get-set :
      (i j : ℕ) (v : V) (s : Carrier) → get j (set i v s) ≡ (if i == j then v else get j s)

abbrev pub functions : (V : Type 0) → Members V
functions V = record {
  Carrier = ℕ → V;
  get = λ i f. f i;
  set = λ i v f j. if i == j then v else f j;
  get-set = λ i j v s. refl;
}
