-- ===== src/Conversions/Ros.antt =====
-- src/Types/Conversions/ros/Header.hpp, ros/geometry_msgs/Pose.hpp and ros/nav_msgs/Path.hpp. The
-- conversions of vectors, points, quaternions and poses copy members as the ones of Vectors do.
use robot_remote_control.Base.{
  leb, if◌then◌else◌, Bool-cases, inl, inr, ℕ, suc, ◌≤◌, ◌<◌, ◌≡◌, refl, ap, ◌∙◌, List, [], ◌∷◌,
  ◌++◌, map, Result, ok, fault, Fault, ◌>>=◌, read_at, write_at, write_at_ok, set, length,
  length-append, get_elem?-none, arith,
}
use mathlib.Core.List.{append-nil, append_assoc}
use robot_remote_control.Base.Int.{to_int}
use robot_remote_control.Bytes.{Bytes}
use robot_remote_control.Doubles.{Doubles}
use robot_remote_control.Conversions.{Members}
use robot_remote_control.Conversions.Messages.{TimeStamp, Pose, Poses}
use robot_remote_control.Conversions.Vectors.{to_pose, of_pose}

pub read_there : {A : Type 0} (xs ys : List A) (a : A) → read_at (xs ++ a ∷ ys) (length xs) ≡ ok a
read_there [] ys a = refl
read_there (x ∷ xs) ys a = read_there xs ys a

-- std_msgs::Header: the seconds and nanoseconds of the stamp, and the frame.
pub record Header : Type 0 where
  pub sec : ℕ
  pub nsec : ℕ
  pub frame_id : Bytes

-- A stamped message of ROS: its header, and what it is about.
pub record Stamped (A : Type 0) : Type 0 where
  pub header : Header
  pub content : A

-- ros::Time
pub record RosTime : Type 0 where
  pub sec : ℕ
  pub nsec : ℕ

unfoldable pub of_header : Header → TimeStamp
of_header h = record { secs = to_int h.sec; nsecs = to_int h.nsec }

-- "world"
abbrev pub world : Bytes
world = 119 ∷ 111 ∷ 114 ∷ 108 ∷ 100 ∷ []

abbrev pub frame_or_world : Bytes → Bytes
frame_or_world [] = world
frame_or_world (b ∷ bs) = b ∷ bs

-- A pose of ROS is known by its position and its orientation.
module _ (d : Doubles) (m : Members d.Double) where
  open d use {Float, Double}
  open m use {Carrier}

  -- geometry_msgs::PoseStamped
  unfoldable pub of_pose_stamped :
      Pose Float Double
      → RosTime
      → Bytes
      → Stamped (Carrier × Carrier)
      → Stamped (Carrier × Carrier)
  of_pose_stamped p stamp frame_id target = record {
    header = record { sec = stamp.sec; nsec = stamp.nsec; frame_id = frame_id };
    content = of_pose d m p target.content;
  }

  unfoldable pub to_pose_stamped :
      Stamped (Carrier × Carrier) → Pose Float Double → Pose Float Double
  to_pose_stamped from target = to_pose d m from.content target

  -- `fresh` is a new message.
  unfoldable pub to_poses :
      Pose Float Double
      → Header
      → List (Stamped (Carrier × Carrier))
      → Poses Float Double
      → Poses Float Double
  unfolding of_header to_pose_stamped
  to_poses fresh header poses target = record {
    timestamp = of_header header;
    frame = frame_or_world header.frame_id;
    poses = target.poses ++ map (λ p. to_pose_stamped p fresh) poses;
  }

  -- The loop from the `i`-th pose on writes to `to->poses[i]`, the header with the pose: the frame is
  -- the default of the conversion, the empty one, and `now i` is what `ros::Time::now` returns then.
  unfoldable pub write_poses :
      (ℕ → RosTime)
      → ℕ
      → List (Pose Float Double)
      → List (Stamped (Carrier × Carrier))
      → Result (List (Stamped (Carrier × Carrier)))
  unfolding of_pose_stamped
  write_poses now i [] target = ok target
  write_poses now i (p ∷ poses) target = do
    old ← read_at target i
    written ← write_at target i (of_pose_stamped p (now i) [] old)
    write_poses now (suc i) poses written

  unfoldable pub of_poses :
      (ℕ → RosTime)
      → Poses Float Double
      → List (Stamped (Carrier × Carrier))
      → Result (List (Stamped (Carrier × Carrier)))
  unfolding write_poses
  of_poses now poses target = write_poses now 0 poses.poses target

  -- What is written, pose by pose, to as many poses, from the `i`-th time on.
  abbrev pub zipped :
      (ℕ → RosTime)
      → ℕ
      → List (Pose Float Double)
      → List (Stamped (Carrier × Carrier))
      → List (Stamped (Carrier × Carrier))
  zipped now i [] target = target
  zipped now i (p ∷ poses) [] = []
  zipped now i (p ∷ poses) (old ∷ target) =
      record {
        header = record { sec = (now i).sec; nsec = (now i).nsec; frame_id = [] };
        content = of_pose d m p old.content;
      }
      ∷ zipped now (suc i) poses target

  set-append :
      {A : Type 0} (xs ys : List A) (a b : A) → set (xs ++ a ∷ ys) (length xs) b ≡ xs ++ b ∷ ys
  set-append [] ys a b = refl
  set-append (x ∷ xs) ys a b = ap (λ l. x ∷ l) (set-append xs ys a b)

  write_at-append :
      {A : Type 0} (xs ys : List A) (a b : A)
      → write_at (xs ++ a ∷ ys) (length xs) b ≡ ok (xs ++ b ∷ ys)
  write_at-append xs ys a b =
      write_at_ok (xs ++ a ∷ ys) (length xs) b (omega (arith, length-append xs (a ∷ ys)))
      ∙ ap ok (set-append xs ys a b)

  write_poses-zipped :
      (now : ℕ → RosTime) (poses : List (Pose Float Double))
      (before target : List (Stamped (Carrier × Carrier)))
      → length poses ≤ length target
      → write_poses now (length before) poses (before ++ target)
        ≡ ok (before ++ zipped now (length before) poses target)
  unfolding write_poses of_pose_stamped
  write_poses-zipped now [] before target room = refl
  write_poses-zipped now (p ∷ poses) before [] room = absurd (omega arith)
  write_poses-zipped now (p ∷ poses) before (old ∷ target) room =
      let new = of_pose_stamped p (now (length before)) [] old in
      let len : length (before ++ new ∷ []) ≡ suc (length before) =
        omega (arith, length-append before (new ∷ [])) in
      let rest =
        rw
          (
            len,
            append_assoc before (new ∷ []) target,
            append_assoc before (new ∷ []) (zipped now (suc (length before)) poses target),
          )
          at (write_poses-zipped now poses (before ++ new ∷ []) target (omega arith)) in
      rw (read_there before target old) (rw (write_at-append before target old new) rest)

  write_poses_short :
      (now : ℕ → RosTime) (poses : List (Pose Float Double))
      (before target : List (Stamped (Carrier × Carrier)))
      → length target < length poses
      → write_poses now (length before) poses (before ++ target) ≡ fault Fault.out_of_bounds
  unfolding write_poses of_pose_stamped
  write_poses_short now [] before target short = absurd (omega arith)
  write_poses_short now (p ∷ poses) before [] short =
      rw (append-nil, get_elem?-none before (length before) (omega arith)) refl
  write_poses_short now (p ∷ poses) before (old ∷ target) short =
      let new = of_pose_stamped p (now (length before)) [] old in
      let len : length (before ++ new ∷ []) ≡ suc (length before) =
        omega (arith, length-append before (new ∷ [])) in
      let rest =
        rw (append_assoc before (new ∷ []) target, len) at
          (write_poses_short now poses (before ++ new ∷ []) target (omega arith)) in
      rw (read_there before target old) (rw (write_at-append before target old new) rest)

  -- The conversion of poses writes each to the pose at its place, its header too, which gets the time
  -- and the empty frame instead of the frame and timestamp of the poses, and leaves the further ones
  -- alone, if the path has at least as many; otherwise, as for a new path, it writes out of bounds.
  pub of_poses_lem :
      (now : ℕ → RosTime) (poses : Poses Float Double) (target : List (Stamped (Carrier × Carrier)))
      → of_poses now poses target ≡ (
          if leb (length poses.poses) (length target)
          then ok (zipped now 0 poses.poses target)
          else fault Fault.out_of_bounds)
  unfolding of_poses
  of_poses_lem now poses target = elim (Bool-cases (leb (length poses.poses) (length target))) [
    | inl e ↦ rw e (write_poses-zipped now poses.poses [] target (ground arith))
    | inr e ↦ rw e (write_poses_short now poses.poses [] target (ground arith))
  ]
