-- ===== src/Conversions/Pointcloud.antt =====
-- src/Types/Conversions/rock/Pointcloud.hpp.
use robot_remote_control.Base.{
  ℕ, ◌%◌, ◌≡◌, refl, ap₂, Bool-cases, inl, inr, ◌==◌, if◌then◌else◌, List, [], ◌∷◌, ◌++◌, map,
}
use robot_remote_control.Bytes.{Bytes, str_eq}
use robot_remote_control.Doubles.{Doubles}
use robot_remote_control.Conversions.{Members}
use robot_remote_control.Conversions.Messages.{Position, ChannelFloat, PointCloud}
use robot_remote_control.Conversions.Times.{RockTime, of_time_stamp}
use robot_remote_control.Conversions.Vectors.{to_position, of_position, to_position-of_position}

-- "color_rgba"
abbrev pub color_rgba : Bytes
color_rgba = 99 ∷ 111 ∷ 108 ∷ 111 ∷ 114 ∷ 95 ∷ 114 ∷ 103 ∷ 98 ∷ 97 ∷ []

-- base::samples::Pointcloud
pub record RockCloud (T P C : Type 0) : Type 0 where
  pub time : T
  pub points : List P
  pub colors : List C

-- `m` are the points and `n` the colours.
module _ (d : Doubles) (r : RockTime) (m n : Members d.Double) where
  open d use {Float, Double, narrow, widen}

  abbrev pub Cloud : Type 0
  Cloud = RockCloud r.Time m.Carrier n.Carrier

  -- Each colour becomes a channel of its own.
  unfoldable pub color_channel : n.Carrier → ChannelFloat Float
  color_channel color = record {
    name = color_rgba;
    values =
        narrow (n.get 0 color)
        ∷ narrow (n.get 1 color)
        ∷ narrow (n.get 2 color)
        ∷ narrow (n.get 3 color)
        ∷ [];
  }

  -- What the message holds of points and channels is kept, and its time is left alone. `origin` is that
  -- of a new message.
  unfoldable pub to_point_cloud :
      Position Double → Cloud → Bytes → PointCloud Float Double → PointCloud Float Double
  unfolding color_channel to_position
  to_point_cloud origin cloud frame target = record target {
    points = target.points ++ map (λ p. to_position d m p origin) cloud.points;
    channels = target.channels ++ map color_channel cloud.colors;
    frame = frame;
  }

  -- The loop over the values of a channel. `index` is never increased.
  unfoldable pub color_loop : ℕ → List Float → n.Carrier → List n.Carrier → List n.Carrier
  color_loop index [] rock_color colors = colors
  color_loop index (color ∷ values) rock_color colors =
      let colorindex = index % 4 in
      let rock_color' = n.set colorindex (widen color) rock_color in
      color_loop index values rock_color'
        (if colorindex == 3 then colors ++ rock_color' ∷ [] else colors)

  -- `garbage` is the value of the new base::Vector4d, which is not initialised.
  unfoldable pub channel_loop :
      n.Carrier → List (ChannelFloat Float) → List n.Carrier → List n.Carrier
  unfolding color_loop
  channel_loop garbage [] colors = colors
  channel_loop garbage (channel ∷ channels) colors = channel_loop garbage channels (
      if str_eq channel.name color_rgba then color_loop 0 channel.values garbage colors else colors)

  -- `fresh` is a new base::Point.
  unfoldable pub of_point_cloud : m.Carrier → n.Carrier → PointCloud Float Double → Cloud → Cloud
  unfolding channel_loop of_position of_time_stamp
  of_point_cloud fresh garbage cloud target = record {
    time = of_time_stamp r cloud.timestamp;
    points = map (λ p. of_position d m p fresh) cloud.points;
    colors = channel_loop garbage cloud.channels [];
  }

  color_loop-zero :
      (values : List Float) (color : n.Carrier) (colors : List n.Carrier)
      → color_loop 0 values color colors ≡ colors
  unfolding color_loop
  color_loop-zero [] color colors = refl
  color_loop-zero (v ∷ values) color colors =
      color_loop-zero values (n.set 0 (widen v) color) colors

  channel_loop-colors :
      (garbage : n.Carrier) (channels : List (ChannelFloat Float)) (colors : List n.Carrier)
      → channel_loop garbage channels colors ≡ colors
  unfolding channel_loop
  channel_loop-colors garbage [] colors = refl
  channel_loop-colors garbage (channel ∷ channels) colors =
      elim (Bool-cases (str_eq channel.name color_rgba)) [
        | inl e ↦
            rw (e, color_loop-zero channel.values garbage colors)
              (channel_loop-colors garbage channels colors)
        | inr e ↦ rw e (channel_loop-colors garbage channels colors)
      ]

  points-back :
      (fresh : m.Carrier) (origin : Position Double) (points : List (Position Double))
      → map (λ p. to_position d m p origin) (map (λ p. of_position d m p fresh) points) ≡ points
  points-back fresh origin [] = refl
  points-back fresh origin (p ∷ points) =
      ap₂ ◌∷◌ (to_position-of_position d m p origin fresh) (points-back fresh origin points)

  -- A message that is converted to ROCK and back into a message without points and channels has the
  -- same points, in their order, and no colours: whatever channels it had, the cloud gets no colour.
  -- The frame is the one that is given, and the time stays that of the message that is written to.
  pub to_point_cloud-of_point_cloud :
      (fresh : m.Carrier) (garbage : n.Carrier) (origin : Position Double) (frame : Bytes)
      (cloud target : PointCloud Float Double) (old : Cloud)
      → target.points ≡ []
      → target.channels ≡ []
      → ((of_point_cloud fresh garbage cloud old).colors ≡ [])
        × (to_point_cloud origin (of_point_cloud fresh garbage cloud old) frame target
            ≡ record cloud { timestamp = target.timestamp; frame = frame; channels = [] })
  unfolding to_point_cloud of_point_cloud
  to_point_cloud-of_point_cloud fresh garbage origin frame cloud target old no_points no_channels =
      (
        channel_loop-colors garbage cloud.channels [],
        rw (
          no_points,
          no_channels,
          channel_loop-colors garbage cloud.channels [],
          points-back fresh origin cloud.points,
        ),
      )
