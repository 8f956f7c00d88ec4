-- ===== src/Tests/Samples.antt =====
-- A concrete environment and concrete states to run the model in.
use robot_remote_control.Base.{
  if◌then◌else◌, refl, ℕ, Bool, true, false, not, ◌==◌, List, [], ◌∷◌, ◌++◌,
}
use robot_remote_control.Base.Int.{ℤ, pos, pos_part}
use robot_remote_control.Bytes.{Bytes}
use robot_remote_control.Types.{Kind, Protobuf}
use robot_remote_control.Floats.{exact}
use robot_remote_control.Transport.{Link, link}
use robot_remote_control.Env.{Env}

-- A message is its class and its content. Its serialization has a zero in front, and only such
-- strings and the empty one can be parsed.
pub record Note : Type 0 where
  pub class_of : Kind
  pub content : Bytes

abbrev pub first_byte : Bytes → ℕ
first_byte [] = 0
first_byte (b ∷ bs) = b

abbrev pub behind_first : Bytes → Bytes
behind_first [] = []
behind_first (b ∷ bs) = bs

abbrev pub joined : List Bytes → Bytes
joined [] = []
joined (s ∷ ss) = s ++ joined ss

abbrev pub parse_note : Kind → Bytes → Bool × Note
parse_note k [] = (true, record { class_of = k; content = [] })
parse_note k (b ∷ bs) =
    if b == 0
    then (true, record { class_of = k; content = bs })
    else (false, record { class_of = k; content = [] })

abbrev pub notes : Protobuf ℤ
notes = record {
  Message = Note;
  kind_of = λ m. m.class_of;
  empty = λ k. record { class_of = k; content = [] };
  serialize = λ m. 0 ∷ m.content;
  parse = parse_note;
  heartbeatduration = λ m. pos (first_byte m.content);
  requestuid = λ m. behind_first m.content;
  granted = λ m. not (first_byte m.content == 0);
  sensor_id = λ m. first_byte m.content;
  log_level = λ m. first_byte m.content;
  new_heart_beat = λ d. record { class_of = Kind.heart_beat; content = pos_part d ∷ [] };
  new_log_message = λ level text. record { class_of = Kind.log_message; content = level ∷ text };
  new_robot_state = λ ss. record { class_of = Kind.robot_state; content = joined ss };
  states = λ m. m.content ∷ [];
  parse-serialize = λ m. refl;
}

abbrev pub sample : Env
sample = record { floats = exact; protobuf = notes; transport = link }

-- A connection on which nothing was sent, with the messages that wait.
abbrev pub waiting : List Bytes → Link
waiting ms = record { inbox = ms; outbox = [] }
