-- ===== src/Lib.antt =====
-- Robot Remote Control: a library by which a controller drives robots and watches them.
--
-- A `ControlledRobot` runs on the robot and a `RobotController` at the operator. They talk over two
-- connections. On the command channel the controller sends a message and the robot answers it:
-- commands, which the robot stores for its application and acknowledges; requests for the telemetry
-- or the map that the robot stored last; log levels; permissions; heartbeats. On the telemetry
-- channel the robot sends data as it comes. Every message is a two-byte type and a serialized
-- protobuf message behind it.
--
-- The files and the code that they are about, with paths from the root of the repository:
--   Base         numbers, lists, results with faults, integers and association lists
--   Bytes        byte strings and the type in front of a message, in host order (little endian)
--   Types        the message classes of src/Types/RobotRemoteControl.proto, as an interface
--   MessageTypes src/MessageTypes.hpp, the numbers of the messages
--   Floats       float arithmetic as an interface, with exact numbers as an instance
--   Timer        src/UpdateThread/Timer.hpp and Timer.cpp
--   Transport    src/Transports/Transport.hpp, as an interface, with a link in memory as an instance
--   Env          the interfaces together
--   RingBuffer   src/RingBuffer.hpp. Queue is the specification, Valid the invariant, Push, Pop,
--                Calls and Resize the operations against it; Access is RingBufferAccess, Latest
--                and Placed are buffers of capacity 1 alone and in a vector (Slots), Kept is what calls on
--                one buffer of a vector leave as it was
--   TelemetryBuffer, SimpleBuffer   src/TelemetryBuffer.hpp and .cpp, src/SimpleBuffer.hpp
--   ControlledRobot   src/ControlledRobot/ControlledRobot.hpp and .cpp. The state and the
--                constructor stand in the file itself; Commands is CommandBuffer, Promises the
--                promises of permissions, Sending is sendTelemetry and its callers, Requests is
--                receiveRequest and evaluateRequest, Update is update, Setup, Setters and Getters
--                are the interface to the application. Replies, Stored, Handling, Granting, Logging and
--                Heartbeat are about their behaviour; Sound, Keeping and Reachable about an
--                invariant of all states that a robot reaches
--   RobotController   src/RobotController/RobotController.hpp and .cpp. The state and the
--                constructor stand in the file itself; Requests is sendRequest and its callers,
--                Receiving is evaluateTelemetry, Reading are the getters, Asking the requests,
--                Update is update. Replied, Delivered, Sensors, Stream and Unsupported are about
--                their behaviour, Sound about the constructor; Keeping and Reachable about an
--                invariant of all states that a controller reaches
--   UpdateThread src/UpdateThread/UpdateThread.hpp and .cpp, as interleaved moves of the thread and of
--                the application that starts and stops it
--   LockableClass   src/UpdateThread/LockableClass.hpp and threads that use it. Serial is about the order
--                in which their scopes take effect, Progress about what they can complete
--   Session      a controller and a robot together. Commanding is about commands, Requesting about maps,
--                log levels and heartbeats, Maps about point clouds and grids, Streaming about telemetry
--   Statistics   src/Statistics.hpp and .cpp; Totals is about what they count
--   Doubles      float and double arithmetic as an interface, for the statistics and the conversions
--   Conversions  src/Types/Conversions. Messages has the messages, with their fields as records; Vectors
--                is rock/Eigen.hpp, rock/Pose.hpp and rock/IMUSensors.hpp, Times rock/Time.hpp, Joints
--                rock/Joints.hpp, Pointcloud rock/Pointcloud.hpp, Mls rock/MLS.hpp, Motion
--                rock/Motion2d.hpp, RockSamples rock/RigidBodyState.hpp and rock/SubTrajectory.hpp, Ros
--                ros/nav_msgs/Path.hpp with ros/geometry_msgs/Pose.hpp, RosJoints
--                ros/sensor_msgs/JointState.hpp, RosGeometry the rest of ros/geometry_msgs, ros/tf
--                and ros/nav_msgs/Odometry.hpp, RosSensors the rest of ros/sensor_msgs. Below
--                Joints and Mls stands what is proved of them
--   JointController   examples/JointControllerMain.cpp. Copying is about the states that it copies, Keys
--                about a key, Turning about its loop
--   Extension    examples/extending/src: a robot and a controller with types of an application,
--                which ExtendedRobot and ExtendedController are about
--   UdtTransport src/Transports/TransportUDT.hpp and .cpp, sending and receiving; Connecting is the
--                thread that makes the connection
--   ZmqTransport src/Transports/TransportZmq.hpp and .cpp
--   GzipTransport   src/Transports/TransportWrapperGzip.hpp and .cpp, with zlib as an interface
--   Tests        runs and concrete cases
--
-- How the code is modelled. A class is a record of its members and a member function a function
-- from the record to its result and the new record. What the language leaves undefined, and every
-- exception that nothing catches, is a fault: an index past the end of a vector, a call through a
-- null pointer, a division by zero, the conversion of a float that does not fit, an exception of a
-- transport, a function that ends without the value it has to return. Sizes wrap around at 2^64 and
-- the type of a message at 2^16. A call of an application's callback is noted in the state with its
-- arguments, in order. The times that `gettimeofday` returns and the values of members that are not
-- initialised are arguments.
--
-- The loops take fuel: those of the two `update` functions one round for each message that waits and
-- one more, the polling of `sendRequest` one for each reading of the clock until the maximal latency
-- has passed: a round takes a message off the connection, or reads the clock.
--
-- What is not modelled: the interleaving of the calls of the robot and the controller, each of which is
-- taken as one step (LockableClass shows why that may be done for what one scope of a lock does); the
-- socket, compression and protobuf libraries, which are interfaces; what is printed; the other
-- examples.
pub mod Base
pub mod Bytes
pub mod Types
pub mod RingBuffer
pub mod SimpleBuffer
pub mod MessageTypes
pub mod Floats
pub mod Timer
pub mod Transport
pub mod Env
pub mod ControlledRobot
pub mod TelemetryBuffer
pub mod Tests
pub mod RobotController
pub mod UpdateThread
pub mod GzipTransport
pub mod UdtTransport
pub mod Session
pub mod JointController
pub mod Extension
pub mod LockableClass
pub mod Doubles
pub mod Conversions
pub mod Statistics
pub mod ZmqTransport
