-- ===== src/Lib.antt =====
-- The sensor daemon of device/sony/nicki/sensors/daemon and, of device/sony/nicki/gps, the utilities in C and
-- the state machine, threads, pipes and sessions of the engine; with the HAL that joins the sensor HALs and
-- the lights HAL, modelled and verified.
--
-- The daemon reads commands of its clients (a sensor's handle, a command, a value), keeps the channels
-- that are on, powers the chips that their products need, and lets one thread compute and report the
-- samples. Its parts, below device/sony/nicki/sensors/daemon, and the files that model them:
--   src/lib/util_misc.c       Sensord/UtilMisc: divisors, token pairs, the intrusive list over a memory of
--                             `next` fields
--   src/hw/hw_cntl.c          Sensord/Hw: the table of chips and their reference counts; the drivers are a
--                             parameter `Driver Dev`. hw/a/chip and hw/m/chip: Hw/Remap
--   src/hw/a/hw_cntl_a.c      Sensord/Hw/DriverA: the acceleration chip's settings and readings
--   src/algo/algo_adapter.c,  Sensord/Fusion: State (products, modules, variables), Deps (what a product
--   src/sensor_fusion.c       needs, counted), Rates (data rates and intervals), Product (switching)
--   src/sensor_provider.c     Sensord/Provider: State (channels, provider, world), sp_enable_ch and its
--                             parts, Process (a pass of re_proc), Instances (the two providers)
--   src/channel_cntl.c        Sensord/Channel: the commands; Boot: the start and sequences of commands
--                             Sensord/Daemon: the provider's thread, its sleep and its passes, with the
--                             commands between them
--   src/event_handler.c       Sensord/Events: the frames of the command pipe
--   src/lib/util_time.c       Sensord/Time: the ticks and the sleeps
-- The GPS library keeps its messages in a queue on a doubly linked list, below device/sony/nicki:
--   gps/utils/linked_list.c   Gps/LinkedList: the list on a heap of elements; Search: linked_list_search
--   gps/utils/msg_q.c         Gps/MsgQ: sending, receiving, unblocking; creation and destruction
--   gps/utils/loc_timer.c     Gps/Timer: a timer's thread in steps, its start and stop
-- The engine, below device/sony/nicki/gps/loc_api/libloc_api_50001:
--   loc_eng_dmn_conn_thread_helper.c   LocApi/ThreadHelper: a thread that runs its owner's procedures
--   loc_eng_agps.cpp, .h      LocApi/Agps: the state machine of the connection for assisted GPS, whose list of
--                             subscribers is one of gps/utils/linked_list.c
--                             Agps/Ds: the machine of the data call for emergency SUPL, with its retries
--   loc_eng_nmea.cpp          LocApi/Nmea: the checksum, and the sentences of the satellites in view
--   loc_eng_dmn_conn_glue_pipe.c, _msg.c   LocApi/Pipe: messages with their size in front, in pipes
--   loc_eng_dmn_conn.cpp, loc_eng_dmn_conn_handler.cpp   LocApi/Server: the server of the daemon's requests
--   loc_eng_ni.cpp            LocApi/Ni: the session of a network-initiated request, with its threads
-- The HAL of the sensors, below device/sony/nicki/sensors, gives a global handle to each sensor of its
-- sub-modules, passes calls on and merges their events; a writer thread fills a queue for each of them:
--   SensorEventQueue.cpp      MultiHal/Queue: the circular queue
--   multihal.cpp              MultiHal/Handles: the two maps of handles; Sensors: sub-modules, the list of
--                             sensors and the opening; Calls: activate, setDelay, batch, flush, injection;
--                             Poll: the poll
-- device/sony/nicki/liblights/lights.cpp   Lights: backlight, LED, and the opening of lights
-- The definitions keep the names of the C functions. A provider is a record `Ops` of callbacks over its
-- own variables, as `struct sensor_provider` is; the client code takes it as a parameter, and
-- `fusion_ops` and `pressure_ops` fill it.
--
-- How C is rendered. A pointer to a channel is its index in g_list_ch, NULL is `none`; an object that is
-- changed through a pointer is passed in and out. A bit field is its bit pattern, with the wrap written
-- out (ref:5, ref:6, ref:8, client_num:6); `int` is an integer without bounds, and conversions to
-- 16 and 32 bits are written where the code converts. A bitmap of chips is a list of seven bits. The calls
-- into the algorithm library (a binary) and the settings of the chips are a log.
--
-- Threads. A thread of GPS is a function from a state, with the place that it is at, to the next one, cut
-- where a lock is taken or given back; what the platform or a procedure answers is a parameter of the step.
-- The calls of other threads come between steps: a family `Steps` of runs. The list of subscribers of
-- LocApi/Agps is a List, as Gps/LinkedList shows of its list. A Notification to one receiver that
-- deletes it is read again by the next search, in memory that is freed: what is read there is a field
-- of the machine, which may be any value. A caller that waits for a message sleeps until a broadcast.
--
-- Atomic steps. The writer's stores into a region of a multihal queue come between the reader's steps; all
-- else of multihal runs under its lock. The steps of LocApi/Ni are cut at its lock; the restart of the
-- engine, which works outside of it, is one step.
--
-- Fuel. The loops over the intrusive list take fuel. The code's calls give one more than the number of
-- channels, since a channel is in the list at most once. Euclid's loop gets one more round than its
-- smaller argument. The list of GPS and its search take fuel for the elements; the loop of
-- notifySubscribers gets one more search than there are subscribers; the loop that destroys a timer's
-- mutex makes seven calls at most, each a step of its thread. The inner loop of multihal's poll gets one
-- more pass than its measure, which every pass lowers.
--
-- The build. Constants and tables are those of configure-m.h (ACC, MAG, ORI) with HW_ID_A_BMC050 and
-- HW_ID_M_BMC050; the functions are modelled for all sensor types of the switch statements. The sizes of
-- messages are those of a size_t of 4 bytes, and struct exchange has the layout of the 32-bit ARM ABI.
--
-- Parameters. Reads and writes of a pipe, the sub-modules of multihal with their devices, the libraries
-- that are loaded, the vendor's lights, the lengths of formatted numbers and `double` arithmetic.
--
-- Not modelled. File and sysfs access, logging, and the locks of the daemon: each command and each pass is
-- one step, as the provider's lock makes them. The driver of the magnetic chip and the configuration
-- files. Of loc_eng_agps.cpp, the APN, the bearer and the destructor; of loc_eng_nmea.cpp, the sentences
-- of a position and the values kept for them; of lights.cpp, the closing. The rest of GPS, NFC, camera and
-- the rest of the tree.
pub mod Gps
pub mod Lights
pub mod LocApi
pub mod MultiHal
pub mod Prelude
pub mod Sensord
