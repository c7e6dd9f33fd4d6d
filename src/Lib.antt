-- ===== src/Lib.antt =====
-- Verification library of soem_driver_ros2, a ros2_control hardware driver over the EtherCAT master
-- SOEM.
--
-- The driver (soem_driver/src/soem_driver.cpp) loads a module for each slave of the bus. The claims
-- resolver (soem_driver/src/claims_resolver.cpp) asks the modules for their interfaces, gives each
-- joint the interfaces that it claims, and passes a command mode switch of the controllers on to the
-- slaves that the joints' interfaces belong to. The module of the Trinamic TMCM-1610
-- (soem_slave_modules/soem_modules_trinamic) answers such a switch, and runs a state machine that reads
-- and writes the process data and the mailbox of its slave. The master (soem_driver/src/soem_master.cpp)
-- exchanges both with the bus in the cycles of a thread of its own.
--
-- Files:
--   Base       lists, texts (a std::string is the list of its bytes), dictionaries (an unordered_map
--              is an association list in the order of its iteration) and Boolean tests
--   Slave      soem_driver_slave.hpp: the methods of a module that the resolver calls, as a record
--              of operations over the states of the modules
--   Claims     the class ECClaimsResolver. Tokens: tokenize_string, tokenize_interface. Resolve: init
--              and the two resolve methods, with the bodies of their loops as functions. Export: the
--              two export methods. Switch: prepare_command_mode_switch, perform_command_mode_switch.
--              Resolve/Offers is the description of what a claim offers that they are compared with
--   Trinamic   tmcm1610.cpp and its headers. Endian: common.hpp. Tmcl: tmcl.hpp. Modes: the command
--              modes and the two switch methods. Pdo: the packed structs and how they are copied.
--              States and Reactions: the states of the machine, their enter, react, update and plan
--              methods. Reactions/Plans and Homing: the planned regions as sequences of stages.
--              Module: the exports, read() and write() around the machine. Configure: configure().
--              Log: the lists in the log line of a refused switch
--   Mock       soem_mock_module.cpp: the module for tests
--   Master     soem_master.cpp: one cycle of cyclic_task as a function of what SOEM and the clock answer in
--              it, its mailboxes (Mailboxes) and its counters and transfers (Cycle); a run of the task is
--              a list of answers. Bus: the sizes of process data in init, and bus_up_OP, whose wait is
--              recursion on its count of 200. Setup: init and start_bus, with the list of the slaves on
--              the bus and the buffers of each. Threads: the transfers of process data between the
--              thread of the driver and the cyclic task, with run and stop, as a sequence of events in
--              which each access to an atomic flag is an event
--   Driver     soem_driver.cpp. Mailboxes: the mailbox of a slave between its module, read() and write()
--              and the cyclic task, as a sequence of actions of these threads, in which each store to a
--              flag by write() is an action. The other actions change flags that the other thread only
--              reads, or that it does not store to then. Modes: the two mode switch methods. Urdf:
--              parse_hardware_info and the methods that it calls: the search for the hardware tag
--              (Hardware), the slaves (Slaves), the joints' claims (Joints), and the driver's fields that
--              they set (Info). Configure: on_configure, with the driver's modules kept by their names.
--              Load: on_init, with the loading of modules and transmissions. Lifecycle: the other
--              callbacks, with run and stop of the master, and the order in which ROS calls them as a
--              step relation, and the destructors. Update: read() and write() over all initialized slaves,
--              with cycles of the master between them, over what a module reaches (Views). Diagnostics: the
--              message of the timer, with soem_master_helpers_ros.hpp. Publisher: the start and the stop of
--              the node for diagnostics, with its executor and its thread; Configure and Lifecycle see it as
--              running or not. Configure/Hooks: the call of the SDO hooks. Export: the two exports, with
--              what each transmission is configured with and the map that the mode switches use
--   */Tests    the theorems applied to concrete inputs
--
-- Conventions: an integer of w bits is its bit pattern, a number below 2 ^ w. Undefined behaviour
-- is a value of its own: `none` where tokenize_interface writes behind its array, where the cyclic
-- task reads behind the end of a received mailbox, where start_bus or on_init would use an element
-- behind the end of a vector, where read() or write() of the driver would use an entry or a part of
-- the process data that is not there, where an export would use a null pointer to a transmission,
-- and where read() of the TMCM-1610 overflows an integer; `undefined` where a write reaction
-- overflows an integer or converts a double that is out of range; `crashes` where a method that
-- parses uses a null pointer, which otherwise returns or throws. Log lines are left out. The other
-- loops are recursion on the list that they walk over, so no fuel is used.
--
-- Parameters, for code that is not in the repository: an XML document of tinyxml2 with std::stoi, as
-- the record Xml, and the nodes of yaml-cpp, as the record Yaml; std::stoi and std::stod for the
-- parameters of a module; the arithmetic of double (Trinamic/Doubles); the loading of plugins;
-- get_name() of a handle of ros2_control; the two operations of each pair of transmissions, and the
-- wrapper of diagnostic_updater, as the record StatusWrapper; SOEM, whose answers are arguments, and
-- the input of a cycle with the number of errors in its list; the results of push of the queues; and
-- hfsm2, which carries out the plans of the state machine. What is assumed about them is named: for
-- plans of hfsm2, PlanLaws, that succeed() in the origin of the next task changes to its destination,
-- and that a handler that asks for nothing changes nothing; for messages, Lawful, that a merged summary
-- has the higher level and that values are added behind the others under their keys; for the status
-- that is published, Room, that no counter wraps in a cycle and that an error that SOEM reports in it
-- is in its list; and for read() and write(), InOrder, that SOEM maps each slave inside of the process
-- data. For the driver, the methods of a module are parameters too.
--
-- Not modelled: what transmissions compute; log lines, thread priorities, and the map from SOEM's
-- contexts to masters.
pub mod Base
pub mod Slave
pub mod Claims
pub mod Driver
pub mod Master
pub mod Mock
pub mod Trinamic
