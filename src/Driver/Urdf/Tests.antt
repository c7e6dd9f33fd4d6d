-- ===== src/Driver/Urdf/Tests.antt =====
-- A robot description with one hardware of two slaves, read from a document of eleven elements.
use soem_driver_ros.Base.{
  ℕ, ◌-◌, ◌≡◌, refl, true, if◌then◌else◌, List, [], ◌∷◌, Option, none, some, Text, codes, text_eq,
  Dict, lookup, assign, or_default,
}
use soem_driver_ros.Driver.Urdf.Xml.{get_int, returns, crashes, Xml, ending, returned, thrown}
use soem_driver_ros.Driver.Urdf.Hardware.{parse_hardware_from_doc}
use soem_driver_ros.Driver.Urdf.Slaves.{EcSlavePluginInfo, parse_slaves_from_hardware}
use soem_driver_ros.Driver.Urdf.Slaves.Described.{
  AllDescribed, all_well_formed, parse_slaves_from_hardware-AllDescribed,
  parse_slaves_from_hardware-ending,
}
use soem_driver_ros.Driver.Urdf.Joints.{Yaml, ComponentInfo, parse_joint_claims}
use soem_driver_ros.Driver.Urdf.Info.{HardwareInfo, Configuration, parse_hardware_info}
use soem_driver_ros.Driver.Urdf.Info.Stored.{Stored, parse_hardware_info-Stored}

pub data Tag : Type 0 where
  robot other control hardware interface four left right zero plugin param : Tag

-- The elements below one, by tag.
abbrev tags : Tag → Dict (List Tag)
tags robot = (codes "ros2_control", other ∷ control ∷ []) ∷ []
tags control = (codes "hardware", hardware ∷ []) ∷ []
tags hardware =
    (codes "ec_interface", interface ∷ [])
    ∷ (codes "ec_cycle_us", four ∷ [])
    ∷ (codes "ec_timeout_mbxrx_us", four ∷ [])
    ∷ (codes "ec_slave", left ∷ right ∷ [])
    ∷ []
tags left =
    (codes "alias", zero ∷ [])
    ∷ (codes "position", four ∷ [])
    ∷ (codes "plugin", plugin ∷ [])
    ∷ (codes "param", param ∷ [])
    ∷ []
tags right =
    (codes "alias", four ∷ []) ∷ (codes "position", zero ∷ []) ∷ (codes "plugin", plugin ∷ []) ∷ []
tags _ = []

abbrev texts : Tag → Option Text
texts interface = some (codes "eth0")
texts four = some (codes "4")
texts zero = some (codes "0")
texts plugin = some (codes "tmcm1610")
texts param = some (codes "on")
texts _ = none

abbrev names : Tag → Option Text
names other = some (codes "other")
names control = some (codes "robot1")
names left = some (codes "left")
names right = some (codes "right")
names param = some (codes "diag")
names _ = none

-- A number of one digit.
abbrev digit : Text → Option ℕ
digit (d ∷ []) = some (d - 48)
digit _ = none

abbrev pub document : Xml
document = record {
  Element = Tag;
  parse = λ t. some (some robot);
  tag_name = λ e. codes "robot";
  get_text = texts;
  attribute = λ e k. if text_eq k (codes "name") then names e else none;
  children = λ e tag. or_default [] (lookup tag (tags e));
  stoi = digit;
}

-- A sequence of one scalar for each character.
abbrev pub letters : Yaml
letters = record {
  Node = Text;
  load = λ t. some t;
  is_scalar = λ t. true;
  is_sequence = λ t. true;
  elements = each;
  as_string = λ t. t;
  as_bool = λ t. none;
}
  where
    each : Text → List Text
    each [] = []
    each (c ∷ cs) = (c ∷ []) ∷ each cs

abbrev left_info : EcSlavePluginInfo
left_info = record {
  name = codes "left";
  alias = 0;
  position = 4;
  plugin_name = codes "tmcm1610";
  parameters = (codes "diag", codes "on") ∷ [];
}

abbrev right_info : EcSlavePluginInfo
right_info = record {
  name = codes "right";
  alias = 4;
  position = 0;
  plugin_name = codes "tmcm1610";
  parameters = [];
}

abbrev joints : List ComponentInfo
joints =
    record { name = codes "j"; parameters = (codes "ec_claims", codes "ab") ∷ [] }
    ∷ record { name = codes "j"; parameters = [] }
    ∷ []

abbrev claims : Dict (List Text)
claims = (codes "j", codes "a" ∷ codes "b" ∷ []) ∷ []

abbrev pub defaults : Configuration
defaults = record {
  diagnostics_cycle_ms = 0;
  ec_interface = [];
  ec_cycle_us = 0;
  timeout_process_data = 2000;
  timeout_mbx_receive = 10000;
  timeout_mbx_send = 10000;
  slave_infos = [];
  joint_claims = [];
}

abbrev pub configured : Configuration
configured = record {
  diagnostics_cycle_ms = 100;
  ec_interface = codes "eth0";
  ec_cycle_us = 4;
  timeout_process_data = 2000;
  timeout_mbx_receive = 4;
  timeout_mbx_send = 10000;
  slave_infos = left_info ∷ right_info ∷ [];
  joint_claims = claims;
}

abbrev pub hardware_info : HardwareInfo
hardware_info = record { name = codes "robot1"; original_xml = codes "x"; joints = joints }

parse_hardware_info-Stored_example :
    (root : Option Tag) × (h : Tag) × (document.parse hardware_info.original_xml ≡ some root)
    × (parse_hardware_from_doc document root hardware_info.name ≡ returns h)
    × Stored document letters hardware_info.joints h defaults configured
unfolding parse_hardware_info parse_hardware_from_doc get_int parse_slaves_from_hardware
    parse_joint_claims lookup assign text_eq
parse_hardware_info-Stored_example =
    parse_hardware_info-Stored document letters hardware_info defaults configured refl

parse_slaves_from_hardware-AllDescribed_example :
    AllDescribed document
      (document.children hardware (codes "ec_slave"))
      (left_info ∷ right_info ∷ [])
unfolding parse_slaves_from_hardware lookup assign text_eq
parse_slaves_from_hardware-AllDescribed_example =
    parse_slaves_from_hardware-AllDescribed document hardware (left_info ∷ right_info ∷ []) refl

parse_slaves_from_hardware-ending_example :
    ending (parse_slaves_from_hardware document hardware) ≡ (
      if all_well_formed document (document.children hardware (codes "ec_slave"))
      then returned
      else thrown)
parse_slaves_from_hardware-ending_example = parse_slaves_from_hardware-ending document hardware

-- A name that no ros2_control tag has.
robot2_crashes : parse_hardware_from_doc document (some robot) (codes "robot2") ≡ crashes
unfolding parse_hardware_from_doc lookup text_eq
robot2_crashes = refl
