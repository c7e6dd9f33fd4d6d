-- ===== src/Driver/Urdf/Hardware.antt =====
-- SOEMDriver::_parse_hardware_from_doc (soem_driver.cpp).
pub mod Found
use soem_driver_ros.Base.{
  if◌then◌else◌, not, List, [], ◌∷◌, Option, none, some, Text, codes, text_eq,
}
use soem_driver_ros.Driver.Urdf.Xml.{
  runtime_error, Outcome, returns, throws, crashes, ◌>>=◌, or_throw, Xml, first,
}

module _ (x : Xml) where
  open x use {Element}

  -- The loop over the ros2_control tags; `none` is the null pointer behind the last one.
  unfoldable pub find_ros2_control : Text → List Element → Outcome (Option Element)
  find_ros2_control name [] = returns none
  find_ros2_control name (ros2_control_it ∷ rest) =
      elim (x.attribute ros2_control_it (codes "name")) [
        | none ↦ throws (runtime_error (codes "no attribute name in ros2_control tag"))
        | some other ↦
            if text_eq name other
            then returns (some ros2_control_it)
            else find_ros2_control name rest
      ]

  -- FirstChildElement("hardware") of what the loop found.
  unfoldable pub hardware_of : Option Element → Outcome Element
  hardware_of none = crashes
  hardware_of (some ros2_control_it) =
      or_throw (runtime_error (codes "no hardware tag in ros2_control tag"))
        (first (x.children ros2_control_it (codes "hardware")))

  unfoldable pub search_tags : Text → List Element → Outcome Element
  unfolding find_ros2_control hardware_of
  search_tags name [] = throws (runtime_error (codes "no ros2_control tag"))
  search_tags name (ros2_control_it ∷ rest) =
      find_ros2_control name (ros2_control_it ∷ rest) >>= hardware_of

  unfoldable pub parse_hardware_from_doc : Option Element → Text → Outcome Element
  unfolding search_tags
  parse_hardware_from_doc none name = crashes
  parse_hardware_from_doc (some robot_it) name =
      if not (text_eq (codes "robot") (x.tag_name robot_it))
      then throws (runtime_error (codes "the robot tag is not root element in URDF"))
      else search_tags name (x.children robot_it (codes "ros2_control"))
