-- ===== src/Wheel/Params.antt =====
-- src/dy/handle.rs: the builders of `SpawnParams`.
use Prim.Native.String.{String}
use juggle.Prelude.{Bool, false}
use juggle.Task.{TaskName, SpawnParams}

abbrev pub default : SpawnParams
default = record { suspended = false; name = TaskName.none }

abbrev pub suspend : Bool → SpawnParams → SpawnParams
suspend value p = record p { suspended = value }

abbrev pub name : String → SpawnParams → SpawnParams
name n p = record p { name = TaskName.static_name n }

abbrev pub dyn_name : String → SpawnParams → SpawnParams
dyn_name n p = record p { name = TaskName.dynamic_name n }

abbrev pub named : String → SpawnParams
named n = name n default

abbrev pub dyn_named : String → SpawnParams
dyn_named n = dyn_name n default

abbrev pub suspended : Bool → SpawnParams
suspended value = suspend value default

-- The conversions into `SpawnParams`.
abbrev pub from_static_str : String → SpawnParams
from_static_str v = named v

abbrev pub from_string : String → SpawnParams
from_string v = dyn_named v

abbrev pub from_bool : Bool → SpawnParams
from_bool v = suspended v
