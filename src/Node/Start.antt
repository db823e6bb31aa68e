-- ===== src/Node/Start.antt =====
-- `main` of jw-swarm-nodes/linux/src/main.rs: the command line decides whether the node enrolls or
-- runs. Setting up the logging is left out.
use jw_swarm.Common.{String, List, [], ◌∷◌, ◌==◌, ◌≡◌, refl, if◌then◌else◌}
use jw_swarm.Node.Settings.{Config}
use jw_swarm.Node.Enroll.{Parsed, parse_args}
use jw_swarm.Node.Enroll.Arguments.{
  Setting, command_line, meant, IsReading, parse_args-command_line,
}

pub data Started : Type 0 where
  -- the arguments behind `enroll`, as they are read
  enrolls : Parsed → Started
  -- with the settings that were loaded
  runs : Config → Started

pub main : (args : List String) → Config → Started
main [] config = runs config
main (program ∷ []) config = runs config
main (program ∷ command ∷ args) config =
    if command == "enroll" then enrolls (parse_args args) else runs config

-- A command line that says in any order, and as often as it likes, how to enroll, starts the
-- enrollment with the last value of each argument, the directory's default if none is given, and
-- settings written unless that is forbidden; if the address, the node or the token is never given,
-- the answer is that an argument is missing.
pub main-command_line :
    (program : String) (said : List Setting) (config : Config)
    → (answer : Parsed) × (main (program ∷ "enroll" ∷ command_line said) config ≡ enrolls answer)
      × IsReading (meant said) answer
unfolding main
main-command_line program said config =
    (parse_args (command_line said), refl, parse_args-command_line said)
