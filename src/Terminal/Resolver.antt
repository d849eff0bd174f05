-- ===== src/Terminal/Resolver.antt =====
-- include/terminal/CommandResolver.h
use so_magazyn_firmy_spedycy.Base.{List, [], ◌∷◌, Bytes, codes, find_or}

pub data CliCommand : Type 0 where
  unknown vip depart stop help exit : CliCommand

-- `commandMap`; its keys differ, so the order is of no account.
abbrev pub command_map : List (Bytes × CliCommand)
command_map =
    (codes "vip", vip)
    ∷ (codes "depart", depart)
    ∷ (codes "stop", stop)
    ∷ (codes "help", help)
    ∷ (codes "exit", exit)
    ∷ (codes "quit", exit)
    ∷ []

unfoldable pub resolve : Bytes → CliCommand
unfolding find_or
resolve cmd = find_or unknown cmd command_map
