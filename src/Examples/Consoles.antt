-- ===== src/Examples/Consoles.antt =====
-- The console of a viewer and of an administrator.
use so_magazyn_firmy_spedycy.Base.{◌≡◌, refl, true, some, List, codes, map, tolower, micro_double}
use so_magazyn_firmy_spedycy.Shared.{has_flag}
use so_magazyn_firmy_spedycy.Manager.{returned}
use so_magazyn_firmy_spedycy.Terminal.{Terminal, Output, line, run_once}
use so_magazyn_firmy_spedycy.Terminal.Letters.{case_insensitive}
use so_magazyn_firmy_spedycy.Terminal.Access.{console_harmless}
use so_magazyn_firmy_spedycy.Examples.Data.{staffed}

-- the console of the viewer at entry 1 of `staffed`
abbrev viewer_terminal : Terminal
viewer_terminal = record {
  session = record { current_session = some 1 };
  active = true;
  header_printed = true;
  keep_running = true;
}

console_harmless_example :
    (out : List Output × Terminal) × (run_once viewer_terminal (line (codes "stop")) staffed
      ≡ returned (out, staffed))
unfolding has_flag
console_harmless_example = console_harmless viewer_terminal (line (codes "stop")) staffed refl refl

case_insensitive_example :
    run_once viewer_terminal (line (map tolower (codes "STOP"))) staffed
    ≡ run_once viewer_terminal (line (codes "STOP")) staffed
case_insensitive_example = case_insensitive viewer_terminal (codes "STOP") staffed
