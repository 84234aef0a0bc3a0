-- ===== src/Demo/Examples.antt =====
-- Module 2 of the demo lies at the handle 0x100, and the counter stands two rounds before its end.
use dragonuso.Common.{◌≡◌, refl, false, List, [], ◌∷◌, arith}
use dragonuso.Runtime.Machine.{done}
use dragonuso.Runtime.Handles.Links.{IsLoaded}
use dragonuso.Runtime.Examples.{env}
use dragonuso.Runtime.Api.Examples.{
  open_files, open_files-IsLoaded, handles, env-KeepsList, released_exports, count_one, not_in_use,
}
use dragonuso.Demo.{Line, Demo, frames}
use dragonuso.Demo.Closing.{frames_closing}

abbrev running : Demo
running = record {
  machine = open_files;
  uso_handle_1 = 0x200;
  uso_handle_2 = 0x100;
  update_counter = 0x4000;
  print_counter = 0x4100;
  m_value = 498;
  console = [];
}

frames_closing_example :
    ((lines : List Line) × (frames env (false ∷ false ∷ []) running
        ≡ done (record running { m_value = 500; console = lines })))
    × ((d' : Demo) × (frames env (false ∷ false ∷ false ∷ []) running ≡ done d')
        × (d'.m_value ≡ 501)
        × IsLoaded d'.machine (0x200 ∷ []))
frames_closing_example =
    frames_closing env running [] (0x200 ∷ []) (false ∷ false ∷ []) false (env-KeepsList handles)
      open_files-IsLoaded (refl, (refl, (refl, tt))) refl (omega (arith, count_one))
      (omega (arith, released_exports)) not_in_use
