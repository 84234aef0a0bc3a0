-- ===== src/Runtime/Start/Examples.antt =====
-- A file at 0x1000 with two constructors and a destructor.
use dragonuso.Common.{arith, ◌≡◌, refl, [], ◌∷◌, ◌++◌, map}
use dragonuso.Bytes.{Bytes, put}
use dragonuso.Elf2uso.Symbols.{dso_handle_name, prolog_name, epilog_name}
use dragonuso.Runtime.Ram.{
  sections, section_entry, ctors_section, dtors_section, load_u16, load_u32, store_u32,
}
use dragonuso.Runtime.Machine.{Machine, called, finalized, frames_registered, frames_deregistered}
use dragonuso.Runtime.Start.{start_uso, end_uso}
use dragonuso.Runtime.Start.Pointers.{FitsMemory, ctors_of, dtors_of}
use dragonuso.Runtime.Start.Order.{
  IsQuiet, with_events, exported_call, frames_event, start_uso-quiet, end_uso-quiet,
}
use dragonuso.Runtime.Examples.{env, two_files, zeros}

-- The section table is at 0x2000; section 1 has the constructors and section 2 the destructors.
abbrev sections_ram : Bytes
sections_ram =
    store_u32
      (store_u32
        (store_u32
          (store_u32 (store_u32 (store_u32 zeros 0x1004 0x2000) 0x1010 0x10002) 0x2014 0x3000)
          0x2018 8)
        0x2028 0x3008)
      0x202C 4

abbrev file_ram : Bytes
file_ram = store_u32 (store_u32 (store_u32 sections_ram 0x3000 0x4000) 0x3004 0x4100) 0x3008 0x4200

abbrev filled : Machine
filled = record two_files { ram = file_ram }

env-IsQuiet : IsQuiet env
env-IsQuiet = record { calls = λ ptr s. refl; finalizers = λ ptr s. refl }

ctors_fit :
    FitsMemory file_ram (section_entry (sections file_ram 0x1000) (ctors_section file_ram 0x1000))
unfolding load_u16 load_u32 store_u32 put
ctors_fit some = (omega arith, omega arith)

dtors_fit :
    FitsMemory file_ram (section_entry (sections file_ram 0x1000) (dtors_section file_ram 0x1000))
unfolding load_u16 load_u32 store_u32 put
dtors_fit some = (omega arith, omega arith)

start_uso-quiet_example :
    start_uso env filled 0x1000 0x500
    ≡ with_events filled (
        frames_event file_ram 0x1000 (λ frames. frames_registered frames 0x500)
        ++ (map called (ctors_of file_ram 0x1000)
            ++ exported_call env file_ram 0x1000 prolog_name called))
start_uso-quiet_example = start_uso-quiet env env-IsQuiet filled 0x1000 0x500 ctors_fit

end_uso-quiet_example :
    end_uso env filled 0x1000
    ≡ with_events filled (
        exported_call env file_ram 0x1000 epilog_name called
        ++ (exported_call env file_ram 0x1000 dso_handle_name finalized
            ++ (map called (dtors_of file_ram 0x1000)
                ++ frames_event file_ram 0x1000 frames_deregistered)))
end_uso-quiet_example = end_uso-quiet env env-IsQuiet filled 0x1000 dtors_fit

-- The constructors run from the last in the section to the first.
file_ctors : ctors_of file_ram 0x1000 ≡ 0x4100 ∷ 0x4000 ∷ []
unfolding ctors_of load_u32 load_u16 store_u32 put
file_ctors = refl

file_dtors : dtors_of file_ram 0x1000 ≡ 0x4200 ∷ []
unfolding dtors_of load_u32 load_u16 store_u32 put
file_dtors = refl
