-- ===== src/Demo.antt =====
-- The demo program: src/main.cpp, with the counter of src/module2.cpp and src/counter.cpp. What it
-- prints to the console is a list of lines; messages to the debugger are left out. The function
-- pointers from `uso_sym` are printed, and stand for the functions of src/module2.cpp.
pub mod Closing
mod Examples
use dragonuso.Common.{ℕ, ◌+◌, Bool, List, [], ◌∷◌, ◌++◌, ltb, if◌then◌else◌}
use dragonuso.Text.{Str}
use dragonuso.Runtime.Machine.{Machine, Env, Run, done, ◌>>=◌}
use dragonuso.Runtime.Handles.{uso_is_handle_valid}
use dragonuso.Runtime.Api.{uso_init, uso_open, uso_sym, uso_close}

-- "rom:/global_syms.sym", "rom:/module1.uso" and "rom:/module2.uso"
abbrev global_syms_path : Str
global_syms_path =
    b'r' ∷ b'o' ∷ b'm' ∷ b':' ∷ b'/' ∷ b'g' ∷ b'l' ∷ b'o' ∷ b'b' ∷ b'a' ∷ b'l' ∷ b'_' ∷ b's' ∷ b'y'
    ∷ b'm' ∷ b's' ∷ b'.' ∷ b's' ∷ b'y' ∷ b'm' ∷ []

abbrev module1_path : Str
module1_path =
    b'r' ∷ b'o' ∷ b'm' ∷ b':' ∷ b'/' ∷ b'm' ∷ b'o' ∷ b'd' ∷ b'u' ∷ b'l' ∷ b'e' ∷ b'1' ∷ b'.' ∷ b'u'
    ∷ b's' ∷ b'o' ∷ []

abbrev module2_path : Str
module2_path =
    b'r' ∷ b'o' ∷ b'm' ∷ b':' ∷ b'/' ∷ b'm' ∷ b'o' ∷ b'd' ∷ b'u' ∷ b'l' ∷ b'e' ∷ b'2' ∷ b'.' ∷ b'u'
    ∷ b's' ∷ b'o' ∷ []

-- "update_counter" and "print_counter"
abbrev update_counter_name : Str
update_counter_name =
    b'u' ∷ b'p' ∷ b'd' ∷ b'a' ∷ b't' ∷ b'e' ∷ b'_' ∷ b'c' ∷ b'o' ∷ b'u' ∷ b'n' ∷ b't' ∷ b'e' ∷ b'r'
    ∷ []

abbrev print_counter_name : Str
print_counter_name =
    b'p' ∷ b'r' ∷ b'i' ∷ b'n' ∷ b't' ∷ b'_' ∷ b'c' ∷ b'o' ∷ b'u' ∷ b'n' ∷ b't' ∷ b'e' ∷ b'r' ∷ []

-- A line on the console.
pub data Line : Type 0 where
  no_modules_loaded : Line
  module_1_loaded : Line
  module_2_loaded : Line
  update_counter_at : ℕ → Line
  print_counter_at : ℕ → Line
  counter_is : ℕ → Line

-- The library's state, the variables of `main`, `m_value` of the counter, and the lines on the console.
pub record Demo : Type 0 where
  pub machine : Machine
  pub uso_handle_1 : ℕ
  pub uso_handle_2 : ℕ
  pub update_counter : ℕ
  pub print_counter : ℕ
  pub m_value : ℕ
  pub console : List Line

-- `m_value++`, where the largest `int` is far away.
unfoldable pub increment : ℕ → ℕ
increment m_value = m_value + 1

-- `update_counter`: the new value of the counter, and whether it throws.
unfoldable pub update : ℕ → ℕ × Bool
update m_value = (increment m_value, ltb 500 (increment m_value))

abbrev print : Demo → List Line → Demo
print d lines = record d { console = d.console ++ lines }

-- The start of `main`, before its loop. The counter is constructed when module 2 is opened.
unfoldable pub start : Env → Machine → Run Demo
start env s = do
  s₁ ← uso_init env s (env.fopen global_syms_path)
  (s₂, handle_1) ← uso_open env s₁ module1_path
  (s₃, handle_2) ← uso_open env s₂ module2_path
  update_ptr ← uso_sym env s₃ handle_2 update_counter_name
  print_ptr ← uso_sym env s₃ handle_2 print_counter_name
  done (record {
    machine = s₃;
    uso_handle_1 = handle_1;
    uso_handle_2 = handle_2;
    update_counter = update_ptr;
    print_counter = print_ptr;
    m_value = 0;
    console = [];
  })

-- The block of module 1 in the loop; `late` says whether 10 seconds have passed.
unfoldable pub run_module_1 : Env → Bool → Demo → Run Demo
run_module_1 env late d = do
  valid ← uso_is_handle_valid d.machine d.uso_handle_1
  let printed = print d (module_1_loaded ∷ [])
  let close : Run Demo = do
    s ← uso_close env d.machine d.uso_handle_1
    done (record printed { machine = s })
  (if valid then if late then close else done printed else done d)

-- The block of module 2 in the loop.
unfoldable pub run_module_2 : Env → Demo → Run Demo
run_module_2 env d = do
  valid ← uso_is_handle_valid d.machine d.uso_handle_2
  let printed =
      print d (
        module_2_loaded
        ∷ update_counter_at d.update_counter
        ∷ print_counter_at d.print_counter
        ∷ [])
  let (m_value, thrown) = update d.m_value
  let updated : Demo = record printed { m_value = m_value }
  let close : Run Demo = do
    s ← uso_close env updated.machine updated.uso_handle_2
    done (record updated { machine = s })
  (if valid
      then if thrown then close else done (print updated (counter_is m_value ∷ []))
      else done d)

-- One round of the loop of `main`.
unfoldable pub frame : Env → (late : Bool) → Demo → Run Demo
frame env late d = do
  valid_1 ← uso_is_handle_valid d.machine d.uso_handle_1
  let cleared : Demo = record d { console = [] }
  let look : Run Demo = do
    valid_2 ← uso_is_handle_valid d.machine d.uso_handle_2
    done (if valid_2 then cleared else print cleared (no_modules_loaded ∷ []))
  started ← (if valid_1 then done cleared else look)
  d₁ ← run_module_1 env late started
  run_module_2 env d₁

-- Rounds of the loop, with what the clock says in each.
unfoldable pub frames : Env → List Bool → Demo → Run Demo
frames env [] d = done d
frames env (late ∷ lates) d = do d' ← frame env late d; frames env lates d'
