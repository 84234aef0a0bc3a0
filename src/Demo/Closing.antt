-- ===== src/Demo/Closing.antt =====
-- The loop of `main` of src/main.cpp until the counter of module 2 is too high.
use mathlib.Core.Path.{fun_ext}
use dragonuso.Common.{
  ℕ, ◌+◌, ◌≤◌, ◌<◌, ◌≡◌, ◌≢◌, refl, sym, ap, ◌∙◌, inl, inr, Bool, true, false, ◌&&◌, List, [], ◌∷◌,
  ◌++◌, All, arith, length, ltb, ◌==◌, if◌then◌else◌, Bool-cases,
}
use dragonuso.StdLib.{any}
use dragonuso.Runtime.Machine.{Machine, Env, Run, done, assert_failed, null_read, runs_on, ◌>>=◌}
use dragonuso.Runtime.Ram.{handle_uso, ref_count, export_syms}
use dragonuso.Runtime.Handles.{uso_is_handle_valid}
use dragonuso.Runtime.Handles.Links.{IsLoaded}
use dragonuso.Runtime.Handles.Walk.{uso_is_handle_valid-any}
use dragonuso.Runtime.Api.{uso_close}
use dragonuso.Runtime.Api.Close.{released, in_use}
use dragonuso.Runtime.Api.Loaded.{KeepsList, any-middle, uso_close-IsLoaded}
use dragonuso.Demo.{
  Line, module_1_loaded, module_2_loaded, update_counter_at, print_counter_at, counter_is, Demo,
  update, increment, run_module_1, run_module_2, frame, frames,
}

-- Whether a handle is loaded.
abbrev pub is_loaded : ℕ → List ℕ → Bool
is_loaded handle hs = any (λ h. h == handle) hs

-- The lines of a round that shows the counter.
abbrev pub shown : Bool → Demo → ℕ → List Line
shown with_1 d count =
    (if with_1 then module_1_loaded ∷ [] else [])
    ++ (module_2_loaded
        ∷ update_counter_at d.update_counter
        ∷ print_counter_at d.print_counter
        ∷ [])
    ++ (counter_is count ∷ [])

module _ (env : Env) (d : Demo) (hs : List ℕ) (is : IsLoaded d.machine hs)
    (loaded_2 : is_loaded d.uso_handle_2 hs ≡ true) where
  abbrev cleared : Bool → Demo
  cleared with_1 = record d { console = if with_1 then module_1_loaded ∷ [] else [] }

  valid_2 : uso_is_handle_valid d.machine d.uso_handle_2 ≡ done true
  valid_2 = uso_is_handle_valid-any d.machine hs is d.uso_handle_2 ∙ ap done loaded_2

  frame_start :
      (late : Bool)
      → (is_loaded d.uso_handle_1 hs && late) ≡ false
      → frame env late d ≡ run_module_2 env (cleared (is_loaded d.uso_handle_1 hs))
  unfolding frame run_module_1
  frame_start late calm = elim (Bool-cases (is_loaded d.uso_handle_1 hs)) [
    | inl loaded_1 ↦
        let early : late ≡ false = ground (arith, loaded_1, calm) in
        let valid_1 : uso_is_handle_valid d.machine d.uso_handle_1 ≡ done true =
          uso_is_handle_valid-any d.machine hs is d.uso_handle_1 ∙ ap done loaded_1 in
        rw (valid_1, loaded_1, early) (rw valid_1)
    | inr gone ↦
        let valid_1 : uso_is_handle_valid d.machine d.uso_handle_1 ≡ done false =
          uso_is_handle_valid-any d.machine hs is d.uso_handle_1 ∙ ap done gone in
        rw (valid_1, gone, valid_2) (rw valid_1)
  ]

  run_module_2_counts :
      (with_1 : Bool)
      → d.m_value < 500
      → run_module_2 env (cleared with_1)
        ≡ done (record d { m_value = d.m_value + 1; console = shown with_1 d (d.m_value + 1) })
  unfolding run_module_2 update increment
  run_module_2_counts with_1 small =
      let quiet : ltb 500 (d.m_value + 1) ≡ false = ground arith in rw (valid_2, quiet)

  run_module_2_closes :
      (with_1 : Bool) (s : Machine)
      → 500 ≤ d.m_value
      → uso_close env d.machine d.uso_handle_2 ≡ done s
      → run_module_2 env (cleared with_1)
        ≡ done (record d {
          machine = s;
          m_value = d.m_value + 1;
          console =
              (if with_1 then module_1_loaded ∷ [] else [])
              ++ (module_2_loaded
                  ∷ update_counter_at d.update_counter
                  ∷ print_counter_at d.print_counter
                  ∷ []);
        })
  unfolding run_module_2 update increment
  run_module_2_closes with_1 s high closed =
      let thrown : ltb 500 (d.m_value + 1) ≡ true = ground arith in rw (valid_2, thrown, closed)

-- No round closes module 1: it is not loaded, or 10 seconds have not passed.
abbrev pub AreCalm : Demo → List ℕ → List Bool → Type 0
AreCalm d hs lates = All (λ late. (is_loaded d.uso_handle_1 hs && late) ≡ false) lates

frames_count :
    (env : Env) (d : Demo) (hs : List ℕ) (lates : List Bool)
    → IsLoaded d.machine hs
    → is_loaded d.uso_handle_2 hs ≡ true
    → AreCalm d hs lates
    → d.m_value + length lates ≡ 500
    → (lines : List Line) × (frames env lates d
        ≡ done (record d { m_value = 500; console = lines }))
unfolding frames
frames_count env d hs [] is loaded_2 calm count =
    (d.console, ap (λ (v : ℕ). done (record d { m_value = v })) (omega (arith, count)))
frames_count env d hs (late ∷ lates) is loaded_2 calm count =
    let with_1 = is_loaded d.uso_handle_1 hs in
    let d₁ : Demo = record d {
      m_value = d.m_value + 1;
      console = shown with_1 d (d.m_value + 1);
    } in
    let (lines, rest) = frames_count env d₁ hs lates is loaded_2 calm.1 (omega (arith, count)) in
    let round =
      frame_start env d hs is loaded_2 late calm.0
      ∙ run_module_2_counts env d hs is loaded_2 with_1 (omega (arith, count)) in
    (lines, rw round rest)

bind_assoc :
    {A B C : Type 0} (r : Run A) (f : A → Run B) (g : B → Run C)
    → ((r >>= f) >>= g) ≡ (r >>= (λ a. f a >>= g))
bind_assoc (done a) f g = refl
bind_assoc assert_failed f g = refl
bind_assoc null_read f g = refl
bind_assoc runs_on f g = refl

frames-append :
    (env : Env) (xs ys : List Bool) (d : Demo)
    → frames env (xs ++ ys) d ≡ (frames env xs d >>= frames env ys)
unfolding frames
frames-append env [] ys d = refl
frames-append env (x ∷ xs) ys d =
    ap (λ (f : Demo → Run Demo). frame env x d >>= f) (fun_ext λ d'. frames-append env xs ys d')
    ∙ sym (bind_assoc (frame env x d) (frames env xs) (frames env ys))

All-append-front : (P : Bool → Type 0) (xs ys : List Bool) → All P (xs ++ ys) → All P xs
All-append-front P [] ys all = tt
All-append-front P (x ∷ xs) ys all = (all.0, All-append-front P xs ys all.1)

All-append-last : (P : Bool → Type 0) (xs : List Bool) (y : Bool) → All P (xs ++ (y ∷ [])) → P y
All-append-last P [] y all = all.0
All-append-last P (x ∷ xs) y all = All-append-last P xs y all.1

module _ (env : Env) (d : Demo) (xs ys : List ℕ) where
  abbrev with_2 : List ℕ
  with_2 = xs ++ d.uso_handle_2 ∷ ys

  abbrev freed : Machine
  freed = released d.machine d.uso_handle_2

  -- In the loop of the demo program, while no round closes module 1 and the code of the files
  -- leaves the list alone, the counter of a loaded module 2 that stands at most at 500 reaches 500
  -- in as many rounds as are missing, with the library's state as it was, and the round after that
  -- counts to 501 and unloads module 2, if its reference count is at most 1, it has an export
  -- table, and no other file imports a symbol from it.
  pub frames_closing :
      (lates : List Bool) (late : Bool)
      → KeepsList env with_2
      → IsLoaded d.machine with_2
      → AreCalm d with_2 (lates ++ (late ∷ []))
      → d.m_value + length lates ≡ 500
      → ref_count d.machine.ram d.uso_handle_2 ≤ 1
      → export_syms freed.ram (handle_uso freed.ram d.uso_handle_2) ≢ 0
      → in_use env freed d.uso_handle_2 with_2 ≡ false
      → ((lines : List Line) × (frames env lates d
            ≡ done (record d { m_value = 500; console = lines })))
        × ((d' : Demo) × (frames env (lates ++ (late ∷ [])) d ≡ done d')
            × (d'.m_value ≡ 501)
            × IsLoaded d'.machine (xs ++ ys))
  unfolding frames
  frames_closing lates late keeps is calm count last exports unused =
      let loaded_2 = any-middle xs ys d.uso_handle_2 in
      let (lines, counted) =
        frames_count env d with_2 lates is loaded_2 (All-append-front _ lates (late ∷ []) calm)
          count in
      let d₅₀₀ : Demo = record d { m_value = 500; console = lines } in
      let (s, closed, gone) =
        uso_close-IsLoaded env d.machine xs ys d.uso_handle_2 keeps is last exports unused in
      let round =
        frame_start env d₅₀₀ with_2 is loaded_2 late (All-append-last _ lates late calm)
        ∙ run_module_2_closes env d₅₀₀ with_2 is loaded_2 (is_loaded d.uso_handle_1 with_2) s
            (omega arith) closed in
      (
        (lines, counted),
        (
          _,
          frames-append env lates (late ∷ []) d
              ∙ ap (λ (r : Run Demo). r >>= frames env (late ∷ [])) counted
              ∙ ap (λ (r : Run Demo). r >>= frames env []) round,
          refl,
          gone,
        ),
      )
