-- ===== src/DriverSamples.antt =====
-- Runs of main.
use llvm_scheduling_reg_pres.Base.{◌≡◌, refl, true, false, none, some}
use llvm_scheduling_reg_pres.Driver.{Llvm, main, untouched, lookup_error}

-- A module without a triple, for which everything works.
abbrev working : Llvm
working = record {
  parse_ir_file = some 5;
  target_triple = λ ir. none;
  default_triple = 64;
  lookup_target = λ triple. some (7, triple);
  create_target_machine = λ target triple asm_verbose. some 8;
  create_data_layout = λ machine. 9;
  is_object_file = false;
  open_error = λ as_text. none;
  add_passes_fails = λ machine. false;
}

run_main :
    (main working true ≡ record {
      code = 0;
      message = none;
      triple = some 64;
      layout = some 9;
      is_open = true;
      ran = true;
      is_kept = true;
    })
    × (main (record working { lookup_target = λ triple. none }) true
        ≡ record untouched { code = 1; message = some lookup_error; triple = some 64 })
unfolding main
run_main = (refl, refl)
