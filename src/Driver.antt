-- ===== src/Driver.antt =====
-- src/schedRegAllocDriver.cpp: main, as the sequence of its fallible steps. `Llvm` holds the answers of
-- the libraries that it calls; a message, a module, a target and so on are numbers.
use llvm_scheduling_reg_pres.Base.{ℕ, Bool, true, false, not, Option, none, some, if◌then◌else◌}

-- parseIRFile, the module's triple (`none` if it is empty) and the default one, lookupTarget (the target,
-- and the triple, which it takes by reference and may adjust), createTargetMachine (with the options of
-- the command line), the layout, getFileType() != ObjectFile, the opening of the output file as text or
-- not (`some` is an error), addPassesToEmitFile.
pub record Llvm : Type 0 where
  pub parse_ir_file : Option ℕ
  pub target_triple : ℕ → Option ℕ
  pub default_triple : ℕ
  pub lookup_target : (triple : ℕ) → Option (ℕ × ℕ)
  pub create_target_machine : (target triple : ℕ) (asm_verbose : Bool) → Option ℕ
  pub create_data_layout : (machine : ℕ) → ℕ
  pub is_object_file : Bool
  pub open_error : (as_text : Bool) → Option ℕ
  pub add_passes_fails : (machine : ℕ) → Bool

-- Which message main prints before it gives up.
pub data Message : Type 0 where
  parse_error lookup_error no_machine open_failed unsupported_file : Message

-- What main leaves behind. `triple` and `layout` are those of the module; `is_open` and `is_kept` are the
-- output file's, which is removed at the end unless it is kept; `ran` says that the passes ran.
pub record Outcome : Type 0 where
  pub code : ℕ
  pub message : Option Message
  pub triple : Option ℕ
  pub layout : Option ℕ
  pub is_open : Bool
  pub ran : Bool
  pub is_kept : Bool

abbrev pub untouched : Outcome
untouched = record {
  code = 0;
  message = none;
  triple = none;
  layout = none;
  is_open = false;
  ran = false;
  is_kept = false;
}

-- errs() << ...; return 1;
abbrev pub fail : Message → Outcome → Outcome
fail m o = record o { code = 1; message = some m }

-- if (TheTriple.getTriple().empty()) TheTriple = ...
abbrev pub resolved_triple : Llvm → (ir : ℕ) → ℕ
resolved_triple llvm ir = elim (llvm.target_triple ir) [ none ↦ llvm.default_triple | some t ↦ t ]

-- From the opening of the output file on.
abbrev pub emit : Llvm → (machine : ℕ) → Outcome → Outcome
emit llvm machine o = elim (llvm.open_error (not llvm.is_object_file)) [
  | some _ ↦ fail open_failed o
  | none ↦
      if llvm.add_passes_fails machine
      then fail unsupported_file (record o { is_open = true })
      else record o { is_open = true; ran = true; is_kept = true }
]

-- From the lookup of the target on.
abbrev pub compile : Llvm → (asm_verbose : Bool) → (triple : ℕ) → Outcome → Outcome
compile llvm asm_verbose triple o = elim (llvm.lookup_target triple) [
  | none ↦ fail lookup_error o
  | some found ↦ elim (llvm.create_target_machine found.0 found.1 asm_verbose) [
    | none ↦ fail no_machine o
    | some machine ↦
        emit llvm machine (record o { layout = some (llvm.create_data_layout machine) })
  ]
]

unfoldable pub main : Llvm → (asm_verbose : Bool) → Outcome
main llvm asm_verbose = elim llvm.parse_ir_file [
  | none ↦ fail parse_error untouched
  | some ir ↦
      let triple = resolved_triple llvm ir in
      compile llvm asm_verbose triple (record untouched { triple = some triple })
]
