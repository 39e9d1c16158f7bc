-- ===== src/Files/Tests.antt =====
-- Two processes with a file that both have open, and the theorem at this table.
use modified_riscv.Base.{
  ℕ, zero, ◌+◌, ◌≡◌, refl, true, false, Bool, Option, none, some, [], update, arith, if◌then◌else◌,
  ◌==◌, Returns,
}
use modified_riscv.Files.{File, Files, fd_none, fd_inode, sys_dup, sys_close}
use modified_riscv.Files.Counts.{IsCounted}
use modified_riscv.Files.Safe.{dups, run_call, Serves, run_call-Serves}

abbrev unused : File
unused = record {
  kind = fd_none;
  ref = 0;
  readable = false;
  writable = false;
  pipe = 0;
  ip = 0;
  off = 0;
  major = 0;
}

-- The file 0 is the descriptor 0 of process 0 and the descriptor 3 of process 1.
abbrev shared : Files
shared = record {
  file = update (λ _. unused) 0 (record unused { kind = fd_inode; ref = 2 });
  ofile = update (update (λ _. none) 0 (some 0)) 19 (some 0);
}

shared-IsCounted : IsCounted 32 [] [] shared
shared-IsCounted f = omega (arith, by_test (0 == f))
  where
    by_test :
        (b : Bool)
        → (if b then record unused { kind = fd_inode; ref = 2 } else unused).ref
          ≡ (if b then 1 else zero) + (if b then 1 else zero)
    by_test true = refl
    by_test false = refl

abbrev number : Option (Option ℕ × Files) → Option ℕ
number none = none
number (some (fd, after)) = fd

-- The first free descriptor of process 0 is 1.
dup_runs : number (sys_dup 0 0 shared) ≡ some 1
unfolding sys_dup
dup_runs = refl

abbrev references : Option (Bool × Files) → ℕ
references none = 0
references (some (ok, after)) = (after.file 0).ref

close_runs : references (sys_close 1 3 shared) ≡ 1
unfolding sys_close
close_runs = refl

run_call-Serves_example : Returns (run_call (dups 0 0) shared) (Serves 2 (dups 0 0))
run_call-Serves_example = run_call-Serves 2 (dups 0 0) shared (omega arith) shared-IsCounted
