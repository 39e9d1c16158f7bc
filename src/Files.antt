-- ===== src/Files.antt =====
-- kernel/file.c and kernel/sysfile.c, with their parts of kernel/pipe.c and kernel/proc.c: the table of
-- open files with its reference counts, and the descriptors of the processes. A part under
-- `ftable.lock` is one atomic step.
pub mod Counts
pub mod Calls
pub mod Loops
pub mod Opens
pub mod Pipes
pub mod Safe
mod Tests
use modified_riscv.Base.{
  ℕ, zero, suc, ◌+◌, ◌-◌, ◌*◌, Bool, true, false, not, Option, none, some, ltb, ◌==◌, if◌then◌else◌,
  update, ◌>>=◌,
}

abbrev pub nfile : ℕ
nfile = 100

abbrev pub nofile : ℕ
nofile = 16

pub data FileType : Type 0 where
  fd_none : FileType
  fd_pipe : FileType
  fd_inode : FileType
  fd_device : FileType

-- struct file
pub record File : Type 0 where
  pub kind : FileType
  pub ref : ℕ
  pub readable : Bool
  pub writable : Bool
  pub pipe : ℕ
  pub ip : ℕ
  pub off : ℕ
  pub major : ℕ

-- ftable.file, and `ofile` of all processes, each with `nofile` places; a file is named by its index.
pub record Files : Type 0 where
  pub file : ℕ → File
  pub ofile : ℕ → Option ℕ

-- &p->ofile[fd]
abbrev pub place : ℕ → ℕ → ℕ
place p fd = p * nofile + fd

-- The first of `n` indices from `i` on that passes the test.
abbrev pub first_from : (ℕ → Bool) → ℕ → ℕ → Option ℕ
first_from test i zero = none
first_from test i (suc n) =
    let later = first_from test (i + 1) n in if test i then some i else later

abbrev pub set_file : ℕ → File → Files → Files
set_file f new s = record s { file = update s.file f new }

abbrev pub set_place : ℕ → Option ℕ → Files → Files
set_place i v s = record s { ofile = update s.ofile i v }

unfoldable pub filealloc : Files → Option ℕ × Files
filealloc s = elim (first_from (λ i. (s.file i).ref == 0) 0 nfile) [
  | none ↦ (none, s)
  | some f ↦ (some f, set_file f (record (s.file f) { ref = 1 }) s)
]

-- `none` is the panic.
unfoldable pub filedup : ℕ → Files → Option Files
filedup f s =
    if ltb (s.file f).ref 1
    then none
    else some (set_file f (record (s.file f) { ref = (s.file f).ref + 1 }) s)

-- What the last close of a file hands back: its end of a pipe to `pipeclose`, or its inode to `iput`.
pub data Release : Type 0 where
  nothing : Release
  closes_pipe : ℕ → Bool → Release
  puts_inode : ℕ → Release

abbrev pub release_of : File → Release
release_of ff = elim ff.kind [
  | fd_none ↦ nothing
  | fd_pipe ↦ closes_pipe ff.pipe ff.writable
  | fd_inode ↦ puts_inode ff.ip
  | fd_device ↦ puts_inode ff.ip
]

-- `none` is the panic.
unfoldable pub fileclose : ℕ → Files → Option (Release × Files)
fileclose f s =
    if ltb (s.file f).ref 1
    then none
    else if ltb 0 ((s.file f).ref - 1)
    then some (nothing, set_file f (record (s.file f) { ref = (s.file f).ref - 1 }) s)
    else some (release_of (s.file f), set_file f (record (s.file f) { ref = 0; kind = fd_none }) s)

abbrev pub is_unused : Option ℕ → Bool
is_unused none = true
is_unused (some f) = false

-- The descriptor, or -1.
unfoldable pub fdalloc : ℕ → ℕ → Files → Option ℕ × Files
fdalloc me f s = elim (first_from (λ fd. is_unused (s.ofile (place me fd))) 0 nofile) [
  | none ↦ (none, s)
  | some fd ↦ (some fd, set_place (place me fd) (some f) s)
]

-- `argfd`; a negative number stands for one that is too large.
abbrev pub argfd : ℕ → ℕ → Files → Option ℕ
argfd me fd s = if ltb fd nofile then s.ofile (place me fd) else none

-- The descriptor, or -1; `none` is a panic here and below.
unfoldable pub sys_dup : ℕ → ℕ → Files → Option (Option ℕ × Files)
unfolding fdalloc filedup
sys_dup me fd s = elim (argfd me fd s) [
  | none ↦ some (none, s)
  | some f ↦
      let (new, s1) = fdalloc me f s in
      elim new [ none ↦ some (none, s1) | some d ↦ filedup f s1 >>= λ s2. some (some d, s2) ]
]

-- Whether it returns 0.
unfoldable pub sys_close : ℕ → ℕ → Files → Option (Bool × Files)
unfolding fileclose
sys_close me fd s = elim (argfd me fd s) [
  | none ↦ some (false, s)
  | some f ↦ fileclose f (set_place (place me fd) none s) >>= λ (release, s1). some (true, s1)
]

-- The fields that `sys_open` sets, for a device with the number `major` or for another inode.
abbrev pub opened : Option ℕ → ℕ → Bool → Bool → File → File
opened none ip readable writable f = record f {
  kind = fd_inode;
  off = 0;
  ip = ip;
  readable = readable;
  writable = writable;
}
opened (some major) ip readable writable f = record f {
  kind = fd_device;
  major = major;
  ip = ip;
  readable = readable;
  writable = writable;
}

-- `sys_open` from `filealloc` on: the descriptor, or -1.
unfoldable pub open_file : ℕ → Option ℕ → ℕ → Bool → Bool → Files → Option (Option ℕ × Files)
unfolding filealloc fdalloc fileclose
open_file me device ip readable writable s =
    let (new, s1) = filealloc s in
    elim new [
      | none ↦ some (none, s1)
      | some f ↦
          let (fd, s2) = fdalloc me f s1 in
          elim fd [
            | none ↦ fileclose f s2 >>= λ (release, s3). some (none, s3)
            | some d ↦ some (some d, set_file f (opened device ip readable writable (s2.file f)) s2)
          ]
    ]

abbrev pub pipe_end : ℕ → Bool → File → File
pipe_end pi writes f = record f {
  kind = fd_pipe;
  readable = not writes;
  writable = writes;
  pipe = pi;
}

-- The two closes of a failing `pipealloc` or `sys_pipe`
unfoldable pub close_both : ℕ → ℕ → Files → Option Files
unfolding fileclose
close_both a b s = fileclose a s >>= λ (release, s1). fileclose b s1 >>= λ (release2, s2). some s2

-- `pi` is the page that `kalloc` gives, or 0.
unfoldable pub pipealloc : ℕ → Files → Option (Option (ℕ × ℕ) × Files)
unfolding filealloc close_both
pipealloc pi s =
    let (f0, s1) = filealloc s in
    elim f0 [
      | none ↦ some (none, s1)
      | some a ↦
          let (f1, s2) = filealloc s1 in
          elim f1 [
            | none ↦ fileclose a s2 >>= λ (release, s3). some (none, s3)
            | some b ↦
                if pi == 0
                then (close_both a b s2 >>= λ s3. some (none, s3))
                else some (
                  some (a, b),
                  set_file b (pipe_end pi true (s2.file b))
                      (set_file a (pipe_end pi false (s2.file a)) s2),
                )
          ]
    ]

-- `sys_pipe`: whether it returns 0. `copies` is whether both descriptors can be copied out.
unfoldable pub sys_pipe : ℕ → ℕ → Bool → Files → Option (Bool × Files)
unfolding pipealloc fdalloc close_both
sys_pipe me pi copies s = pipealloc pi s >>= λ (ends, s1). elim ends [
  | none ↦ some (false, s1)
  | some (a, b) ↦
      let (fd0, s2) = fdalloc me a s1 in
      elim fd0 [
        | none ↦ close_both a b s2 >>= λ s3. some (false, s3)
        | some d ↦
            let (fd1, s3) = fdalloc me b s2 in
            elim fd1 [
              | none ↦ close_both a b (set_place (place me d) none s3) >>= λ s4. some (false, s4)
              | some e ↦
                  if copies
                  then some (true, s3)
                  else (close_both a b
                        (set_place (place me e) none (set_place (place me d) none s3))
                      >>= λ s4. some (false, s4))
            ]
      ]
]

-- The loop of `fork` over the descriptors from `i` on.
unfoldable pub fork_files : ℕ → ℕ → ℕ → ℕ → Files → Option Files
unfolding filedup
fork_files me child i zero s = some s
fork_files me child i (suc n) s = elim (s.ofile (place me i)) [
  | none ↦ fork_files me child (i + 1) n s
  | some f ↦
      filedup f s >>= λ s1. fork_files me child (i + 1) n (set_place (place child i) (some f) s1)
]

-- The loop of `exit` over the descriptors from `i` on.
unfoldable pub exit_files : ℕ → ℕ → ℕ → Files → Option Files
unfolding fileclose
exit_files me i zero s = some s
exit_files me i (suc n) s = elim (s.ofile (place me i)) [
  | none ↦ exit_files me (i + 1) n s
  | some f ↦
      fileclose f s >>= λ (release, s1). exit_files me (i + 1) n (set_place (place me i) none s1)
]
