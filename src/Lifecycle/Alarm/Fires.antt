-- ===== src/Lifecycle/Alarm/Fires.antt =====
-- When an alarm fires.
use modified_riscv.Base.{ℕ, ◌≡◌, Bool, true, false}
use modified_riscv.Base.Int.{pos}
use modified_riscv.Proc.{Trapframe}
use modified_riscv.Lifecycle.Alarm.{User}

-- An armed process that has counted `k` ticks.
abbrev pub Waits : ℕ → ℕ → ℕ → Trapframe → User → Type 0
Waits n handler k saved u =
    (u.entry.tickss ≡ pos n)
    × (u.entry.now_ticks ≡ k)
    × (u.entry.is_sigalarm ≡ false)
    × (u.entry.handler ≡ handler)
    × (u.copy ≡ saved)

-- A process whose alarm has fired when its registers were `saved`.
abbrev pub Fired : Trapframe → User → Type 0
Fired saved u = (u.entry.is_sigalarm ≡ true) × (u.copy ≡ saved)

-- What `sigalarm n` comes to: the process when one interrupt is missing, at the `n`-th interrupt, with
-- the registers `f`, and after later ones.
abbrev pub IsOnTime : Bool → ℕ → ℕ → User → Trapframe → ℕ → User → User → User → Type 0
IsOnTime true n handler u f k waiting fired later =
    Waits n handler k u.copy waiting × Fired f fired × (fired.frame.epc ≡ handler) × Fired f later
IsOnTime false n handler u f k waiting fired later =
    Waits n handler 0 u.copy waiting
    × Waits n handler 0 u.copy fired
    × (fired.frame ≡ f)
    × Waits n handler 0 u.copy later
