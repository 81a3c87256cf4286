-- ===== src/Supervisor/Stops.antt =====
-- `on_syscall_enter` and `on_syscall_exit` of engines/rootless/supervisor.cpp around a handler. The
-- registers have been read, and what is set in them is written back.
use vhdp.Base.{ℕ, ◌+◌, ◌-◌, ◌%◌, ◌^◌, [], Bool, true, false, ◌&&◌, not, if◌then◌else◌, ltb, ◌==◌}
use vhdp.Base.Int.{pos, ℤ, negsuc}
use vhdp.Resolver.Kernel.{Reply, ok, err}
use vhdp.Identity.{Action, kernel, answer, minus, Args}
use vhdp.Supervisor.State.{
  Regs, Setup, State, Step, Pending, no_pending, emulated_return, set_pending,
}

-- The loop that puts back the arguments that were changed; the first register is left alone where it
-- holds the value that the call returns.
abbrev pub restored : Pending → Bool → Args → Args
restored p keep_first a =
    λ i. if ltb i 6 && p.saved i && not (keep_first && i == 0) then p.orig_args i else a i

-- `static_cast<std::uint64_t>`
abbrev pub to_u64 : ℤ → ℕ
to_u64 (pos n) = n % 2 ^ 64
to_u64 (negsuc n) = (2 ^ 64 - (n + 1) % 2 ^ 64) % 2 ^ 64

-- `set_return`: the value stands in its register, which may be that of the first argument.
unfoldable pub set_return : Bool → ℤ → Regs → Regs
set_return in_first value r =
    let first : Args = λ i. if i == 0 then to_u64 value else r.args i in
    record r { ret = value; args = if in_first then first else r.args }

-- The errno of a handler that fails is the answer.
abbrev pub answered : {W : Type 0} → Reply Action × State W → Action × State W
answered (ok a, s) = (a, s)
answered (err e, s) = (minus e, s)

-- The start of `on_syscall_enter` for a task that runs its program.
unfoldable pub prepare : {W : Type 0} → State W → State W
prepare s = record s {
  task = record s.task {
    pending = record no_pending { nr = s.regs.nr };
    exec_seen = false;
    load_request = [];
    load_exe = [];
  };
}

-- What `on_syscall_enter` does with the action of the handler.
unfoldable pub finish_enter : {W : Type 0} → Setup → Action × State W → State W
unfolding set_return
finish_enter c (kernel, s) = s
finish_enter c (answer ret, s) =
    let p = s.task.pending in
    record (set_pending s (
      if c.use_seccomp then no_pending else record p {
        active = true;
        fixup = emulated_return;
        emulated = ret;
        saved = λ i. false;
      })) {
        regs =
            set_return c.returns_in_first ret
              (record s.regs { args = restored p false s.regs.args; nr = negsuc 0 });
      }

-- `on_syscall_enter` with a handler.
unfoldable pub enter : {W : Type 0} → Setup → Step W Action → State W → State W
unfolding prepare finish_enter
enter c handler s = finish_enter c (answered (handler (prepare s)))

-- `on_syscall_exit` of a call that has not replaced the program, without the fixup. A call that left
-- nothing to do is let through.
unfoldable pub finish_exit : {W : Type 0} → Setup → State W → State W
finish_exit c s = if not s.task.pending.active then s else record (set_pending s no_pending) {
  regs = record s.regs { args = restored s.task.pending c.returns_in_first s.regs.args };
}
