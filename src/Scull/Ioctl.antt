-- ===== src/Scull/Ioctl.antt =====
-- The ioctl calls of the scull devices: `scull_ioctl` of assignment-7-saloni1307-master/scull/main.c,
-- with the commands of scull.h beside it. An `int` is the pattern of its 32 bits.
pub mod Codes
pub mod Effects
use advanced_embedded_softwa.Base.{
  ℕ, zero, ◌+◌, ◌%◌, ◌^◌, Bool, true, false, Option, none, some, ltb, ◌==◌, ◌&&◌, ◌||◌, not,
  if◌then◌else◌,
}
use advanced_embedded_softwa.Kernel.{Errno, efault, enotty, eperm}

-- The bit fields of a command: _IOC_READ and _IOC_WRITE of its direction, its type, number and size.
pub record Cmd : Type 0 where
  pub reads : Bool
  pub writes : Bool
  pub magic : ℕ
  pub nr : ℕ
  pub size : ℕ

abbrev same_bool : Bool → Bool → Bool
same_bool a b = if a then b else not b

-- The comparison of two commands, field by field.
abbrev pub same_cmd : Cmd → Cmd → Bool
same_cmd a b =
    same_bool a.reads b.reads
    && (same_bool a.writes b.writes && (a.magic == b.magic && (a.nr == b.nr && a.size == b.size)))

-- The commands, by what their comment in scull.h says: set, tell, get, query, exchange and shift.
pub data Command : Type 0 where
  reset : Command
  set_quantum set_qset tell_quantum tell_qset get_quantum get_qset : Command
  query_quantum query_qset exchange_quantum exchange_qset shift_quantum shift_qset : Command
  tell_size query_size : Command

-- SCULL_IOC_MAGIC
abbrev pub magic : ℕ
magic = 107

-- `_IO`, `_IOW`, `_IOR` and `_IOWR` of the kernel, for an `int`.
abbrev pub io : ℕ → Cmd
io nr = record { reads = false; writes = false; magic = magic; nr = nr; size = 0 }

abbrev pub iow : ℕ → Cmd
iow nr = record { reads = false; writes = true; magic = magic; nr = nr; size = 4 }

abbrev pub ior : ℕ → Cmd
ior nr = record { reads = true; writes = false; magic = magic; nr = nr; size = 4 }

abbrev pub iowr : ℕ → Cmd
iowr nr = record { reads = true; writes = true; magic = magic; nr = nr; size = 4 }

-- The macros SCULL_IOC… and SCULL_P_IOC…
unfoldable pub code : Command → Cmd
code reset = io 0
code set_quantum = iow 1
code set_qset = iow 2
code tell_quantum = io 3
code tell_qset = io 4
code get_quantum = ior 5
code get_qset = ior 6
code query_quantum = io 7
code query_qset = io 8
code exchange_quantum = iowr 9
code exchange_qset = iowr 10
code shift_quantum = io 11
code shift_qset = io 12
code tell_size = io 13
code query_size = io 14

-- `scull_quantum`, `scull_qset` and `scull_p_buffer`.
pub record Config : Type 0 where
  pub quantum : ℕ
  pub qset : ℕ
  pub p_buffer : ℕ

-- The process: whether it has CAP_SYS_ADMIN, whether `access_ok` lets it use its argument as a
-- pointer, whether the `int` there can be read and written, and what it is.
pub record Process : Type 0 where
  pub capable : Bool
  pub access_ok : Bool
  pub readable : Bool
  pub writable : Bool
  pub memory : ℕ

pub data Answer : Type 0 where
  ok : Answer
  value : ℕ → Answer
  error : Errno → Answer

-- What a call returns, the parameters, and the `int` of the process.
pub record Outcome : Type 0 where
  pub answer : Answer
  pub config : Config
  pub memory : ℕ

-- What `__get_user` stores: 0 if it fails.
abbrev pub got : Process → ℕ
got p = if p.readable then p.memory else 0

-- The value of `retval` after `__get_user` or `__put_user`.
abbrev pub retval : Bool → Answer
retval good = if good then ok else error efault

abbrev pub stored : Process → ℕ → ℕ
stored p v = if p.writable then v else p.memory

-- The end of an exchange: the old value goes to the process if the new one could be read.
abbrev pub exchanged : Process → Config → ℕ → Outcome
exchanged p config tmp =
    if p.readable
    then record { answer = retval p.writable; config = config; memory = stored p tmp }
    else record { answer = error efault; config = config; memory = p.memory }

-- A test of `capable` before a command.
abbrev pub privileged : Process → Config → Outcome → Outcome
privileged p c r =
    if p.capable then r else record { answer = error eperm; config = c; memory = p.memory }

-- The `switch` of `scull_ioctl`.
unfoldable pub handle : Process → ℕ → Config → Command → Outcome
handle p arg c reset = record {
  answer = ok;
  config = record c { quantum = 4000; qset = 1000 };
  memory = p.memory;
}
handle p arg c set_quantum = privileged p c (record {
  answer = retval p.readable;
  config = record c { quantum = got p };
  memory = p.memory;
})
handle p arg c tell_quantum =
    privileged p c
      (record { answer = ok; config = record c { quantum = arg % 2 ^ 32 }; memory = p.memory })
handle p arg c get_quantum = record {
  answer = retval p.writable;
  config = c;
  memory = stored p c.quantum;
}
handle p arg c query_quantum = record { answer = value c.quantum; config = c; memory = p.memory }
handle p arg c exchange_quantum =
    privileged p c (exchanged p (record c { quantum = got p }) c.quantum)
handle p arg c shift_quantum = privileged p c (record {
  answer = value c.quantum;
  config = record c { quantum = arg % 2 ^ 32 };
  memory = p.memory;
})
handle p arg c set_qset =
    privileged p c
      (record { answer = retval p.readable; config = record c { qset = got p }; memory = p.memory })
handle p arg c tell_qset =
    privileged p c
      (record { answer = ok; config = record c { qset = arg % 2 ^ 32 }; memory = p.memory })
handle p arg c get_qset = record {
  answer = retval p.writable;
  config = c;
  memory = stored p c.qset;
}
handle p arg c query_qset = record { answer = value c.qset; config = c; memory = p.memory }
handle p arg c exchange_qset = privileged p c (exchanged p (record c { qset = got p }) c.qset)
handle p arg c shift_qset =
    privileged p c (record {
      answer = value c.qset;
      config = record c { qset = arg % 2 ^ 32 };
      memory = p.memory;
    })
handle p arg c tell_size = record {
  answer = ok;
  config = record c { p_buffer = arg % 2 ^ 32 };
  memory = p.memory;
}
handle p arg c query_size = record { answer = value c.p_buffer; config = c; memory = p.memory }

-- The case labels of the `switch`.
unfoldable pub decode : Cmd → Option Command
decode cmd =
    if same_cmd cmd (code reset)
    then some reset
    else if same_cmd cmd (code set_quantum)
    then some set_quantum
    else if same_cmd cmd (code tell_quantum)
    then some tell_quantum
    else if same_cmd cmd (code get_quantum)
    then some get_quantum
    else if same_cmd cmd (code query_quantum)
    then some query_quantum
    else if same_cmd cmd (code exchange_quantum)
    then some exchange_quantum
    else if same_cmd cmd (code shift_quantum)
    then some shift_quantum
    else if same_cmd cmd (code set_qset)
    then some set_qset
    else if same_cmd cmd (code tell_qset)
    then some tell_qset
    else if same_cmd cmd (code get_qset)
    then some get_qset
    else if same_cmd cmd (code query_qset)
    then some query_qset
    else if same_cmd cmd (code exchange_qset)
    then some exchange_qset
    else if same_cmd cmd (code shift_qset)
    then some shift_qset
    else if same_cmd cmd (code tell_size)
    then some tell_size
    else if same_cmd cmd (code query_size)
    then some query_size
    else none

abbrev pub refused : Errno → Process → Config → Outcome
refused e p c = record { answer = error e; config = c; memory = p.memory }

-- `scull_ioctl`
unfoldable pub ioctl : Process → ℕ → Config → Cmd → Outcome
ioctl p arg c cmd =
    if not (cmd.magic == magic)
    then refused enotty p c
    else if ltb 14 cmd.nr
    then refused enotty p c
    else if (cmd.reads || cmd.writes) && not p.access_ok
    then refused efault p c
    else elim (decode cmd) [ none ↦ refused enotty p c | some command ↦ handle p arg c command ]
