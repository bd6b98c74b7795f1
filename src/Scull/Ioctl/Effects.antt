-- ===== src/Scull/Ioctl/Effects.antt =====
-- What the ioctl calls change.
use advanced_embedded_softwa.Base.{
  ℕ, ◌≡◌, ◌⊎◌, inl, inr, refl, Bool, true, false, Option, none, some, ltb, ◌==◌, ◌&&◌, ◌||◌, not,
  if◌then◌else◌, Bool-cases,
}
use advanced_embedded_softwa.Kernel.{
  Errno, erestartsys, enomem, efault, eagain, einval, ebusy, enotty, eperm,
}
use advanced_embedded_softwa.Scull.Ioctl.{
  Cmd, magic, Command, reset, set_quantum, set_qset, tell_quantum, tell_qset, get_quantum, get_qset,
  query_quantum, query_qset, exchange_quantum, exchange_qset, shift_quantum, shift_qset, tell_size,
  query_size, got, code, decode, Config, Process, ok, value, error, Outcome, refused, privileged,
  retval, handle, ioctl,
}
use advanced_embedded_softwa.Scull.Ioctl.Codes.{code_known, decode-code}

-- A call is refused, or it is one of the commands.
module _ (p : Process) (arg : ℕ) (c : Config) (P : Outcome → Type 0)
    (turned_down : (e : Errno) → P (refused e p c))
    (handled : (k : Command) → P (handle p arg c k)) where
  pub ioctl_cases : (cmd : Cmd) → P (ioctl p arg c cmd)
  unfolding ioctl
  ioctl_cases cmd = elim (Bool-cases (cmd.magic == magic)) [
    | inr other ↦ rw other (turned_down enotty)
    | inl ours ↦ rw ours (elim (Bool-cases (ltb 14 cmd.nr)) [
      | inl above ↦ rw above (turned_down enotty)
      | inr known ↦ rw known (elim (Bool-cases ((cmd.reads || cmd.writes) && not p.access_ok)) [
        | inl unmapped ↦ rw unmapped (turned_down efault)
        | inr mapped ↦ rw mapped (go (decode cmd))
      ])
    ])
  ]
    where
      go :
          (o : Option Command)
          → P (elim o as (λ x. Outcome) [
            | none ↦ refused enotty p c
            | some command ↦ handle p arg c command
          ])
      go none = turned_down enotty
      go (some k) = handled k

-- The sizes of the memory device stay, or become the ones that the module starts with.
abbrev pub StayOrReset : Config → Outcome → Type 0
StayOrReset c r =
    ((r.config.quantum ≡ c.quantum) × (r.config.qset ≡ c.qset))
    ⊎ ((r.config.quantum ≡ 4000) × (r.config.qset ≡ 1000))

handle_unprivileged :
    (p : Process) (arg : ℕ) (c : Config) (k : Command)
    → p.capable ≡ false
    → StayOrReset c (handle p arg c k)
unfolding handle
handle_unprivileged p arg c reset e = inr (refl, refl)
handle_unprivileged p arg c set_quantum e = rw e (inl (refl, refl))
handle_unprivileged p arg c set_qset e = rw e (inl (refl, refl))
handle_unprivileged p arg c tell_quantum e = rw e (inl (refl, refl))
handle_unprivileged p arg c tell_qset e = rw e (inl (refl, refl))
handle_unprivileged p arg c get_quantum e = inl (refl, refl)
handle_unprivileged p arg c get_qset e = inl (refl, refl)
handle_unprivileged p arg c query_quantum e = inl (refl, refl)
handle_unprivileged p arg c query_qset e = inl (refl, refl)
handle_unprivileged p arg c exchange_quantum e = rw e (inl (refl, refl))
handle_unprivileged p arg c exchange_qset e = rw e (inl (refl, refl))
handle_unprivileged p arg c shift_quantum e = rw e (inl (refl, refl))
handle_unprivileged p arg c shift_qset e = rw e (inl (refl, refl))
handle_unprivileged p arg c tell_size e = inl (refl, refl)
handle_unprivileged p arg c query_size e = inl (refl, refl)

-- After any ioctl of a process without CAP_SYS_ADMIN the quantum and the size of an array are those
-- from before, or both are the ones that the module starts with, which every process can ask for.
pub ioctl_unprivileged :
    (p : Process) (arg : ℕ) (c : Config) (cmd : Cmd)
    → p.capable ≡ false
    → StayOrReset c (ioctl p arg c cmd)
ioctl_unprivileged p arg c cmd e =
    ioctl_cases p arg c (StayOrReset c) (λ errno. inl (refl, refl))
      (λ k. handle_unprivileged p arg c k e) cmd

-- A command that the process may give and whose pointer it may use.
abbrev pub pointed : Command → Bool
pointed k = (code k).reads || (code k).writes

ioctl-code :
    (p : Process) (arg : ℕ) (c : Config) (k : Command)
    → ioctl p arg c (code k)
      ≡ (if pointed k && not p.access_ok then refused efault p c else handle p arg c k)
unfolding ioctl
ioctl-code p arg c k = let (ours, known) = code_known k in rw (ours, known, decode-code k) refl

-- The two parameters of the memory device, and the commands on each.
pub data Knob : Type 0 where
  quantum_knob qset_knob : Knob

abbrev pub set : Knob → Command
set quantum_knob = set_quantum
set qset_knob = set_qset

abbrev pub get : Knob → Command
get quantum_knob = get_quantum
get qset_knob = get_qset

abbrev pub tell : Knob → Command
tell quantum_knob = tell_quantum
tell qset_knob = tell_qset

abbrev pub query : Knob → Command
query quantum_knob = query_quantum
query qset_knob = query_qset

abbrev pub exchange : Knob → Command
exchange quantum_knob = exchange_quantum
exchange qset_knob = exchange_qset

abbrev pub shift : Knob → Command
shift quantum_knob = shift_quantum
shift qset_knob = shift_qset

module _ (p : Process) (arg : ℕ) (c : Config) (granted : p.capable ≡ true) where
  -- A shift by a process with CAP_SYS_ADMIN does what a tell does and answers what a query does.
  shift_lem :
      (k : Knob)
      → ioctl p arg c (code (shift k)) ≡ record (ioctl p arg c (code (tell k))) {
        answer = (ioctl p arg c (code (query k))).answer;
      }
  unfolding handle code
  shift_lem quantum_knob =
      rw
        (
          ioctl-code p arg c shift_quantum,
          ioctl-code p arg c tell_quantum,
          ioctl-code p arg c query_quantum,
          granted,
        )
        refl
  shift_lem qset_knob =
      rw
        (
          ioctl-code p arg c shift_qset,
          ioctl-code p arg c tell_qset,
          ioctl-code p arg c query_qset,
          granted,
        )
        refl

  -- An exchange by a process with CAP_SYS_ADMIN, whose `int` can be read, leaves the parameters as a
  -- set does, and answers and stores as a get before it would.
  pub exchange_lem :
      (k : Knob)
      → p.readable ≡ true
      → ioctl p arg c (code (exchange k)) ≡ record (ioctl p arg c (code (set k))) {
        answer = (ioctl p arg c (code (get k))).answer;
        memory = (ioctl p arg c (code (get k))).memory;
      }
  unfolding handle code
  exchange_lem quantum_knob read =
      rw
        (
          ioctl-code p arg c exchange_quantum,
          ioctl-code p arg c set_quantum,
          ioctl-code p arg c get_quantum,
          granted,
          read,
        )
        (elim (Bool-cases p.access_ok) [ inl good ↦ rw good refl | inr bad ↦ rw bad refl ])
  exchange_lem qset_knob read =
      rw
        (
          ioctl-code p arg c exchange_qset,
          ioctl-code p arg c set_qset,
          ioctl-code p arg c get_qset,
          granted,
          read,
        )
        (elim (Bool-cases p.access_ok) [ inl good ↦ rw good refl | inr bad ↦ rw bad refl ])

-- One parameter became what the process gave, or 0 where that could not be read.
abbrev pub Taken : Process → Config → Config → Type 0
Taken p c c' = (c' ≡ record c { quantum = got p }) ⊎ (c' ≡ record c { qset = got p })

-- What a call that fails leaves, by the error.
abbrev pub ErrorEnds : Process → Config → Outcome → Type 0
ErrorEnds p c r = elim r.answer [
  | ok ↦ Unit
  | value v ↦ r.memory ≡ p.memory
  | error efault ↦
      (r.memory ≡ p.memory)
      × ((r.config ≡ c) ⊎ (((p.readable ≡ false) ⊎ (p.writable ≡ false)) × Taken p c r.config))
  | error _ ↦ (r.memory ≡ p.memory) × (r.config ≡ c)
]

module _ (p : Process) (c : Config) where
  privileged_lem : (r : Outcome) → ErrorEnds p c r → ErrorEnds p c (privileged p c r)
  privileged_lem r ends = elim (Bool-cases p.capable) [
    | inl may ↦ rw may ends
    | inr not_may ↦ rw not_may (refl, refl)
  ]

  read_lem :
      (good : Bool) (c' : Config)
      → p.readable ≡ good
      → Taken p c c'
      → ErrorEnds p c (record { answer = retval good; config = c'; memory = p.memory })
  read_lem true c' e taken = tt
  read_lem false c' e taken = (refl, inr (inl e, taken))

  written_lem :
      (good : Bool) (v : ℕ)
      → ErrorEnds p c
          (record { answer = retval good; config = c; memory = if good then v else p.memory })
  written_lem true v = tt
  written_lem false v = (refl, inl refl)

  exchanged_lem :
      (good good' : Bool) (c' : Config) (tmp : ℕ)
      → p.readable ≡ good
      → p.writable ≡ good'
      → Taken p c c'
      → ErrorEnds p c (
          if good
          then record {
            answer = retval good';
            config = c';
            memory = if good' then tmp else p.memory;
          }
          else record { answer = error efault; config = c'; memory = p.memory })
  exchanged_lem true true c' tmp e e' taken = tt
  exchanged_lem true false c' tmp e e' taken = (refl, inr (inr e', taken))
  exchanged_lem false good' c' tmp e e' taken = (refl, inr (inl e, taken))

handle_errors :
    (p : Process) (arg : ℕ) (c : Config) (k : Command) → ErrorEnds p c (handle p arg c k)
unfolding handle
handle_errors p arg c reset = tt
handle_errors p arg c set_quantum = privileged_lem p c _ (read_lem p c p.readable _ refl (inl refl))
handle_errors p arg c set_qset = privileged_lem p c _ (read_lem p c p.readable _ refl (inr refl))
handle_errors p arg c tell_quantum = privileged_lem p c _ tt
handle_errors p arg c tell_qset = privileged_lem p c _ tt
handle_errors p arg c get_quantum = written_lem p c p.writable c.quantum
handle_errors p arg c get_qset = written_lem p c p.writable c.qset
handle_errors p arg c query_quantum = refl
handle_errors p arg c query_qset = refl
handle_errors p arg c exchange_quantum =
    privileged_lem p c _ (exchanged_lem p c p.readable p.writable _ c.quantum refl refl (inl refl))
handle_errors p arg c exchange_qset =
    privileged_lem p c _ (exchanged_lem p c p.readable p.writable _ c.qset refl refl (inr refl))
handle_errors p arg c shift_quantum = privileged_lem p c _ refl
handle_errors p arg c shift_qset = privileged_lem p c _ refl
handle_errors p arg c tell_size = tt
handle_errors p arg c query_size = refl

refused_lem : (p : Process) (c : Config) (e : Errno) → ErrorEnds p c (refused e p c)
refused_lem p c erestartsys = (refl, refl)
refused_lem p c enomem = (refl, refl)
refused_lem p c efault = (refl, inl refl)
refused_lem p c eagain = (refl, refl)
refused_lem p c einval = (refl, refl)
refused_lem p c ebusy = (refl, refl)
refused_lem p c enotty = (refl, refl)
refused_lem p c eperm = (refl, refl)

-- After an ioctl that fails, the `int` of the process is as before, and so are the parameters, but
-- for an EFAULT of an `int` that cannot be read or cannot be written: then one of the quantum and the
-- size of an array may be what was read there, or 0 where nothing could be read.
pub ioctl_errors :
    (p : Process) (arg : ℕ) (c : Config) (cmd : Cmd) → ErrorEnds p c (ioctl p arg c cmd)
ioctl_errors p arg c cmd =
    ioctl_cases p arg c (ErrorEnds p c) (refused_lem p c) (handle_errors p arg c) cmd
