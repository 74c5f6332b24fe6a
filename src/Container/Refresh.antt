-- ===== src/Container/Refresh.antt =====
-- `UpdateContainerStatus` and `updateContainerStatusFromExitFile` of internal/oci/runtime_oci.go.
-- What the runtime's `state` command, the exit file and the clock answer is an environment; an exit
-- code is not negative.
use cri_t.Prelude.{
  if◌then◌else◌, is_some, nat_eq, string_eq, ℕ, ◌≡◌, refl, Bool, true, false, ◌&&◌, ◌||◌, not,
  Option, none, some, List, [], ◌∷◌, arith,
}
use cri_t.Container.{Status, stopped, ContainerState, Container}

-- The `state` command: it fails, prints what cannot be decoded, or prints JSON that is decoded over
-- a copy of the state.
pub data StateOutput : Type 0 where
  failed malformed : StateOutput
  decoded : (ContainerState → ContainerState) → StateOutput

-- The exit file: its change time, and the number in it.
pub record ExitFile : Type 0 where
  pub change_time : Option ℕ
  pub code : Option ℕ

pub data StatusError : Type 0 where
  no_exit_file no_finished_time bad_exit_code bad_output nil_state : StatusError
  signal_failed : StatusError

pub record Answers : Type 0 where
  pub first : StateOutput
  pub exit_file_first : Option ExitFile
  -- the exit file was there at the end of the wait
  pub exit_file_came : Bool
  pub second : StateOutput
  pub exit_file_second : Option ExitFile
  pub exit_file_last : Option ExitFile
  pub oom_file : Bool
  pub node_level_pid_namespace : Bool
  pub kill_all_fails : Bool
  pub now : ℕ

unfoldable pub update_from_exit_file :
    Option ExitFile → ContainerState → ContainerState × Option StatusError
update_from_exit_file none s = (s, some no_exit_file)
update_from_exit_file (some f) s =
    let s' = record s { finished = f.change_time } in
    if not (is_some f.change_time)
    then (s', some no_finished_time)
    else if is_some f.code
    then (record s' { exit_code = f.code }, none)
    else (s', some bad_exit_code)

-- What stateCmd does where the command fails.
lost : Option ExitFile → ℕ → ContainerState → ContainerState
unfolding update_from_exit_file
lost file now s =
    let (s', failure) = update_from_exit_file file (record s { status = stopped }) in
    if is_some failure then record s' { finished = some now; exit_code = some 255 } else s'

abbrev is_stopped : Status → Bool
is_stopped stopped = true
is_stopped _ = false

-- From the exit file to the end.
finish : Answers → ContainerState → ContainerState × Option StatusError
unfolding update_from_exit_file
finish a s =
    let (s', failure) =
      if a.exit_file_came then update_from_exit_file a.exit_file_last s else (s, none) in
    if is_some failure then (s', failure) else (
      record s' { oom_killed = s'.oom_killed || a.oom_file },
      if a.node_level_pid_namespace && a.kill_all_fails then some signal_failed else none,
    )

-- After the wait the command runs again.
rerun : Answers → ContainerState → ContainerState × Option StatusError
unfolding lost finish
rerun a s = elim a.second [
  | failed ↦ (lost a.exit_file_second a.now s, some nil_state)
  | malformed ↦ (s, some bad_output)
  | decoded f ↦ finish a (f s)
]

refresh : Answers → ContainerState → ContainerState × Option StatusError
unfolding lost rerun
refresh a s = elim a.first [
  | failed ↦ (lost a.exit_file_first a.now s, none)
  | malformed ↦ (s, some bad_output)
  | decoded f ↦ if is_stopped (f s).status then rerun a s else (f s, none)
]

unfoldable pub update_container_status : Answers → Container → Container × Option StatusError
unfolding refresh
update_container_status a c =
    if c.spoofed
    then (c, none)
    else if is_some c.state.exit_code && is_some c.state.finished
    then (c, none)
    else let (s, failure) = refresh a c.state in (record c { state = s }, failure)

unfoldable pub updates : List Answers → Container → Container
updates [] c = c
updates (a ∷ rest) c = updates rest (update_container_status a c).0

-- A state that no update changes any more.
abbrev pub IsFinal : ContainerState → Type 0
IsFinal s = (is_some s.exit_code ≡ true) × (is_some s.finished ≡ true)

update-IsFinal :
    (a : Answers) (c : Container) → IsFinal c.state → (update_container_status a c).0 ≡ c
unfolding update_container_status
update-IsFinal a c f = ground arith

updates-IsFinal : (rest : List Answers) (c : Container) → IsFinal c.state → updates rest c ≡ c
unfolding updates update_container_status
updates-IsFinal [] c f = refl
updates-IsFinal (a ∷ rest) c f = rw (update-IsFinal a c f) (updates-IsFinal rest c f)

lost-IsFinal :
    (file : Option ExitFile) (now : ℕ) (s : ContainerState)
    → IsFinal (lost file now s) × ((lost file now s).status ≡ stopped)
unfolding lost
lost-IsFinal file now s = ground arith

update_container_status-lost :
    (a : Answers) (c : Container)
    → c.spoofed ≡ false
    → a.first ≡ failed
    → (is_some c.state.exit_code && is_some c.state.finished) ≡ false
    → update_container_status a c
      ≡ (record c { state = lost a.exit_file_first a.now c.state }, none)
unfolding update_container_status refresh
update_container_status-lost a c real gone open_state = ground arith

-- Where the runtime no longer knows a container, the first update returns no error and leaves it
-- stopped, with a finish time and an exit code, and no later update, whatever is answered, changes
-- the container again.
pub updates_lost :
    (a : Answers) (rest : List Answers) (c : Container)
    → c.spoofed ≡ false
    → a.first ≡ failed
    → (is_some c.state.exit_code && is_some c.state.finished) ≡ false
    → let (c', failure) = update_container_status a c in
      (failure ≡ none) × (c'.state.status ≡ stopped) × IsFinal c'.state × (updates rest c' ≡ c')
updates_lost a rest c real gone open_state =
    let (f, st) = lost-IsFinal a.exit_file_first a.now c.state in
    rw (update_container_status-lost a c real gone open_state) (
      refl,
      st,
      f,
      updates-IsFinal rest (record c { state = lost a.exit_file_first a.now c.state }) f,
    )
