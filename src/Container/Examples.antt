-- ===== src/Container/Examples.antt =====
-- A running and a lost container, and the theorems at concrete inputs.
use cri_t.Prelude.{string_eq, nat_eq, ==_iff, ok, String, ◌≡◌, refl, ◌↔◌, false, none, some, arith}
use cri_t.Container.{running, ContainerState, Container, empty_state, new_container}
use cri_t.Container.Pid.{Kernel, is_gone, pid, IsAlive, pid_iff}
use cri_t.Container.Refresh.{failed, Answers}

abbrev live : ContainerState
live = record empty_state { status = running; pid = 42; init_pid = 42; init_start_time = "1700" }

abbrev host : Kernel
host = record { probe = λ p. none; stat = λ p. ok ("S", "1700") }

live-IsAlive : IsAlive host live "S"
unfolding empty_state is_gone
live-IsAlive = record {
  initialized = omega arith;
  running_pid = omega arith;
  answers = refl;
  same_process = refl;
  not_dead = λ e. absurd (ground (arith, (==_iff {K = String} "S" "X").1 e));
  not_zombie = λ e. absurd (ground (arith, (==_iff {K = String} "S" "Z").1 e));
}

pid_iff_example : (pid host live ≡ ok (42, "S")) ↔ ((42 ≡ live.init_pid) × IsAlive host live "S")
pid_iff_example = pid_iff host live 42 "S"

abbrev reused : Kernel
reused = record { probe = λ p. none; stat = λ p. ok ("S", "9999") }

abbrev web : Container
web = record (new_container "id1" "web" "pod1" 5) { state = live }

abbrev gone : Answers
gone = record {
  first = failed;
  exit_file_first = some (record { change_time = some 8; code = none });
  exit_file_came = false;
  second = failed;
  exit_file_second = none;
  exit_file_last = none;
  oom_file = false;
  node_level_pid_namespace = false;
  kill_all_fails = false;
  now = 9;
}
