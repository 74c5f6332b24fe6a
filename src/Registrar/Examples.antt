-- ===== src/Registrar/Examples.antt =====
-- Runs of the registrar, and its theorems at concrete inputs.
use cri_t.Prelude.{string_eq, nat_eq, ok, ◌≡◌, refl, some, List, [], ◌∷◌}
use cri_t.Prelude.Maps.{lookup, delete, insert}
use cri_t.Registrar.{
  name_reserved, new_registrar, reserve, release, get_names, Call, reserves, releases, step, run,
}
use cri_t.Registrar.Invariant.{IsValid, new_registrar-IsValid, run-IsValid}
use cri_t.Registrar.Lookups.{holders, spec_run, holders-run}

abbrev two_pods : List Call
two_pods =
    reserves "web" "pod1" ∷ reserves "api" "pod1" ∷ reserves "db" "pod2" ∷ releases "web" ∷ []

two_pods_runs : get_names "pod1" (run new_registrar two_pods) ≡ ok ("api" ∷ [])
unfolding run step reserve release get_names new_registrar lookup insert delete
two_pods_runs = refl

taken : (reserve "db" "pod1" (run new_registrar two_pods)).1 ≡ some name_reserved
unfolding run step reserve release new_registrar lookup insert delete
taken = refl

two_pods-IsValid : IsValid (run new_registrar two_pods)
two_pods-IsValid = run-IsValid new_registrar two_pods new_registrar-IsValid

holders-run_example :
    holders (run new_registrar two_pods) ≡ spec_run (holders new_registrar) two_pods
holders-run_example = holders-run new_registrar two_pods new_registrar-IsValid
