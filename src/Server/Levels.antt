-- ===== src/Server/Levels.antt =====
-- internal/lib/container_server_linux.go: processLevels counts the pods of each SELinux level, and a
-- label is released exactly with the last pod of its level.
use cri_t.Prelude.{
  eqb, if◌then◌else◌, Bool-cases, Option-cases, string_eq, nat_eq, ◌==◌, ==_iff, ==_refl, ℕ, ◌+◌,
  ◌-◌, ◌<◌, String, ◌≡◌, refl, ◌≢◌, inl, inr, Bool, true, false, Option, none, some, List, [], ◌∷◌,
  ◌++◌, arith,
}
use cri_t.Prelude.Maps.{
  Map, lookup, delete, insert, lookup-delete, lookup-insert, Unique, delete-Unique, insert-Unique,
}
use cri_t.Server.{
  Ctr, Sandbox, Server, new_server, add_container, add_infra_container, remove_container,
  remove_infra_container, users, release_level, add_sandbox, remove_sandbox, Call, adds, removes,
  adds_infra, removes_infra, adds_sandbox, removes_sandbox, step, run, IsFresh, AllFresh,
}

users-release_level :
    (l level : String) (levels : Map String ℕ)
    → 0 < users l levels
    → users level (release_level l levels).0
      ≡ (if l == level then users level levels - 1 else users level levels)
unfolding release_level insert
users-release_level l level levels pos = elim (Option-cases (lookup l levels)) [
  | inl missing ↦ absurd (ground arith)
  | inr (n, found) ↦
      ground
        (arith, ==_iff l level, lookup-delete l level levels, lookup-insert l level (n - 1) levels)
]

lookup-release_level :
    (l level : String) (levels : Map String ℕ)
    → 0 < users l levels
    → lookup level levels ≢ some 0
    → lookup level (release_level l levels).0 ≢ some 0
unfolding release_level insert
lookup-release_level l level levels pos live empty = elim (Option-cases (lookup l levels)) [
  | inl missing ↦ absurd (ground arith)
  | inr (n, found) ↦ absurd (
      ground (
        arith,
        live,
        ==_iff l level,
        lookup-delete l level levels,
        lookup-insert l level (n - 1) levels,
      ))
]

last-release_level :
    (l : String) (levels : Map String ℕ)
    → 0 < users l levels
    → (release_level l levels).1 ≡ eqb (users l levels) 1
unfolding release_level
last-release_level l levels pos = elim (Option-cases (lookup l levels)) [
  | inl missing ↦ absurd (ground arith)
  | inr (n, found) ↦ ground arith
]

module _ (level_of : String → Option String) where
  abbrev pub has_level : String → Sandbox → Bool
  has_level level sb = elim (level_of sb.process_label) [ none ↦ false | some l ↦ l == level ]

  abbrev pub count : String → Map String Sandbox → ℕ
  count level [] = 0
  count level ((id, sb) ∷ m) =
      let rest = count level m in if has_level level sb then rest + 1 else rest

  count-delete-none :
      (level id : String) (m : Map String Sandbox)
      → lookup id m ≡ none
      → count level (delete id m) ≡ count level m
  unfolding delete lookup
  count-delete-none level id [] out = refl
  count-delete-none level id ((j, sb) ∷ m) out = elim (Bool-cases (j == id)) [
    | inl hit ↦ absurd (ground arith)
    | inr miss ↦ ground (arith, count-delete-none level id m (ground arith))
  ]

  count-delete :
      (level id : String) (m : Map String Sandbox) (sb : Sandbox)
      → Unique m
      → lookup id m ≡ some sb
      → count level m
        ≡ (if has_level level sb then count level (delete id m) + 1 else count level (delete id m))
  unfolding delete lookup
  count-delete level id [] sb u found = absurd (cc)
  count-delete level id ((j, x) ∷ m) sb (fresh, u) found = elim (Bool-cases (j == id)) [
    | inl hit ↦
        let same : x ≡ sb = ground arith in
        let key : j ≡ id = (==_iff j id).0 hit in
        let out : lookup id m ≡ none = rw (← key) fresh in
        rw (← same, hit) (ground (arith, count-delete-none level id m out))
    | inr miss ↦ rw miss (ground (arith, count-delete level id m sb u (ground arith)))
  ]

  pub record IsCounted (s : Server) : Type 0 where
    pub unique : Unique s.sandboxes
    pub counted : (level : String) → users level s.process_levels ≡ count level s.sandboxes
    pub no_zero : (level : String) → lookup level s.process_levels ≢ some 0

  -- A change of a sandbox that keeps its label.
  change-IsCounted :
      (s t : Server) (id : String) (sb sb' : Sandbox)
      → IsCounted s
      → lookup id s.sandboxes ≡ some sb
      → sb'.process_label ≡ sb.process_label
      → t.sandboxes ≡ insert id sb' s.sandboxes
      → t.process_levels ≡ s.process_levels
      → IsCounted t
  unfolding insert
  change-IsCounted s t id sb sb' v found label boxes levels = record {
    unique = rw boxes (insert-Unique id sb' s.sandboxes v.unique);
    counted = λ level.
        rw (boxes, levels, v.counted level)
          (ground (arith, label, count-delete level id s.sandboxes sb v.unique found));
    no_zero = λ level. rw levels (v.no_zero level);
  }

  add_container-IsCounted : (c : Ctr) (s : Server) → IsCounted s → IsCounted (add_container c s)
  unfolding add_container
  add_container-IsCounted c s v = elim (Option-cases (lookup c.sandbox_id s.sandboxes)) [
    | inl missing ↦ rw (missing, add_container) v
    | inr (sb, found) ↦
        rw (found, add_container) (change-IsCounted s _ c.sandbox_id sb _ v found refl refl refl)
  ]

  remove_container-IsCounted :
      (c : Ctr) (s : Server) → IsCounted s → IsCounted (remove_container c s)
  unfolding remove_container
  remove_container-IsCounted c s v = elim (Option-cases (lookup c.sandbox_id s.sandboxes)) [
    | inl missing ↦ rw (missing, remove_container) v
    | inr (sb, found) ↦
        rw (found, remove_container) (change-IsCounted s _ c.sandbox_id sb _ v found refl refl refl)
  ]

  add_sandbox-IsCounted :
      (sb : Sandbox) (s : Server)
      → IsCounted s
      → lookup sb.id s.sandboxes ≡ none
      → IsCounted (add_sandbox level_of sb s).0
  unfolding add_sandbox insert
  add_sandbox-IsCounted sb s v fresh = elim (Option-cases (level_of sb.process_label)) [
    | inl bad ↦
        rw (bad, add_sandbox)
          (record {
            unique = insert-Unique sb.id sb s.sandboxes v.unique;
            counted = λ level.
                ground
                  (arith, v.counted level, bad, count-delete-none level sb.id s.sandboxes fresh);
            no_zero = v.no_zero;
          })
    | inr (l, good) ↦
        rw (good, add_sandbox)
          (record {
            unique = insert-Unique sb.id sb s.sandboxes v.unique;
            counted = λ level. ground (
              arith,
              v.counted level,
              v.counted l,
              good,
              ==_iff l level,
              lookup-insert l level (users l s.process_levels + 1) s.process_levels,
              count-delete-none level sb.id s.sandboxes fresh,
            );
            no_zero = λ level empty. absurd (
                ground (
                  arith,
                  v.no_zero level,
                  ==_iff l level,
                  lookup-insert l level (users l s.process_levels + 1) s.process_levels,
                ));
          })
  ]

  remove_sandbox-IsCounted :
      (id : String) (s : Server) → IsCounted s → IsCounted (remove_sandbox level_of id s).0
  unfolding remove_sandbox release_level
  remove_sandbox-IsCounted id s v = elim (Option-cases (lookup id s.sandboxes)) [
    | inl missing ↦ rw (missing, remove_sandbox) v
    | inr (sb, found) ↦ elim (Option-cases (level_of sb.process_label)) [
      | inl bad ↦ rw (found, remove_sandbox) (rw bad v)
      | inr (l, good) ↦
          let own : has_level l sb ≡ true = ground (arith, good, ==_refl l) in
          let pos : 0 < users l s.process_levels =
            ground (arith, v.counted l, own, count-delete l id s.sandboxes sb v.unique found) in
          rw (found, remove_sandbox)
            (rw good (record {
              unique = delete-Unique id s.sandboxes v.unique;
              counted = λ level. ground (
                arith,
                v.counted level,
                good,
                ==_iff l level,
                count-delete level id s.sandboxes sb v.unique found,
                users-release_level l level s.process_levels pos,
              );
              no_zero =
                  λ level. lookup-release_level l level s.process_levels pos (v.no_zero level);
            }))
    ]
  ]

  new_server-IsCounted : IsCounted new_server
  unfolding new_server lookup
  new_server-IsCounted = record {
    unique = tt;
    counted = λ level. refl;
    no_zero = λ level empty. absurd (cc);
  }

  step-IsCounted :
      (s : Server) (c : Call) → IsCounted s → IsFresh level_of s c → IsCounted (step level_of s c)
  unfolding step add_infra_container remove_infra_container
  step-IsCounted s (adds c) v f = add_container-IsCounted c s v
  step-IsCounted s (removes c) v f = remove_container-IsCounted c s v
  step-IsCounted s (adds_infra c) v f = record {
    unique = v.unique;
    counted = v.counted;
    no_zero = v.no_zero;
  }
  step-IsCounted s (removes_infra c) v f = record {
    unique = v.unique;
    counted = v.counted;
    no_zero = v.no_zero;
  }
  step-IsCounted s (adds_sandbox sb) v f = add_sandbox-IsCounted sb s v f
  step-IsCounted s (removes_sandbox id) v f = remove_sandbox-IsCounted id s v

  run-IsCounted :
      (cs : List Call) (s : Server)
      → IsCounted s
      → AllFresh level_of s cs
      → IsCounted (run level_of s cs)
  unfolding run AllFresh
  run-IsCounted [] s v f = v
  run-IsCounted (c ∷ cs) s v (f, fs) =
      run-IsCounted cs (step level_of s c) (step-IsCounted s c v f) fs

  -- After any calls from an empty server in which no pod is added under the ID of one that is
  -- there: processLevels counts, for every level, the pods whose label has that level; it never
  -- holds a 0; and no ID stands twice in the table of pods.
  pub run-new_server-IsCounted :
      (cs : List Call) → AllFresh level_of new_server cs → IsCounted (run level_of new_server cs)
  run-new_server-IsCounted cs f = run-IsCounted cs new_server new_server-IsCounted f

  -- After any such calls, RemoveSandbox of a pod whose label has a level succeeds, takes the pod
  -- out, and releases the label exactly when no pod of that level is left.
  pub remove_sandbox-releases :
      (cs : List Call) (id level : String) (sb : Sandbox)
      → AllFresh level_of new_server cs
      → lookup id (run level_of new_server cs).sandboxes ≡ some sb
      → level_of sb.process_label ≡ some level
      → let before = run level_of new_server cs in
        let (after, failure) = remove_sandbox level_of id before in
        (failure ≡ none)
        × (lookup id after.sandboxes ≡ none)
        × (after.released ≡ (
            if eqb (count level after.sandboxes) 0
            then before.released ++ sb.process_label ∷ []
            else before.released))
  unfolding remove_sandbox
  remove_sandbox-releases cs id level sb f found good =
      let s = run level_of new_server cs in
      let v = run-new_server-IsCounted cs f in
      let own : has_level level sb ≡ true = ground (arith, good, ==_refl level) in
      let same = count-delete level id s.sandboxes sb v.unique found in
      let pos : 0 < users level s.process_levels = ground (arith, v.counted level, own, same) in
      let last = last-release_level level s.process_levels pos in
      rw (found, remove_sandbox)
        (rw good (
          refl,
          ground (arith, lookup-delete id id s.sandboxes, ==_refl id),
          ground (arith, last, v.counted level, own, same),
        ))
