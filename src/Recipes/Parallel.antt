-- ===== src/Recipes/Parallel.antt =====
-- How many jobs the recipes of use_on_realworld_projects/realworld_projects.py run at once.
use psychicstd.Base.{
  ℕ, ◌*◌, ◌/◌, ◌≤◌, max, min, ◌≡◌, Option, none, some, ◌⊎◌, nat_eq, ltb, Bool, if◌then◌else◌, ◌==◌,
  arith,
}

pub record Parallelism : Type 0 where
  pub logical_cpus : ℕ
  pub jobs : ℕ
  pub memory_jobs : ℕ
  pub available_memory : ℕ

unfoldable pub memory_limited : Parallelism → Bool
memory_limited p = ltb p.jobs p.logical_cpus

-- The end of `detect_parallelism`: what is chosen for `os.cpu_count()` and the available memory.
unfoldable pub parallelism_of : Option ℕ → ℕ → Parallelism
unfolding nat_eq
parallelism_of cpu_count available =
    let counted : ℕ = elim cpu_count [ none ↦ 0 | some n ↦ n ] in
    let cpus = if counted == 0 then 1 else counted in
    let memory = if available == 0 then 1 else available / 1610612736 in
    record {
      logical_cpus = cpus;
      jobs = max 1 (min cpus memory);
      memory_jobs = max 1 memory;
      available_memory = available;
    }

-- At least one job, no more than processors, and no more than have 1.5 GiB of memory each.
pub parallelism_of-bounds :
    (cpu_count : Option ℕ) (available : ℕ)
    → let p = parallelism_of cpu_count available in
      (1 ≤ p.jobs)
      × ((p.jobs ≤ p.logical_cpus) × ((p.jobs ≡ 1) ⊎ (p.jobs * 1610612736 ≤ available)))
unfolding parallelism_of
parallelism_of-bounds cpu_count available = ground arith
