-- ===== src/Driver/Examples.antt =====
-- The life of the driver of hmm.c on concrete answers of the kernel.
use rshm_hmm.Base.{ℕ, ◌<◌, ◌≡◌, arith, some, [], ◌∷◌, true}
use rshm_hmm.Kernel.{enomem, shr_page}
use rshm_hmm.Migrate.{World}
use rshm_hmm.Migrate.Fixtures.{all_system, world, half_used-Sim, moving, held}
use rshm_hmm.Moves.{Eviction}
use rshm_hmm.Driver.{InitAnswers, Module, remove_chunks, rshm_init}
use rshm_hmm.Driver.Release.{Emptied, remove_chunks-Emptied}
use rshm_hmm.Driver.Start.{IsFit, Started, rshm_init-Started}

abbrev eviction : Eviction
eviction = record { kind = all_system; src = moving; pages = λ i. 99; freed = [] }

remove_chunks-Emptied_example :
    (v : World) × (remove_chunks 2 (λ i. eviction) world ≡ some v) × Emptied v.device
remove_chunks-Emptied_example =
    remove_chunks-Emptied 2 (λ i. eviction) world held (17 ∷ []) half_used-Sim (tt, tt)
      (omega arith)

-- The second device gets no memory for its chunk.
abbrev good : InitAnswers
good = record {
  set_name = 0;
  add = 0;
  chunk = record { kzalloc = true; region = some 4294967296; krealloc = true; memremap = 0 };
}

abbrev bad : InitAnswers
bad = record good { chunk = record good.chunk { memremap = enomem } }

fit_new : (start : ℕ) → some 4294967296 ≡ some start → 0 < shr_page start
fit_new start e = ground (arith, e)

good-IsFit : IsFit good (λ i. eviction) 65537
good-IsFit = record {
  new = λ start e. (fit_new start e, tt);
  own = λ start e. (tt, tt);
  walk = omega arith;
}

bad-IsFit : IsFit bad (λ i. eviction) 65537
bad-IsFit = record {
  new = λ start e. (fit_new start e, tt);
  own = λ start e. (tt, tt);
  walk = omega arith;
}

rshm_init-Started_example :
    (m : Module) × (ret : ℕ) × (rshm_init 65537 (λ i. eviction) 0 good bad world.memory
      ≡ some (m, ret))
    × Started good bad m ret
rshm_init-Started_example =
    rshm_init-Started 65537 (λ i. eviction) 0 good bad world.memory good-IsFit bad-IsFit
