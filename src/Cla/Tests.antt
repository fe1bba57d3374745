-- ===== src/Cla/Tests.antt =====
-- Runs of the manager of convergence layers.
use dtn7_gold.Prelude.{
  ℕ, ◌≡◌, ◌++◌, refl, arith, Bool, true, false, List, [], ◌∷◌, none, some, map, replicate,
}
use dtn7_gold.Prelude.Int.{pos, negsuc}
use dtn7_gold.Cla.Manager.{
  Convergence, started, failed, is_active, Manager, new_manager, Event, convergence, registering,
  unregistering, ticked, closed, peer_disappeared, run,
}
use dtn7_gold.Cla.Manager.Elements.{AreSound}
use dtn7_gold.Cla.Manager.Sound.{run-AreSound}
use dtn7_gold.Cla.Manager.Retries.{only_active, failing_round, run-give_up}
use dtn7_gold.Cla.Manager.Lost.{failing, lost, with_only, empty_manager, run-lost}

abbrev layer : ℕ → Bool → Convergence
layer n permanent = record {
  instance_id = n;
  address = n;
  is_permanent = permanent;
  peer_endpoint = some n;
  own_endpoint = none;
}

abbrev events : List Event
events =
    registering started (convergence (layer 1 false))
    ∷ registering (failed true) (convergence (layer 2 false))
    ∷ ticked (λ conv. started)
    ∷ peer_disappeared (failed true) (convergence (layer 1 false)) 7
    ∷ closed
    ∷ []

run-AreSound_example : (m : Manager) × (run events new_manager ≡ some m) × AreSound m.convs
unfolding new_manager
run-AreSound_example =
    run-AreSound events new_manager (refl, (refl, (tt, (refl, (tt, tt)))))
      (refl, (refl, (refl, (refl, (refl, tt))))) tt

abbrev two_layers : Manager
two_layers = record {
  queue_ttl = 10;
  convs =
      record { conv = layer 1 false; ttl = pos 2; handling = false }
      ∷ record { conv = layer 2 false; ttl = negsuc 0; handling = true }
      ∷ [];
  providers = [];
  stop_flag = false;
  out = [];
}

run-give_up_example :
    run (map failing_round (replicate 3 (λ conv. true))) two_layers
    ≡ some (record two_layers { convs = only_active two_layers.convs })
run-give_up_example =
    run-give_up (replicate 3 (λ conv. true)) 2 two_layers (omega arith)
      ((refl, omega arith), ((refl, tt), tt))

run-lost_example :
    (run
        (registering (failed true) (convergence (layer 1 true)) ∷ replicate 10 failing)
        (empty_manager 9 [] [])
      ≡ some (with_only (empty_manager 9 [] []) (lost (layer 1 true))))
    × (is_active (lost (layer 1 true)) ≡ true)
    × (run
          (registering (failed true) (convergence (layer 1 true)) ∷ replicate 10 failing
            ++ unregistering (convergence (layer 1 true)) ∷ [])
          (empty_manager 9 [] [])
        ≡ none)
run-lost_example = run-lost (layer 1 true) 9 [] [] refl
