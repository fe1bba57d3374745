-- ===== src/Cla/Manager/Lost.antt =====
-- A permanent convergence layer whose start fails too often.
use dtn7_gold.Prelude.{
  ℕ, zero, suc, ◌≡◌, refl, ap, ◌∙◌, true, false, List, [], ◌∷◌, ◌++◌, Option, none, some, ==_self,
  replicate,
}
use mathlib.Core.Option.{some-injective}
use dtn7_gold.Prelude.Int.{ℤ, pos, negsuc}
use dtn7_gold.Cla.Manager.{
  Convergence, failed, Elem, is_active, activate, deactivate, Manager, register_convergence,
  known_peer, unregister_convergence, convergence, register, unregister, tick, Event, registering,
  unregistering, ticked, step, run,
}

-- A round in which every start fails and asks for a retry.
abbrev pub failing : Event
failing = ticked (λ conv. failed true)

abbrev elem_with : Convergence → ℤ → Elem
elem_with conv ttl = record { conv = conv; ttl = ttl; handling = false }

abbrev pub with_only : Manager → Elem → Manager
with_only m ce = record m { convs = ce ∷ [] }

abbrev pub lost : Convergence → Elem
lost conv = elem_with conv (negsuc 0)

rounds-lost :
    (conv : Convergence) (m : Manager) (n : ℕ)
    → conv.is_permanent ≡ true
    → run (replicate (suc n) failing) (with_only m (elem_with conv (pos n)))
      ≡ some (with_only m (lost conv))
unfolding run step tick activate is_active
rounds-lost conv m zero h = simp h refl
rounds-lost conv m (suc n) h = rounds-lost conv m n h

-- A manager that runs and has no convergence layer.
abbrev pub empty_manager : ℕ → List ℕ → List ℕ → Manager
empty_manager n providers out = record {
  queue_ttl = suc n;
  convs = [];
  providers = providers;
  stop_flag = false;
  out = out;
}

run-append :
    (es fs : List Event) (m m' : Manager) → run es m ≡ some m' → run (es ++ fs) m ≡ run fs m'
unfolding run
run-append [] fs m m' h = ap (run fs) (some-injective m m' h)
run-append (e ∷ es) fs m m' h = go (λ m₁ q. run-append es fs m₁ m' q) (step e m) refl
  where
    go :
        ((m₁ : Manager) → run es m₁ ≡ some m' → run (es ++ fs) m₁ ≡ run fs m')
        → (o : Option Manager) → step e m ≡ o
        → run (e ∷ es ++ fs) m ≡ run fs m'
    go later none q = cc (rw (run, q) at h)
    go later (some m₁) q = rw (run, q) (later m₁ (rw (run, q) at h))

lost-panics :
    (conv : Convergence) (m : Manager)
    → run (unregistering (convergence conv) ∷ []) (with_only m (lost conv)) ≡ none
unfolding run step unregister unregister_convergence deactivate is_active
lost-panics conv m =
    rw
      (
        run,
        step,
        unregister,
        unregister_convergence,
        ==_self conv.address,
        ==_self conv.instance_id,
      )
      refl

-- A permanent convergence layer that is registered at a manager without any, and whose start fails at the
-- registration and in each of as many rounds of the ticker as the manager allows attempts, and asks for a
-- retry each time: it then counts as active although it was never started and has no handler, and
-- unregistering it panics.
pub run-lost :
    (conv : Convergence) (n : ℕ) (providers out : List ℕ)
    → conv.is_permanent ≡ true
    → (run
          (registering (failed true) (convergence conv) ∷ replicate (suc n) failing)
          (empty_manager n providers out)
        ≡ some (with_only (empty_manager n providers out) (lost conv)))
      × (is_active (lost conv) ≡ true)
      × (run
            (registering (failed true) (convergence conv) ∷ replicate (suc n) failing
              ++ unregistering (convergence conv) ∷ [])
            (empty_manager n providers out)
          ≡ none)
unfolding run step register register_convergence activate is_active known_peer
run-lost conv n providers out h =
    let m : Manager = empty_manager n providers out in
    let rounds = rounds-lost conv m n h in
    (
      rounds,
      refl,
      run-append (replicate (suc n) failing) _ (with_only m (elem_with conv (pos n))) _ rounds
          ∙ lost-panics conv m,
    )
