-- ===== src/Cla/Manager/Retries.antt =====
-- A convergence layer that cannot be started is tried for a bounded time.
use dtn7_gold.Prelude.{
  ℕ, zero, suc, ◌≤◌, ◌<◌, ◌≡◌, refl, sym, ◌∙◌, ap, arith, Bool, List, [], ◌∷◌, ◌++◌, append_assoc,
  length, map, All, some, if◌then◌else◌, Bool-cases, inl, inr,
}
use dtn7_gold.Prelude.Int.{ℤ, pos, negsuc}
use dtn7_gold.Cla.Manager.{
  Convergence, Start, failed, Elem, is_negative, is_active, activate, Manager, tick_elem, tick,
  Event, ticked, step, run,
}
use dtn7_gold.Cla.Manager.Elements.{IsTemporary}

abbrev pub only_active : List Elem → List Elem
only_active [] = []
only_active (ce ∷ ces) = if is_negative ce.ttl then ce ∷ only_active ces else only_active ces

abbrev pub TtlAtMost : ℕ → ℤ → Type 0
TtlAtMost bound (pos n) = n ≤ bound
TtlAtMost bound (negsuc n) = Unit {0}

-- Every start of a round fails; the flag says whether to retry.
abbrev pub all_fail : (Convergence → Bool) → Convergence → Start
all_fail retries conv = failed (retries conv)

abbrev ticks : List (Convergence → Bool) → List Elem → List Elem
ticks [] ces = ces
ticks (r ∷ rs) ces = ticks rs (tick (all_fail r) ces)

tick-append :
    (starts : Convergence → Start) (xs ys : List Elem)
    → tick starts (xs ++ ys) ≡ tick starts xs ++ tick starts ys
unfolding tick
tick-append starts [] ys = refl
tick-append starts (x ∷ xs) ys =
    ap (λ (t : List Elem). tick_elem starts x ++ t) (tick-append starts xs ys)
    ∙ sym (append_assoc (tick_elem starts x) (tick starts xs) (tick starts ys))

ticks-append :
    (rs : List (Convergence → Bool)) (xs ys : List Elem)
    → ticks rs (xs ++ ys) ≡ ticks rs xs ++ ticks rs ys
ticks-append [] xs ys = refl
ticks-append (r ∷ rs) xs ys =
    ap (ticks rs) (tick-append (all_fail r) xs ys)
    ∙ ticks-append rs (tick (all_fail r) xs) (tick (all_fail r) ys)

ticks-nil : (rs : List (Convergence → Bool)) → ticks rs [] ≡ []
unfolding tick
ticks-nil [] = refl
ticks-nil (r ∷ rs) = ticks-nil rs

-- One element, by its remaining time.
ticks-active :
    (rs : List (Convergence → Bool)) (ce : Elem) (n : ℕ)
    → ticks rs (record ce { ttl = negsuc n } ∷ []) ≡ record ce { ttl = negsuc n } ∷ []
unfolding tick is_active
ticks-active [] ce n = refl
ticks-active (r ∷ rs) ce n = ticks-active rs ce n

ticks-idle :
    (rs : List (Convergence → Bool)) (ce : Elem) (n : ℕ)
    → IsTemporary ce.conv
    → n < length rs
    → ticks rs (record ce { ttl = pos n } ∷ []) ≡ []
unfolding tick is_active activate
ticks-idle [] ce n h small = absurd (omega arith)
ticks-idle (r ∷ rs) ce zero h small = rw h (ticks-nil rs)
ticks-idle (r ∷ rs) ce (suc n) h small = elim (Bool-cases (r ce.conv)) [
  | inl again ↦ rw again (ticks-idle rs ce n h (omega arith))
  | inr over ↦ rw over (ticks-nil rs)
]

ticks-one :
    (rs : List (Convergence → Bool)) (ce : Elem) (bound : ℕ)
    → IsTemporary ce.conv
    → TtlAtMost bound ce.ttl
    → bound < length rs
    → ticks rs (ce ∷ []) ≡ only_active (ce ∷ [])
ticks-one rs ce bound h small more = go ce.ttl small
  where
    go :
        (ttl : ℤ)
        → TtlAtMost bound ttl
        → ticks rs (record ce { ttl = ttl } ∷ []) ≡ only_active (record ce { ttl = ttl } ∷ [])
    go (pos n) le = ticks-idle rs ce n h (omega arith)
    go (negsuc n) _ = ticks-active rs ce n

only_active-cons :
    (ce : Elem) (ces : List Elem)
    → only_active (ce ∷ []) ++ only_active ces ≡ only_active (ce ∷ ces)
only_active-cons ce ces = elim (Bool-cases (is_negative ce.ttl)) [ inl e ↦ rw e | inr e ↦ rw e ]

abbrev pub IsIdleAtMost : ℕ → Elem → Type 0
IsIdleAtMost bound ce = IsTemporary ce.conv × TtlAtMost bound ce.ttl

ticks_lem :
    (rs : List (Convergence → Bool)) (bound : ℕ) (ces : List Elem)
    → bound < length rs
    → All (IsIdleAtMost bound) ces
    → ticks rs ces ≡ only_active ces
ticks_lem rs bound [] more h = ticks-nil rs
ticks_lem rs bound (ce ∷ ces) more h =
    ticks-append rs (ce ∷ []) ces
    ∙ (λ i. ticks-one rs ce bound h.0.0 h.0.1 more i ++ ticks_lem rs bound ces more h.1 i)
    ∙ only_active-cons ce ces

abbrev pub failing_round : (Convergence → Bool) → Event
failing_round r = ticked (all_fail r)

run-ticks :
    (rs : List (Convergence → Bool)) (m : Manager)
    → run (map failing_round rs) m ≡ some (record m { convs = ticks rs m.convs })
unfolding run step
run-ticks [] m = refl
run-ticks (r ∷ rs) m = run-ticks rs (record m { convs = tick (all_fail r) m.convs })

-- No convergence layer is permanent, and none that is not active has more attempts left than a bound: after
-- more rounds of the ticker than that, in each of which every start fails, the manager has forgotten all
-- that were not active, and has kept all that were.
pub run-give_up :
    (rs : List (Convergence → Bool)) (bound : ℕ) (m : Manager)
    → bound < length rs
    → All (IsIdleAtMost bound) m.convs
    → run (map failing_round rs) m ≡ some (record m { convs = only_active m.convs })
run-give_up rs bound m more h =
    run-ticks rs m
    ∙ ap (λ (ces : List Elem). some (record m { convs = ces })) (ticks_lem rs bound m.convs more h)
