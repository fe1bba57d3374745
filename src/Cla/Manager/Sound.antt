-- ===== src/Cla/Manager/Sound.antt =====
-- An element is active if and only if its handler runs, so that stopping it never panics.
use dtn7_gold.Prelude.{
  ℕ, ◌≡◌, refl, subst, ◌∙◌, ap, Bool, true, false, not, ◌&&◌, ◌||◌, sym, List, [], ◌∷◌, All, Option,
  none, some, ◌==◌, Bool-cases, inl, inr, if◌then◌else◌,
}
use dtn7_gold.Prelude.Lists.{All-append}
use dtn7_gold.Cla.Manager.{
  Convergence, Start, Elem, new_convergence_element, is_negative, is_active, activate, deactivate,
  Manager, load, delete, store_elem, known_peer, has_provider, register_element, register_loaded,
  register_convergence, register_provider, deleted, unregister_loaded, unregister_convergence,
  unregister_provider, Convergable, convergence, provider, register, unregister, restart, tick_elem,
  tick, unregister_all, Event, registering, unregistering, restarting, peer_disappeared,
  other_status, ticked, closed, map_manager, forward, stopped, if_open, step, run,
}
use dtn7_gold.Cla.Manager.Elements.{
  IsTemporary, IsSound, AreSound, activate-IsSound, load-IsSound, delete-AreSound,
  store_elem-AreSound, if-AreSound,
}

if-manager :
    (t : Bool) (x y : Manager)
    → AreSound x.convs
    → AreSound y.convs
    → AreSound (if t then x else y).convs
if-manager true x y hx hy = hx
if-manager false x y hx hy = hy

-- A step that does not panic, with sound elements and the stop flag behind it.
abbrev IsSoundAfter : Bool → Option Manager → Type 0
IsSoundAfter flag o = (m' : Manager) × (o ≡ some m') × AreSound m'.convs × (m'.stop_flag ≡ flag)

if-IsSound :
    (t : Bool) (o : Option Manager) (m : Manager)
    → IsSoundAfter m.stop_flag o
    → AreSound m.convs
    → IsSoundAfter m.stop_flag (if t then o else some m)
if-IsSound true o m h hs = h
if-IsSound false o m h hs = (m, refl, hs, refl)

if-flag :
    (t : Bool) (x y : Manager) (flag : Bool)
    → x.stop_flag ≡ flag
    → y.stop_flag ≡ flag
    → (if t then x else y).stop_flag ≡ flag
if-flag true x y flag hx hy = hx
if-flag false x y flag hx hy = hy

register_element-AreSound :
    (start : Start) (from_map : Bool) (ce : Elem) (m : Manager)
    → IsSound ce
    → AreSound m.convs
    → AreSound (register_element start from_map ce m).convs
register_element-AreSound start from_map ce m h hs =
    elim (Bool-cases (known_peer ce.conv.peer_endpoint m.convs)) [
      | inl known ↦ rw known hs
      | inr new ↦
          let a = activate start ce in
          let stored : AreSound (store_elem a.elem m.convs) =
            store_elem-AreSound a.elem m.convs (activate-IsSound start ce h) hs in
          rw new (
            if-AreSound (not a.successful && not a.retry) _ _ (if-AreSound from_map _ _ stored hs)
              stored)
    ]

register_convergence-AreSound :
    (start : Start) (conv : Convergence) (m : Manager)
    → IsTemporary conv
    → AreSound m.convs
    → AreSound (register_convergence start conv m).convs
unfolding register_convergence is_active
register_convergence-AreSound start conv m h hs = go (load conv.address m.convs) refl
  where
    go :
        (o : Option Elem)
        → load conv.address m.convs ≡ o
        → AreSound (register_loaded start conv o m).convs
    go none e =
        register_element-AreSound start false (new_convergence_element conv m.queue_ttl) m (h, refl)
          hs
    go (some ce) e =
        if-manager (is_active ce) m _ hs
          (register_element-AreSound start true ce m (load-IsSound conv.address m.convs ce hs e) hs)

delete-IsSound :
    (m : Manager) (address : ℕ) (ce : Elem)
    → AreSound m.convs
    → IsSound ce
    → IsSoundAfter m.stop_flag (deleted m address (deactivate m.queue_ttl ce))
unfolding deactivate is_active
delete-IsSound m address ce hs h =
    let left : Manager = record m { convs = delete address m.convs } in
    let kept : AreSound left.convs = delete-AreSound address m.convs hs in
    elim (Bool-cases (is_negative ce.ttl)) [
      | inl active ↦ (left, rw (active, h.1 ∙ active), kept, refl)
      | inr idle ↦ (left, rw idle, kept, refl)
    ]

unregister_convergence-IsSound :
    (conv : Convergence) (m : Manager)
    → AreSound m.convs
    → IsSoundAfter m.stop_flag (unregister_convergence conv m)
unfolding unregister_convergence
unregister_convergence-IsSound conv m hs = go (load conv.address m.convs) refl
  where
    go :
        (o : Option Elem)
        → load conv.address m.convs ≡ o
        → IsSoundAfter m.stop_flag (unregister_loaded conv o m)
    go none e = (m, refl, hs, refl)
    go (some ce) e =
        if-IsSound (ce.conv.instance_id == conv.instance_id) _ m
          (delete-IsSound m conv.address ce hs (load-IsSound conv.address m.convs ce hs e)) hs

or-true : (t : Bool) → true ≡ (t || true)
or-true true = refl
or-true false = refl

or-false : (t : Bool) → t ≡ (t || false)
or-false true = refl
or-false false = refl

-- Registering does not touch the stop flag.
register_convergence-flag :
    (start : Start) (conv : Convergence) (m : Manager)
    → (register_convergence start conv m).stop_flag ≡ m.stop_flag
unfolding register_convergence is_active known_peer
register_convergence-flag start conv m = go (load conv.address m.convs)
  where
    element :
        (from_map : Bool) (ce : Elem)
        → (register_element start from_map ce m).stop_flag ≡ m.stop_flag
    element from_map ce =
        if-flag (known_peer ce.conv.peer_endpoint m.convs) m _ m.stop_flag refl refl

    go : (o : Option Elem) → (register_loaded start conv o m).stop_flag ≡ m.stop_flag
    go none = element false (new_convergence_element conv m.queue_ttl)
    go (some ce) = if-flag (is_active ce) m _ m.stop_flag refl (element true ce)

register-flag :
    (start : Start) (c : Convergable) (m : Manager) → (register start c m).stop_flag ≡ m.stop_flag
unfolding register register_provider
register-flag start (convergence conv) m =
    if-flag m.stop_flag m _ m.stop_flag refl (register_convergence-flag start conv m)
register-flag start (provider p) m =
    if-flag m.stop_flag m _ m.stop_flag refl
      (if-flag (has_provider p m.providers) m _ m.stop_flag refl refl)

-- No convergence layer of an event is permanent.
abbrev pub IsTemporaryAny : Convergable → Type 0
IsTemporaryAny (convergence conv) = IsTemporary conv
IsTemporaryAny (provider p) = Unit {0}

abbrev pub IsTemporaryEvent : Event → Type 0
IsTemporaryEvent (registering start c) = IsTemporaryAny c
IsTemporaryEvent (restarting start c) = IsTemporaryAny c
IsTemporaryEvent (peer_disappeared start c status) = IsTemporaryAny c
IsTemporaryEvent other = Unit {0}

register-AreSound :
    (start : Start) (c : Convergable) (m : Manager)
    → IsTemporaryAny c
    → AreSound m.convs
    → AreSound (register start c m).convs
unfolding register register_provider
register-AreSound start (convergence conv) m h hs =
    if-manager m.stop_flag m _ hs (register_convergence-AreSound start conv m h hs)
register-AreSound start (provider p) m h hs =
    if-manager m.stop_flag m _ hs (if-manager (has_provider p m.providers) m _ hs hs)

unregister-IsSound :
    (c : Convergable) (m : Manager) → AreSound m.convs → IsSoundAfter m.stop_flag (unregister c m)
unfolding unregister unregister_provider
unregister-IsSound (convergence conv) m hs = unregister_convergence-IsSound conv m hs
unregister-IsSound (provider p) m hs = (_, refl, hs, refl)

restart-IsSound :
    (start : Start) (c : Convergable) (m : Manager)
    → IsTemporaryAny c
    → AreSound m.convs
    → IsSoundAfter m.stop_flag (restart start c m)
unfolding restart
restart-IsSound start c m h hs =
    let (m', e, hs', flag) = unregister-IsSound c m hs in
    (
      register start c m',
      rw (restart, e),
      register-AreSound start c m' h hs',
      register-flag start c m' ∙ flag,
    )

tick_elem-AreSound :
    (starts : Convergence → Start) (ce : Elem) → IsSound ce → AreSound (tick_elem starts ce)
tick_elem-AreSound starts ce h =
    let a = activate (starts ce.conv) ce in
    if-AreSound (is_active ce) (ce ∷ []) _ (h, tt)
      (if-AreSound (not a.successful && not a.retry) [] (a.elem ∷ []) tt
        (activate-IsSound (starts ce.conv) ce h, tt))

tick-AreSound :
    (starts : Convergence → Start) (ces : List Elem) → AreSound ces → AreSound (tick starts ces)
unfolding tick
tick-AreSound starts [] h = tt
tick-AreSound starts (ce ∷ ces) h =
    All-append IsSound (tick_elem starts ce) (tick starts ces) (tick_elem-AreSound starts ce h.0)
      (tick-AreSound starts ces h.1)

unregister_all-IsSound :
    (ces : List Elem) (m : Manager)
    → AreSound m.convs
    → IsSoundAfter m.stop_flag (unregister_all ces m)
unfolding unregister_all
unregister_all-IsSound [] m hs = (m, refl, hs, refl)
unregister_all-IsSound (ce ∷ ces) m hs =
    let (m', e, hs', flag) = unregister_convergence-IsSound ce.conv m hs in
    let (m'', e', hs'', flag') = unregister_all-IsSound ces m' hs' in
    (m'', rw (unregister_all, e) e', hs'', flag' ∙ flag)

-- Closing, and what takes the handler's channels, which closing closes.
abbrev pub is_closing : Event → Bool
is_closing closed = true
is_closing other = false

abbrev pub needs_open : Event → Bool
needs_open closed = true
needs_open (peer_disappeared start c status) = true
needs_open (other_status status) = true
needs_open other = false

-- No status and no second closing stands behind a closing.
abbrev pub AreInOrder : Bool → List Event → Type 0
AreInOrder flag [] = Unit {0}
AreInOrder flag (e ∷ es) = ((needs_open e && flag) ≡ false) × AreInOrder (flag || is_closing e) es

if_open-running :
    (m : Manager) (next : Option Manager) → m.stop_flag ≡ false → if_open m next ≡ next
if_open-running m next = λ h. ap (λ t. if t then none else next) h

step-IsSound :
    (e : Event) (m : Manager)
    → IsTemporaryEvent e
    → (needs_open e && m.stop_flag) ≡ false
    → AreSound m.convs
    → IsSoundAfter (m.stop_flag || is_closing e) (step e m)
unfolding step
step-IsSound (registering start c) m h allowed hs =
    (_, refl, register-AreSound start c m h hs, register-flag start c m ∙ or-false m.stop_flag)
step-IsSound (unregistering c) m h allowed hs =
    subst (λ t. IsSoundAfter t (unregister c m)) (or-false m.stop_flag) (unregister-IsSound c m hs)
step-IsSound (restarting start c) m h allowed hs =
    subst (λ t. IsSoundAfter t (restart start c m)) (or-false m.stop_flag)
      (restart-IsSound start c m h hs)
step-IsSound (peer_disappeared start c status) m h allowed hs =
    let (m', e, hs', flag) = restart-IsSound start c m h hs in
    (
      forward status m',
      if_open-running m _ allowed ∙ ap (map_manager (forward status)) e,
      hs',
      flag ∙ or-false m.stop_flag,
    )
step-IsSound (other_status status) m h allowed hs =
    (forward status m, if_open-running m _ allowed, hs, or-false m.stop_flag)
step-IsSound (ticked starts) m h allowed hs =
    (_, refl, tick-AreSound starts m.convs hs, or-false m.stop_flag)
step-IsSound closed m h allowed hs =
    let (m', e, hs', flag) = unregister_all-IsSound m.convs (stopped m) hs in
    (m', if_open-running m _ allowed ∙ e, hs', flag ∙ or-true m.stop_flag)

-- From a state in which the active elements are those whose handler runs, and as long as no permanent
-- convergence layer is there or comes, and no status and no second closing comes after a closing, no
-- sequence of registrations, restarts, statuses, rounds of the ticker and closings panics, and the active
-- elements stay those whose handler runs.
pub run-AreSound :
    (es : List Event) (m : Manager)
    → All IsTemporaryEvent es
    → AreInOrder m.stop_flag es
    → AreSound m.convs
    → (m' : Manager) × (run es m ≡ some m') × AreSound m'.convs
unfolding run
run-AreSound [] m h order hs = (m, refl, hs)
run-AreSound (e ∷ es) m h order hs =
    let (m', q, hs', flag) = step-IsSound e m h.0 order.0 hs in
    let (m'', q', hs'') =
      run-AreSound es m' h.1 (subst (λ t. AreInOrder t es) (sym flag) order.1) hs' in
    (m'', rw (run, q) q', hs'')
