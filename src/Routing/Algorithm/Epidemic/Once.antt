-- ===== src/Routing/Algorithm/Epidemic/Once.antt =====
-- Epidemic routing offers a bundle to a node once.
use dtn7_gold.Prelude.{
  ◌≡◌, refl, ◌∙◌, ap, subst, Bool, true, false, ◌||◌, List, [], ◌∷◌, ◌++◌, All, Bool-cases, inl,
  inr, if◌then◌else◌,
}
use dtn7_gold.Bpv7.Endpoint.{EndpointId}
use dtn7_gold.Bpv7.Bundle.{scrub}
use dtn7_gold.Storage.{found, Disk, IsWorking, HasItem, query_id}
use dtn7_gold.Storage.Items.{get-update_item}
use dtn7_gold.Routing.IdKeeper.Numbers.{same_endpoint_self}
use dtn7_gold.Routing.Descriptor.{BundleDescriptor}
use dtn7_gold.Routing.Algorithm.{ConvergenceSender, is_sent, known_sent, filter_loop, filter_clas}
use dtn7_gold.Routing.Algorithm.Filter.{is_sent-append}
use dtn7_gold.Routing.Algorithm.Epidemic.{with_sent, clas_for_bundle}

abbrev AllSent : List EndpointId → List ConvergenceSender → Type 0
AllSent sent = All (λ cs. is_sent cs.peer sent ≡ true)

or_right_true : (a : Bool) → (a || true) ≡ true
or_right_true true = refl
or_right_true false = refl

sent_last : (e : EndpointId) (xs : List EndpointId) → is_sent e (xs ++ e ∷ []) ≡ true
unfolding is_sent
sent_last e xs =
    is_sent-append e xs (e ∷ []) ∙ rw (same_endpoint_self e) (or_right_true (is_sent e xs))

-- The loop forgets no node, and notes the peer of every sender.
filter_loop-keeps :
    (css : List ConvergenceSender) (noted : List EndpointId) (e : EndpointId)
    → is_sent e noted ≡ true
    → is_sent e (filter_loop css noted).1 ≡ true
unfolding filter_loop
filter_loop-keeps [] noted e h = h
filter_loop-keeps (cs ∷ css) noted e h = elim (Bool-cases (is_sent cs.peer noted)) [
  | inl old ↦ rw old (filter_loop-keeps css noted e h)
  | inr new ↦ rw new (
      filter_loop-keeps css (noted ++ cs.peer ∷ []) e
        (is_sent-append e noted (cs.peer ∷ []) ∙ ap (λ t. t || is_sent e (cs.peer ∷ [])) h))
]

filter_loop-AllSent :
    (css : List ConvergenceSender) (noted : List EndpointId) → AllSent (filter_loop css noted).1 css
unfolding filter_loop
filter_loop-AllSent [] noted = tt
filter_loop-AllSent (cs ∷ css) noted = elim (Bool-cases (is_sent cs.peer noted)) [
  | inl old ↦
      let step : (filter_loop css noted).1 ≡ (filter_loop (cs ∷ css) noted).1 = rw old in
      subst (λ x. AllSent x (cs ∷ css)) step
        (filter_loop-keeps css noted cs.peer old, filter_loop-AllSent css noted)
  | inr new ↦
      let more = noted ++ cs.peer ∷ [] in
      let step : (filter_loop css more).1 ≡ (filter_loop (cs ∷ css) noted).1 = rw new in
      subst (λ x. AllSent x (cs ∷ css)) step
        (filter_loop-keeps css more cs.peer (sent_last cs.peer noted), filter_loop-AllSent css more)
]

filter_loop-nothing :
    (css : List ConvergenceSender) (sent : List EndpointId)
    → AllSent sent css
    → (filter_loop css sent).0 ≡ []
unfolding filter_loop
filter_loop-nothing [] sent h = refl
filter_loop-nothing (cs ∷ css) sent h = rw h.0 (filter_loop-nothing css sent h.1)

-- On a working disk: when the senders for a stored bundle are asked for, and then asked for again while the
-- same nodes are connected, the second answer is empty, whatever the first one was.
pub clas_for_bundle-again :
    (D : Disk) (s : D.State) (ds : BundleDescriptor) (css : List ConvergenceSender)
    (update_db : Bool)
    → IsWorking D
    → HasItem D s (scrub ds.id)
    → (clas_for_bundle D (clas_for_bundle D s ds true css).1 ds update_db css).0 ≡ []
unfolding clas_for_bundle query_id filter_clas
clas_for_bundle-again D s ds css update_db works (i, h, same) =
    let sent = (filter_loop css (known_sent i.properties.epidemic_sent)).1 in
    let after =
      get-update_item D works s (scrub ds.id) (scrub ds.id) i (with_sent sent i) h same refl
      ∙ ap (λ t. if t then found (with_sent sent i) else D.get s (scrub ds.id)) same in
    rw (h, after)
      (filter_loop-nothing css sent
        (filter_loop-AllSent css (known_sent i.properties.epidemic_sent)))
