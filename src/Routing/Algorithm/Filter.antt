-- ===== src/Routing/Algorithm/Filter.antt =====
-- `filterCLAs` against a plain description: the senders whose peers have not got the bundle.
use dtn7_gold.Prelude.{
  ◌≡◌, refl, sym, ◌∙◌, ap, Bool, true, false, ◌||◌, List, [], ◌∷◌, ◌++◌, append-nil, append_assoc,
  Bool-cases, inl, inr, if◌then◌else◌, Option, map,
}
use dtn7_gold.Bpv7.Endpoint.{EndpointId, same_endpoint}
use dtn7_gold.Routing.IdKeeper.Numbers.{same_endpoint→eq}
use dtn7_gold.Routing.Algorithm.{ConvergenceSender, is_sent, known_sent, filter_loop, filter_clas}

pub is_sent-append :
    (e : EndpointId) (xs ys : List EndpointId)
    → is_sent e (xs ++ ys) ≡ (is_sent e xs || is_sent e ys)
unfolding is_sent
is_sent-append e [] ys = refl
is_sent-append e (x ∷ xs) ys = elim (Bool-cases (same_endpoint e x)) [
  | inl same ↦ rw same
  | inr other ↦ rw other (is_sent-append e xs ys)
]

-- The senders of which no earlier one has the same peer.
abbrev pub firsts : List EndpointId → List ConvergenceSender → List ConvergenceSender
firsts seen [] = []
firsts seen (cs ∷ css) =
    let rest = firsts (seen ++ cs.peer ∷ []) css in if is_sent cs.peer seen then rest else cs ∷ rest

-- The senders whose peers are not in a list.
abbrev pub unsent : List EndpointId → List ConvergenceSender → List ConvergenceSender
unsent sent [] = []
unsent sent (cs ∷ css) =
    let rest = unsent sent css in if is_sent cs.peer sent then rest else cs ∷ rest

or_false : (a : Bool) → (a || false) ≡ a
or_false true = refl
or_false false = refl

or_true_twice : (a b : Bool) → true ≡ (a || (b || true))
or_true_twice true b = refl
or_true_twice false true = refl
or_true_twice false false = refl

or_false_twice : (a b : Bool) → (a || b) ≡ (a || (b || false))
or_false_twice true b = refl
or_false_twice false b = sym (or_false b)

or_assoc : (a b c : Bool) → ((a || b) || c) ≡ (a || (b || c))
or_assoc true b c = refl
or_assoc false b c = refl

or-parts : (a b : Bool) → (a || b) ≡ false → (a ≡ false) × (b ≡ false)
or-parts true b h = cc
or-parts false b h = (refl, h)

or_left : (a b : Bool) → (a || b) ≡ true → b ≡ false → a ≡ true
or_left true b h n = refl
or_left false b h n = cc

module _ (sent : List EndpointId) where
  -- What the loop has noted: the nodes from the beginning, and the peers of the senders that it has seen.
  abbrev Notes : List EndpointId → List EndpointId → Type 0
  Notes noted seen = (e : EndpointId) → is_sent e noted ≡ (is_sent e sent || is_sent e seen)

  skip-Notes :
      (noted seen : List EndpointId) (p : EndpointId)
      → Notes noted seen
      → is_sent p noted ≡ true
      → Notes noted (seen ++ p ∷ [])
  unfolding is_sent
  skip-Notes noted seen p h there e = elim (Bool-cases (same_endpoint e p)) [
    | inl same ↦
        let known : is_sent e noted ≡ true =
          ap (λ x. is_sent x noted) (same_endpoint→eq e p same) ∙ there in
        rw (is_sent-append e seen (p ∷ []), same, known)
          (or_true_twice (is_sent e sent) (is_sent e seen))
    | inr other ↦
        rw (is_sent-append e seen (p ∷ []), other, h e)
          (or_false_twice (is_sent e sent) (is_sent e seen))
  ]

  take-Notes :
      (noted seen : List EndpointId) (p : EndpointId)
      → Notes noted seen
      → Notes (noted ++ p ∷ []) (seen ++ p ∷ [])
  take-Notes noted seen p h e =
      rw (is_sent-append e noted (p ∷ []), is_sent-append e seen (p ∷ []), h e)
        (or_assoc (is_sent e sent) (is_sent e seen) (is_sent e (p ∷ [])))

  filter_loop-unsent :
      (css : List ConvergenceSender) (noted seen : List EndpointId)
      → Notes noted seen
      → (filter_loop css noted).0 ≡ unsent sent (firsts seen css)
  unfolding filter_loop
  filter_loop-unsent [] noted seen h = refl
  filter_loop-unsent (cs ∷ css) noted seen h = elim (Bool-cases (is_sent cs.peer noted)) [
    | inl old ↦
        let rest =
          filter_loop-unsent css noted (seen ++ cs.peer ∷ [])
            (skip-Notes noted seen cs.peer h old) in
        let either : (is_sent cs.peer sent || is_sent cs.peer seen) ≡ true =
          sym (h cs.peer) ∙ old in
        rw old (elim (Bool-cases (is_sent cs.peer seen)) [
          | inl before ↦ rw before rest
          | inr first ↦
              let given : is_sent cs.peer sent ≡ true =
                or_left (is_sent cs.peer sent) (is_sent cs.peer seen) either first in
              rw (first, given) rest
        ])
    | inr new ↦
        let rest =
          filter_loop-unsent css (noted ++ cs.peer ∷ []) (seen ++ cs.peer ∷ [])
            (take-Notes noted seen cs.peer h) in
        let neither : (is_sent cs.peer sent || is_sent cs.peer seen) ≡ false =
          sym (h cs.peer) ∙ new in
        let (open_to, first) = or-parts (is_sent cs.peer sent) (is_sent cs.peer seen) neither in
        rw (new, first, open_to, rest)
  ]

-- The loop's list of nodes has grown by the peers of the senders that it has selected.
filter_loop-noted :
    (css : List ConvergenceSender) (noted : List EndpointId)
    → (filter_loop css noted).1 ≡ noted ++ map (λ cs. cs.peer) (filter_loop css noted).0
unfolding filter_loop
filter_loop-noted [] noted = sym (append-nil noted)
filter_loop-noted (cs ∷ css) noted = elim (Bool-cases (is_sent cs.peer noted)) [
  | inl old ↦ rw old (filter_loop-noted css noted)
  | inr new ↦
      rw new (filter_loop-noted css (noted ++ cs.peer ∷ []) ∙ append_assoc noted (cs.peer ∷ []) _)
]

-- `filterCLAs` gives the first sender of each peer, without those whose peers have the bundle, and the list
-- of nodes with the peers of these senders behind it.
pub filter_clas-unsent :
    (property : Option (List EndpointId)) (clas : List ConvergenceSender)
    → filter_clas property clas ≡ (
      unsent (known_sent property) (firsts [] clas),
      known_sent property ++ map (λ cs. cs.peer) (unsent (known_sent property) (firsts [] clas)),
    )
unfolding filter_clas
filter_clas-unsent property clas =
    let sent = known_sent property in
    let selected = filter_loop-unsent sent clas sent [] (λ e. sym (or_false (is_sent e sent))) in
    let noted = filter_loop-noted clas sent ∙ ap (λ x. sent ++ map (λ cs. cs.peer) x) selected in
    λ i. (selected i, noted i)
