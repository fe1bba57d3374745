-- ===== src/Routing/Algorithm/Spray/Copies.antt =====
-- Spray and wait gives out no more copies than it has.
use dtn7_gold.Prelude.{
  ◌+◌, ◌-◌, ◌≤◌, ◌≡◌, sym, ◌∙◌, false, List, [], ◌∷◌, ◌++◌, arith, length, Bool-cases, inl, inr,
  ltb, map, append-nil, append_assoc,
}
use dtn7_gold.Bpv7.Endpoint.{EndpointId}
use dtn7_gold.Routing.Algorithm.{ConvergenceSender, is_sent}
use dtn7_gold.Routing.Algorithm.Spray.{SprayMetaData, spray}

-- The peers that a list does not have, each once.
abbrev pub AreFresh : List EndpointId → List ConvergenceSender → Type 0
AreFresh sent [] = Unit {0}
AreFresh sent (cs ∷ css) = (is_sent cs.peer sent ≡ false) × AreFresh (sent ++ cs.peer ∷ []) css

abbrev pub peers : List ConvergenceSender → List EndpointId
peers = map (λ cs. cs.peer)

-- Every selected sender takes one copy and is noted, none is selected whose peer has the bundle, and at least
-- one copy stays.
pub record Sprayed (d : SprayMetaData) (css : List ConvergenceSender) (d' : SprayMetaData)
    : Type 0 where
  pub copies : d'.remaining_copies + length css ≡ d.remaining_copies
  pub noted : d'.sent ≡ d.sent ++ peers css
  pub fresh : AreFresh d.sent css
  pub kept : 1 ≤ d.remaining_copies → 1 ≤ d'.remaining_copies

nothing-Sprayed : (d : SprayMetaData) → Sprayed d [] d
nothing-Sprayed d = record {
  copies = omega arith;
  noted = sym (append-nil d.sent);
  fresh = tt;
  kept = λ h. h;
}

pub spray-Sprayed :
    (css : List ConvergenceSender) (d : SprayMetaData) → Sprayed d (spray css d).0 (spray css d).1
unfolding spray
spray-Sprayed [] d = nothing-Sprayed d
spray-Sprayed (cs ∷ css) d =
    let less : SprayMetaData = record {
      sent = d.sent ++ cs.peer ∷ [];
      remaining_copies = d.remaining_copies - 1;
    } in
    elim (Bool-cases (ltb d.remaining_copies 2)) [
      | inl few ↦ rw few (nothing-Sprayed d)
      | inr enough ↦ elim (Bool-cases (is_sent cs.peer d.sent)) [
        | inl old ↦ rw (enough, old) (spray-Sprayed css d)
        | inr new ↦
            let rest = spray-Sprayed css less in
            let more : 2 ≤ d.remaining_copies = ground arith in
            rw (enough, new)
              (record {
                copies = omega (arith, rest.copies);
                noted = rest.noted ∙ append_assoc d.sent (cs.peer ∷ []) (peers (spray css less).0);
                fresh = (new, rest.fresh);
                kept = λ h. rest.kept (omega arith);
              })
      ]
    ]
