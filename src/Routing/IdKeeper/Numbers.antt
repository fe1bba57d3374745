-- ===== src/Routing/IdKeeper/Numbers.antt =====
-- The identities that a keeper of sequence numbers gives.
use dtn7_gold.Prelude.{
  ℕ, ◌+◌, ◌-◌, ◌%◌, ◌^◌, ◌≤◌, ◌<◌, ◌≡◌, refl, ap, ◌∙◌, subst, Bool, true, false, ◌&&◌, Option, none,
  some, List, [], ◌∷◌, arith, length, All, Bool-cases, inl, inr, ◌==◌, ==_self, ==_iff, ltb,
}
use mathlib.Core.Option.{some-injective}
use dtn7_gold.Prelude.Bytes.{equal_self, equal→eq}
use dtn7_gold.Bpv7.Endpoint.{EndpointId, no_endpoint, dtn, ipn, same_endpoint, same_flag}
use dtn7_gold.Bpv7.Bundle.{Bundle, BundleId, id}
use dtn7_gold.Routing.IdKeeper.{
  IdTuple, new_id_tuple, same_tuple, IdKeeper, new_id_keeper, lookup, next_number, with_number,
  update_id, clean,
}

pub same_flag_self : (b : Bool) → same_flag b b ≡ true
same_flag_self true = refl
same_flag_self false = refl

pub same_endpoint_self : (e : EndpointId) → same_endpoint e e ≡ true
unfolding same_endpoint
same_endpoint_self no_endpoint = refl
same_endpoint_self (dtn e) =
    rw (equal_self e.node_name, equal_self e.demux, same_flag_self e.is_dtn_none)
same_endpoint_self (ipn e) = rw (==_self e.node, ==_self e.service)

same_tuple_self : (t : IdTuple) → same_tuple t t ≡ true
unfolding same_tuple
same_tuple_self t = rw (same_endpoint_self t.source, ==_self t.time)

same_flag→eq : (a b : Bool) → same_flag a b ≡ true → a ≡ b
same_flag→eq true true h = refl
same_flag→eq true false h = cc
same_flag→eq false true h = cc
same_flag→eq false false h = refl

pub and-parts : (a b : Bool) → (a && b) ≡ true → (a ≡ true) × (b ≡ true)
and-parts true b h = (refl, h)
and-parts false b h = cc

pub same_endpoint→eq : (a b : EndpointId) → same_endpoint a b ≡ true → a ≡ b
unfolding same_endpoint
same_endpoint→eq no_endpoint no_endpoint h = refl
same_endpoint→eq no_endpoint (dtn b) h = cc
same_endpoint→eq no_endpoint (ipn b) h = cc
same_endpoint→eq (dtn a) no_endpoint h = cc
same_endpoint→eq (dtn a) (ipn b) h = cc
same_endpoint→eq (ipn a) no_endpoint h = cc
same_endpoint→eq (ipn a) (dtn b) h = cc
same_endpoint→eq (dtn a) (dtn b) h =
    let (names, rest) = and-parts _ _ h in
    let (demuxes, flags) = and-parts _ _ rest in
    λ i. dtn (record {
      node_name = equal→eq a.node_name b.node_name names i;
      demux = equal→eq a.demux b.demux demuxes i;
      is_dtn_none = same_flag→eq a.is_dtn_none b.is_dtn_none flags i;
    })
same_endpoint→eq (ipn a) (ipn b) h =
    let (nodes, services) = and-parts _ _ h in
    λ i. ipn (record {
      node = (==_iff a.node b.node).0 nodes i;
      service = (==_iff a.service b.service).0 services i;
    })

same_tuple→eq : (s t : IdTuple) → same_tuple s t ≡ true → s ≡ t
unfolding same_tuple
same_tuple→eq s t h =
    let (sources, times) = and-parts _ _ h in
    λ i. record {
      source = same_endpoint→eq s.source t.source sources i;
      time = (==_iff s.time t.time).0 times i;
    }

-- Nothing of the epoch is left once the clock has passed the threshold.
lookup-clean :
    (t : IdTuple) (now : ℕ) (k : IdKeeper)
    → t.time + 60 < now
    → now < 2 ^ 64
    → lookup t (clean now k) ≡ none
unfolding lookup clean
lookup-clean t now [] h fits = refl
lookup-clean t now (entry ∷ k) h fits =
    elim (Bool-cases (ltb entry.0.time ((now + 2 ^ 64 - 60) % 2 ^ 64))) [
      | inl old ↦ rw old (lookup-clean t now k h fits)
      | inr young ↦ elim (Bool-cases (same_tuple entry.0 t)) [
        | inl same ↦
            absurd (ground (arith, ap (λ (u : IdTuple). u.time) (same_tuple→eq entry.0 t same)))
        | inr other ↦ rw (young, other) (lookup-clean t now k h fits)
      ]
    ]

-- The bundles as a keeper numbers them, one after another.
abbrev pub numbered : IdKeeper → List Bundle → List Bundle
numbered k [] = []
numbered k (b ∷ bs) = let step = update_id k b (id b) in step.1 ∷ numbered step.0 bs

abbrev pub number_of : Bundle → ℕ
number_of b = b.primary_block.creation_timestamp.sequence_number

-- A bundle with another source, time or number.
abbrev pub Differs : Bundle → Bundle → Type 0
Differs b c = new_id_tuple b ≡ new_id_tuple c → (number_of b == number_of c) ≡ false

abbrev pub AllDiffer : List Bundle → Type 0
AllDiffer [] = Unit {0}
AllDiffer (b ∷ bs) = All (Differs b) bs × AllDiffer bs

-- The numbers of a tuple grow from the one that the keeper has.
numbered-above :
    (t : IdTuple) (r s : ℕ) (k : IdKeeper) (bs : List Bundle)
    → lookup t k ≡ some s
    → r ≤ s
    → s + length bs < 2 ^ 64
    → All (λ b. t ≡ new_id_tuple b → r < number_of b) (numbered k bs)
unfolding update_id lookup new_id_tuple
numbered-above t r s k [] h le fits = tt
numbered-above t r s k (b ∷ bs) h le fits = elim (Bool-cases (same_tuple (new_id_tuple b) t)) [
  | inl same ↦
      let eq : new_id_tuple b ≡ t = same_tuple→eq (new_id_tuple b) t same in
      let found : lookup (new_id_tuple b) k ≡ some s = ap (λ u. lookup u k) eq ∙ h in
      let n : next_number (lookup (new_id_tuple b) k) ≡ s + 1 = rw found (omega arith) in
      let stored : lookup t ((new_id_tuple b, next_number (lookup (new_id_tuple b) k)) ∷ k)
          ≡ some (s + 1) =
        rw same (ap some n) in
      (λ _. omega (arith, n), numbered-above t r (s + 1) _ bs stored (omega arith) (omega arith))
  | inr other ↦
      let stored : lookup t ((new_id_tuple b, next_number (lookup (new_id_tuple b) k)) ∷ k)
          ≡ some s =
        rw other h in
      (
        λ e. cc (subst (λ u. same_tuple u t ≡ true) e (same_tuple_self t), other),
        numbered-above t r s _ bs stored le (omega arith),
      )
]

above-Differs :
    (b : Bundle) (cs : List Bundle)
    → All (λ c. new_id_tuple b ≡ new_id_tuple c → number_of b < number_of c) cs
    → All (Differs b) cs
above-Differs b [] h = tt
above-Differs b (c ∷ cs) h = (λ e. let lt = h.0 e in ground arith, above-Differs b cs h.1)

-- No number of the keeper reaches a bound.
abbrev Below : ℕ → IdKeeper → Type 0
Below bound k = (t : IdTuple) (s : ℕ) → lookup t k ≡ some s → s < bound

next-le :
    (bound : ℕ) (found : Option ℕ)
    → bound < 2 ^ 64
    → ((s : ℕ) → found ≡ some s → s < bound)
    → next_number found ≤ bound
next-le bound none fits h = omega arith
next-le bound (some s) fits h = let lt = h s refl in omega arith

update-Below :
    (bound n : ℕ) (u : IdTuple) (k : IdKeeper)
    → n ≤ bound
    → Below bound k
    → Below (bound + 1) ((u, n) ∷ k)
unfolding lookup
update-Below bound n u k le h t s e = elim (Bool-cases (same_tuple u t)) [
  | inl same ↦ let e' = some-injective n s (rw same at e) in omega arith
  | inr other ↦ let lt = h t s (rw other at e) in omega arith
]

numbered-AllDiffer :
    (bound : ℕ) (k : IdKeeper) (bs : List Bundle)
    → Below bound k
    → bound + length bs ≤ 2 ^ 64
    → AllDiffer (numbered k bs)
unfolding update_id
numbered-AllDiffer bound k [] below fits = tt
numbered-AllDiffer bound k (b ∷ bs) below fits =
    let u : IdTuple = new_id_tuple b in
    let n : ℕ = next_number (lookup u k) in
    let le : n ≤ bound = next-le bound (lookup u k) (omega arith) (λ s e. below u s e) in
    let stored : lookup u ((u, n) ∷ k) ≡ some n = unfold lookup in rw (same_tuple_self u) in
    (
      above-Differs (with_number n b) (numbered ((u, n) ∷ k) bs) (
          unfold new_id_tuple in
          numbered-above u n n ((u, n) ∷ k) bs stored (omega arith) (omega arith)),
      numbered-AllDiffer (bound + 1) ((u, n) ∷ k) bs (update-Below bound n u k le below)
          (omega arith),
    )

-- Bundles that a new keeper numbers one after another, up to 2 ^ 64 of them and with no cleaning in
-- between, differ pairwise in their source, their time or their sequence number, whatever the sources
-- and times are and whatever numbers they came with.
pub new_id_keeper-AllDiffer :
    (bs : List Bundle) → length bs ≤ 2 ^ 64 → AllDiffer (numbered new_id_keeper bs)
new_id_keeper-AllDiffer bs fits =
    numbered-AllDiffer 0 new_id_keeper bs (unfold lookup in λ t s e. cc) (omega arith)

-- Once the clock is more than 60 milliseconds ahead of the creation time of a bundle, as it is for the
-- epoch, cleaning a keeper makes it number this bundle with zero, whatever numbers it gave to
-- bundles of the same source and time before.
pub update_id-clean :
    (now : ℕ) (k : IdKeeper) (b : Bundle) (bid : BundleId)
    → (new_id_tuple b).time + 60 < now
    → now < 2 ^ 64
    → number_of (update_id (clean now k) b bid).1 ≡ 0
unfolding update_id
update_id-clean now k b bid old fits = rw (lookup-clean (new_id_tuple b) now k old fits)
