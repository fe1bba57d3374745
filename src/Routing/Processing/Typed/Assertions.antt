-- ===== src/Routing/Processing/Typed/Assertions.antt =====
-- The type assertions on the blocks of a bundle hold if the blocks have the types of their codes.
use dtn7_gold.Prelude.{
  ℕ, ◌≡◌, refl, Bool, true, arith, Bool-cases, inl, inr, ◌⊎◌, ltb, subst, ◌/◌, Option, none, some,
}
use dtn7_gold.Bpv7.Endpoint.{EndpointId}
use dtn7_gold.Bpv7.Blocks.{
  ExtensionBlock, payload_block, previous_node_block, bundle_age_block, hop_count_block,
  HopCountBlock, generic_block, previous_node_type, bundle_age_type, hop_count_type,
  block_type_code, CanonicalBlock, new_canonical_block,
}
use dtn7_gold.Bpv7.Bundle.{Result, ok, err, Error, Bundle, extension_block, add_extension_block}
use dtn7_gold.Prelude.Int.{ℤ}
use dtn7_gold.Bpv7.Hops.{increment, increment_age}
use dtn7_gold.Bpv7.Blocks.{is_zero_time}
use dtn7_gold.Bpv7.Validity.{age_exceeded, is_lifetime_exceeded}
use dtn7_gold.Routing.Processing.{
  set_value, hop_of, age_of, replace_previous, hop_block, age_block, set_previous_node, counted,
  count_hop, aged, update_bundle_age,
}
use dtn7_gold.Bpv7.Typed.{typed, IsTyped, extension_block-Fits}
use dtn7_gold.Routing.Processing.Typed.{set_value-IsTyped, add_extension_block-IsTyped}

-- A block of a known code has the value of that code.
hop_of-ok :
    (v : ExtensionBlock)
    → typed v ≡ true
    → block_type_code v ≡ hop_count_type
    → (h : Option HopCountBlock) × (hop_of v ≡ ok h)
unfolding block_type_code
hop_of-ok (hop_count_block h) t e = (some h, refl)
hop_of-ok (payload_block bytes) t e = absurd (omega arith)
hop_of-ok (previous_node_block x) t e = absurd (omega arith)
hop_of-ok (bundle_age_block ms) t e = absurd (omega arith)
hop_of-ok (generic_block bytes code) t e = absurd (ground arith)

age_of-ok :
    (v : ExtensionBlock)
    → typed v ≡ true
    → block_type_code v ≡ bundle_age_type
    → (ms : Option ℕ) × (age_of v ≡ ok ms)
unfolding block_type_code
age_of-ok (bundle_age_block ms) t e = (some ms, refl)
age_of-ok (payload_block bytes) t e = absurd (omega arith)
age_of-ok (previous_node_block x) t e = absurd (omega arith)
age_of-ok (hop_count_block h) t e = absurd (omega arith)
age_of-ok (generic_block bytes code) t e = absurd (ground arith)

previous_of-ok :
    (e : EndpointId) (b : Bundle) (v : ExtensionBlock)
    → IsTyped b
    → typed v ≡ true
    → block_type_code v ≡ previous_node_type
    → (c : Bundle) × (replace_previous e b v ≡ ok c) × IsTyped c
unfolding block_type_code
previous_of-ok e b (previous_node_block x) h t q = (
  set_value previous_node_type (previous_node_block e) b,
  refl,
  set_value-IsTyped previous_node_type (previous_node_block e) b refl h,
)
previous_of-ok e b (payload_block bytes) h t q = absurd (omega arith)
previous_of-ok e b (bundle_age_block ms) h t q = absurd (omega arith)
previous_of-ok e b (hop_count_block c) h t q = absurd (omega arith)
previous_of-ok e b (generic_block bytes code) h t q = absurd (ground arith)

Result-cases : {A : Type 0} (r : Result A) → ((a : A) × (r ≡ ok a)) ⊎ ((e : Error) × (r ≡ err e))
Result-cases (ok a) = inl (a, refl)
Result-cases (err e) = inr (e, refl)

module _ (b : Bundle) (h : IsTyped b) where
  pub hop_block-ok : (c : Option HopCountBlock) × (hop_block b ≡ ok c)
  unfolding hop_block
  hop_block-ok = elim (Result-cases (extension_block hop_count_type b)) [
    | inl (cb, e) ↦
        let fits = extension_block-Fits hop_count_type b cb h e in
        rw e (hop_of-ok cb.value fits.0 fits.1)
    | inr (x, e) ↦ (none, rw e)
  ]

  pub age_block-ok : (ms : Option ℕ) × (age_block b ≡ ok ms)
  unfolding age_block
  age_block-ok = elim (Result-cases (extension_block bundle_age_type b)) [
    | inl (cb, e) ↦
        let fits = extension_block-Fits bundle_age_type b cb h e in
        rw e (age_of-ok cb.value fits.0 fits.1)
    | inr (x, e) ↦ (none, rw e)
  ]

  pub set_previous_node-ok :
      (e : EndpointId) → (c : Bundle) × (set_previous_node e b ≡ ok c) × IsTyped c
  unfolding set_previous_node new_canonical_block
  set_previous_node-ok e = elim (Result-cases (extension_block previous_node_type b)) [
    | inl (cb, q) ↦
        let fits = extension_block-Fits previous_node_type b cb h q in
        rw q (previous_of-ok e b cb.value h fits.0 fits.1)
    | inr (x, q) ↦ (
      add_extension_block (new_canonical_block 0 0 (previous_node_block e)) b,
      rw q,
      add_extension_block-IsTyped (new_canonical_block 0 0 (previous_node_block e)) b refl h,
    )
  ]

age_exceeded-ok :
    (lifetime : ℕ) (cb : CanonicalBlock) (v : ExtensionBlock)
    → cb.value ≡ v
    → typed v ≡ true
    → block_type_code v ≡ bundle_age_type
    → (e : Bool) × (age_exceeded lifetime (ok cb) ≡ ok e)
unfolding block_type_code
age_exceeded-ok lifetime cb (bundle_age_block ms) q t e = (ltb lifetime ms, rw q)
age_exceeded-ok lifetime cb (payload_block bytes) q t e = absurd (omega arith)
age_exceeded-ok lifetime cb (previous_node_block x) q t e = absurd (omega arith)
age_exceeded-ok lifetime cb (hop_count_block h) q t e = absurd (omega arith)
age_exceeded-ok lifetime cb (generic_block bytes code) q t e = absurd (ground arith)

pub is_lifetime_exceeded-ok :
    (now : ℤ) (b : Bundle) → IsTyped b → (e : Bool) × (is_lifetime_exceeded now b ≡ ok e)
unfolding is_lifetime_exceeded
is_lifetime_exceeded-ok now b h =
    elim (Bool-cases (is_zero_time b.primary_block.creation_timestamp)) [
      | inr clock ↦ rw clock (_, refl)
      | inl zero_time ↦ rw zero_time (elim (Result-cases (extension_block bundle_age_type b)) [
        | inl (cb, e) ↦
            let fits = extension_block-Fits bundle_age_type b cb h e in
            rw e (age_exceeded-ok b.primary_block.lifetime cb cb.value refl fits.0 fits.1)
        | inr (x, e) ↦ (true, rw e)
      ])
    ]

-- Counting a hop and the time leaves the bundle typed.
abbrev bundle_in : Bundle → Result (Bundle × Bool) → Bundle
bundle_in b (ok r) = r.0
bundle_in b (err e) = b

counted-IsTyped : (b : Bundle) (o : Option HopCountBlock) → IsTyped b → IsTyped (counted o b).0
unfolding increment
counted-IsTyped b none h = h
counted-IsTyped b (some c) h =
    set_value-IsTyped hop_count_type (hop_count_block (increment c).0) b refl h

pub count_hop-IsTyped :
    (b b1 : Bundle) (e : Bool) → count_hop b ≡ ok (b1, e) → IsTyped b → IsTyped b1
unfolding count_hop
count_hop-IsTyped b b1 e q h =
    let hop = hop_block-ok b h in
    let out : ok (counted hop.0 b) ≡ ok (b1, e) = rw hop.1 at q in
    subst (λ r. IsTyped (bundle_in b r)) out (counted-IsTyped b hop.0 h)

aged-IsTyped : (t : ℕ) (b : Bundle) (o : Option ℕ) → IsTyped b → IsTyped (aged t o b).0
aged-IsTyped t b none h = h
aged-IsTyped t b (some ms) h =
    set_value-IsTyped bundle_age_type (bundle_age_block (increment_age ms (t / 1000))) b refl h

pub update_bundle_age-IsTyped :
    (t : ℕ) (b b1 : Bundle) (e : Bool) → update_bundle_age t b ≡ ok (b1, e) → IsTyped b → IsTyped b1
unfolding update_bundle_age
update_bundle_age-IsTyped t b b1 e q h =
    let age = age_block-ok b h in
    let out : ok (aged t age.0 b) ≡ ok (b1, e) = rw age.1 at q in
    subst (λ r. IsTyped (bundle_in b r)) out (aged-IsTyped t b age.0 h)
