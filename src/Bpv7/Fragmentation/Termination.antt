-- ===== src/Bpv7/Fragmentation/Termination.antt =====
-- What a round of `Fragment` does, and that the rounds come to an end.
use dtn7_gold.Prelude.{
  ℕ, zero, suc, ◌+◌, ◌-◌, ◌≤◌, ◌<◌, min, ◌≡◌, refl, sym, subst, ◌∙◌, true, false, List, [], ◌∷◌,
  arith, length, Option, none, some, leb, ltb, Bool-cases, inl, inr, leb-false→lt,
}
use dtn7_gold.Prelude.Int.{ℤ}
use dtn7_gold.Bpv7.Blocks.{PrimaryBlock, CanonicalBlock}
use dtn7_gold.Bpv7.Bundle.{Result, ok, err, Error, ◌>>=◌, Bundle}
use dtn7_gold.Bpv7.Reassembly.{checked}
use dtn7_gold.Bpv7.Cbor.{Codec}
use dtn7_gold.Bpv7.Cbor.Blocks.{marshal_primary}
use dtn7_gold.Bpv7.Fragmentation.{
  size_of, fragment_block, fragment_primary_block, slice, fragment_bundle, checked_fragment,
  overhead_of, next_fragment, before, fragment_loop, whole_if_single, unless_single,
  prepare_fragments, fragment,
}

module _ (c : Codec) (now : ℤ) (mtu : ℕ) (b : Bundle) (pb : CanonicalBlock) (bytes : List ℕ)
    (lens : ℕ × ℕ) where
  -- The fragment of a round, whose overhead and bytes fill the MTU.
  pub record IsRound (i : ℕ) (f : Bundle) (next : ℕ) : Type 0 where
    pub primary_len : ℕ
    pub primary_size :
        size_of (marshal_primary c (fragment_block b.primary_block i (length bytes)))
        ≡ ok primary_len
    pub fills : overhead_of primary_len lens i + (next - i) ≡ mtu
    pub advances : i < next
    pub made :
        f
        ≡ fragment_bundle
            (fragment_block b.primary_block i (length bytes))
            b
            pb
            i
            (slice i (min next (length bytes)) bytes)

  checked_fragment-ok :
      (primary : PrimaryBlock) (i next : ℕ) (f : Bundle) (next' : ℕ)
      → checked_fragment now primary b pb bytes i next ≡ ok (f, next')
      → (f ≡ fragment_bundle primary b pb i (slice i (min next (length bytes)) bytes))
        × (next' ≡ next)
  unfolding checked_fragment
  checked_fragment-ok primary i next f next' h =
      let made : Bundle =
        fragment_bundle primary b pb i (slice i (min next (length bytes)) bytes) in
      go made (checked now made) h
    where
      go :
          (made : Bundle) (r : Result Bundle)
          → ◌>>=◌ {B = Bundle × ℕ} r (λ _. ok (made, next)) ≡ ok (f, next')
          → (f ≡ made) × (next' ≡ next)
      go made (ok b') h' = (ground arith, ground arith)
      go made (err e) h' = ground arith

  pub next_fragment-IsRound :
      (i : ℕ) (f : Bundle) (next : ℕ)
      → next_fragment c now mtu b pb bytes lens i ≡ ok (f, next)
      → IsRound i f next
  unfolding next_fragment fragment_primary_block
  next_fragment-IsRound i f next h =
      go (size_of (marshal_primary c (fragment_block b.primary_block i (length bytes)))) refl h
    where
      go :
          (r : Result ℕ)
          → size_of (marshal_primary c (fragment_block b.primary_block i (length bytes))) ≡ r
          → next_fragment c now mtu b pb bytes lens i ≡ ok (f, next)
          → IsRound i f next
      go (err e) h' e' = cc (rw (next_fragment, h') at e')
      go (ok size) h' e' = elim (Bool-cases (leb mtu (overhead_of size lens i))) [
        | inl large ↦ cc (rw (next_fragment, h', large) at e')
        | inr fits ↦
            let over : ℕ = overhead_of size lens i in
            let primary : PrimaryBlock = fragment_block b.primary_block i (length bytes) in
            let (made, same) =
              checked_fragment-ok primary i (i + (mtu - over)) f next
                (rw (next_fragment, h', fits) at e') in
            let room : over < mtu = leb-false→lt mtu over fits in
            record {
              primary_len = size;
              primary_size = h';
              fills = omega (arith, same);
              advances = omega (arith, same);
              made =
                  subst
                    (λ (n : ℕ).
                      f ≡ fragment_bundle primary b pb i (slice i (min n (length bytes)) bytes))
                    (sym same) made;
            }
      ]

  abbrev loop : ℕ → ℕ → Option (Result (List Bundle))
  loop = fragment_loop c now mtu b pb bytes lens

  pub loop-end : (rounds i : ℕ) → ltb i (length bytes) ≡ false → loop rounds i ≡ some (ok [])
  unfolding fragment_loop
  loop-end zero i h = rw (fragment_loop, h)
  loop-end (suc rounds) i h = rw (fragment_loop, h)

  pub loop-none : (i : ℕ) → ltb i (length bytes) ≡ true → loop zero i ≡ none
  unfolding fragment_loop
  loop-none i h = rw (fragment_loop, h)

  pub loop-err :
      (rounds i : ℕ) (e : Error)
      → ltb i (length bytes) ≡ true
      → next_fragment c now mtu b pb bytes lens i ≡ err e
      → loop (suc rounds) i ≡ some (err e)
  unfolding fragment_loop
  loop-err rounds i e h h' = rw (fragment_loop, h, h')

  pub loop-ok :
      (rounds i : ℕ) (f : Bundle) (next : ℕ)
      → ltb i (length bytes) ≡ true
      → next_fragment c now mtu b pb bytes lens i ≡ ok (f, next)
      → loop (suc rounds) i ≡ before f (loop rounds next)
  unfolding fragment_loop
  loop-ok rounds i f next h h' = rw (fragment_loop, h, h')

  before-some :
      (f : Bundle) (o : Option (Result (List Bundle))) (r : Result (List Bundle))
      → o ≡ some r
      → (r' : Result (List Bundle)) × (before f o ≡ some r')
  before-some f o (ok fs) h = (ok (f ∷ fs), rw h)
  before-some f o (err e) h = (err e, rw h)

  loop_terminates :
      (rounds i : ℕ)
      → length bytes ≤ rounds + i
      → (r : Result (List Bundle)) × (loop rounds i ≡ some r)
  loop_terminates zero i h = (ok [], loop-end zero i (ground arith))
  loop_terminates (suc rounds) i h = elim (Bool-cases (ltb i (length bytes))) [
    | inr over ↦ (ok [], loop-end (suc rounds) i over)
    | inl goes_on ↦
        go goes_on (λ next small. loop_terminates rounds next small)
          (next_fragment c now mtu b pb bytes lens i) refl
  ]
    where
      go :
          ltb i (length bytes) ≡ true
          → ((next : ℕ)
              → length bytes ≤ rounds + next
              → (r : Result (List Bundle)) × (loop rounds next ≡ some r))
          → (r : Result (Bundle × ℕ)) → next_fragment c now mtu b pb bytes lens i ≡ r
          → (r' : Result (List Bundle)) × (loop (suc rounds) i ≡ some r')
      go goes_on later (err e) h' = (err e, loop-err rounds i e goes_on h')
      go goes_on later (ok (f, next)) h' =
          let round : IsRound i f next = next_fragment-IsRound i f next h' in
          let (r, e) = later next (omega (arith, round.advances)) in
          let (r', e') = before-some f (loop rounds next) r e in
          (r', loop-ok rounds i f next goes_on h' ∙ e')

whole_if_single-some :
    (b : Bundle) (o : Option (Result (List Bundle))) (r : Result (List Bundle))
    → o ≡ some r
    → (r' : Result (List Bundle)) × (whole_if_single b o ≡ some r')
whole_if_single-some b o (ok fs) h = (ok (unless_single b fs), rw h)
whole_if_single-some b o (err e) h = (err e, rw h)

-- For every bundle and MTU, the rounds that `fragment` gives its loop are enough: there are fragments or an
-- error, whatever the codec writes.
pub fragment-terminates :
    (c : Codec) (now : ℤ) (mtu : ℕ) (b : Bundle)
    → (r : Result (List Bundle)) × (fragment c now mtu b ≡ some r)
unfolding fragment
fragment-terminates c now mtu b = go (prepare_fragments c mtu b) refl
  where
    go :
        (p : Result (CanonicalBlock × (List ℕ × (ℕ × ℕ))))
        → prepare_fragments c mtu b ≡ p
        → (r : Result (List Bundle)) × (fragment c now mtu b ≡ some r)
    go (err e) h = (err e, rw (fragment, h))
    go (ok (pb, (bytes, lens))) h =
        let (r, e) = loop_terminates c now mtu b pb bytes lens (length bytes) 0 (omega arith) in
        let (r', e') = whole_if_single-some b _ r e in (r', rw (fragment, h, e'))
