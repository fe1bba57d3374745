-- ===== src/Bpv7/Hops.antt =====
-- pkg/bpv7/extension_block_hop_count.go and extension_block_bundle_age.go: counting the hops and the time
-- of a bundle. The count of hops is a uint8.
use dtn7_gold.Prelude.{
  ℕ, zero, suc, ◌+◌, ◌-◌, ◌%◌, ◌^◌, ◌<◌, ◌≡◌, refl, ◌∙◌, Bool, false, arith, ltb, ap,
}
use dtn7_gold.Bpv7.Blocks.{HopCountBlock, is_exceeded}

unfoldable pub new_hop_count_block : ℕ → HopCountBlock
new_hop_count_block limit = record { limit = limit; count = 0 }

-- `HopCountBlock.Increment`; the Boolean that it returns is `is_exceeded` of the new block.
unfoldable pub increment : HopCountBlock → HopCountBlock × Bool
unfolding is_exceeded
increment h = let h' = record h { count = (h.count + 1) % 2 ^ 8 } in (h', is_exceeded h')

-- `Decrement`.
unfoldable pub decrement : HopCountBlock → HopCountBlock
decrement h = record h { count = (h.count + (2 ^ 8 - 1)) % 2 ^ 8 }

-- `BundleAgeBlock.Increment` (extension_block_bundle_age.go), of a uint64.
unfoldable pub increment_age : ℕ → ℕ → ℕ
increment_age age offset = (age + offset) % 2 ^ 64

pub decrement-increment : (h : HopCountBlock) → h.count < 256 → decrement (increment h).0 ≡ h
unfolding increment decrement
decrement-increment h small =
    let back : ((h.count + 1) % 256 + 255) % 256 ≡ h.count = omega arith in
    ap (λ c. record h { count = c }) back

-- The block of a bundle that is forwarded some times.
unfoldable pub hops : ℕ → HopCountBlock → HopCountBlock
unfolding increment
hops zero h = h
hops (suc n) h = hops n (increment h).0

hops-count : (n : ℕ) (h : HopCountBlock) → h.count < 256 → (hops n h).count ≡ (h.count + n) % 256
unfolding hops increment
hops-count zero h small = omega arith
hops-count (suc n) h small = hops-count n (increment h).0 (omega arith) ∙ omega arith

hops-limit : (n : ℕ) (h : HopCountBlock) → (hops n h).limit ≡ h.limit
unfolding hops increment
hops-limit zero h = refl
hops-limit (suc n) h = hops-limit n (increment h).0

-- After any number of hops from a new hop count block, one more increment reports that the limit is exceeded
-- exactly if the number of hops, with this one and modulo 256, is above the limit.
pub increment-exceeded :
    (limit n : ℕ) → (increment (hops n (new_hop_count_block limit))).1 ≡ ltb limit ((n + 1) % 256)
unfolding increment is_exceeded new_hop_count_block
increment-exceeded limit n =
    let h : HopCountBlock = new_hop_count_block limit in
    let counted : (hops n h).count ≡ (0 + n) % 256 = hops-count n h (omega arith) in
    let next : ((hops n h).count + 1) % 256 ≡ (n + 1) % 256 = omega (arith, counted) in
    ap (λ l. ltb l (((hops n h).count + 1) % 256)) (hops-limit n h) ∙ ap (λ m. ltb limit m) next

-- With the limit 255 no increment, after any number of hops, reports that the limit is exceeded.
increment-never_exceeded : (n : ℕ) → (increment (hops n (new_hop_count_block 255))).1 ≡ false
increment-never_exceeded n =
    let small : (n + 1) % 256 < 256 = omega arith in increment-exceeded 255 n ∙ grind (arith, small)
