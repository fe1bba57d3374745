-- ===== src/Bpv7/Reassembly/Nested.antt =====
-- Fragments of which one lies within an earlier one.
use dtn7_gold.Prelude.{
  ℕ, ◌+◌, ◌^◌, ◌≤◌, ◌<◌, ◌≡◌, ap, ◌∙◌, true, List, [], ◌∷◌, arith, length, ◌==◌, ==_iff,
}
use dtn7_gold.Prelude.Int.{ℤ}
use dtn7_gold.Bpv7.Bundle.{ok, err, slice_panic, Bundle}
use dtn7_gold.Bpv7.Reassembly.{
  offset_of, sort_fragments, check_gaps, check_total, prepare_reassembly, merge_fragment_payload,
  reassemble_fragments,
}
use dtn7_gold.Bpv7.Reassembly.Merge.{IsPiece, merge-step, merge-nested, check_gaps-step}

-- Three pieces of a payload, in this order when sorted: the first one is the whole of it, the second
-- one ends before the end, and the third one goes on from within the second one to the end. They pass
-- the check for gaps and the total, and then putting them together panics: the slice of the second
-- piece begins behind its end.
pub reassemble-nested :
    (now : ℤ) (payload : List ℕ) (bs : List Bundle) (f g h : Bundle) (n k : ℕ)
    → length payload < 2 ^ 63
    → sort_fragments bs ≡ f ∷ g ∷ h ∷ []
    → IsPiece payload (length payload) f
    → IsPiece payload n g
    → offset_of f ≡ 0
    → offset_of g + n < length payload
    → IsPiece payload k h
    → offset_of h ≤ offset_of g + n
    → offset_of h + k ≡ length payload
    → f.primary_block.total_data_length ≡ length payload
    → (prepare_reassembly bs ≡ ok (f ∷ g ∷ h ∷ []))
      × (reassemble_fragments now bs ≡ err slice_panic)
unfolding reassemble_fragments merge_fragment_payload
reassemble-nested now payload bs f g h n k fits sorted pf pg start short ph lo end total =
    let e0 = check_gaps-step payload 0 (length payload) f (g ∷ h ∷ []) fits pf (omega arith) in
    let e1 =
      check_gaps-step payload (offset_of f + length payload) n g (h ∷ []) fits pg (omega arith) in
    let e2 = check_gaps-step payload (offset_of g + n) k h [] fits ph lo in
    let gaps : check_gaps 0 (f ∷ g ∷ h ∷ []) ≡ ok (length payload) =
      e0 ∙ e1 ∙ e2 ∙ (unfold check_gaps in ap ok end) in
    let test : (f.primary_block.total_data_length == length payload) ≡ true =
      (==_iff _ _).1 total in
    let prepared : prepare_reassembly bs ≡ ok (f ∷ g ∷ h ∷ []) =
      unfold prepare_reassembly check_total in rw (sorted, gaps, test) in
    let merged : merge_fragment_payload (f ∷ g ∷ h ∷ []) ≡ err slice_panic =
      merge-step payload 0 (length payload) f (g ∷ h ∷ []) fits pf (omega arith) (omega arith)
      ∙ merge-nested payload (offset_of f + length payload) n g (h ∷ []) fits pg (omega arith) _
          (omega arith) in
    (prepared, rw (prepared, merged))
