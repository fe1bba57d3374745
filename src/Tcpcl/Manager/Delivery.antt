-- ===== src/Tcpcl/Manager/Delivery.antt =====
-- A bundle that one side sends in segments, and the manager of the other side.
use dtn7_gold.Prelude.{
  ℕ, zero, suc, ◌+◌, ◌%◌, ◌≤◌, ◌<◌, ◌≡◌, refl, ap, sym, subst, ◌∙◌, Bool, false, true, not, Option,
  none, some, List, [], ◌∷◌, ◌++◌, append-nil, append_assoc, arith, map, length, take, drop, leb,
  leb→le, leb-false→lt, length-take, length-drop, take-append-drop, All, Bool-cases, inl, inr, ◌==◌,
}
use native.Mathlib.Nat.{zero-mod, mod-eq_of_lt, mod-eq-sub-mod}
use dtn7_gold.Tcpcl.Messages.Types.{DataTransmissionMessage, data_transmission}
use dtn7_gold.Tcpcl.Transfer.{
  ok, start_flags, new_outgoing, send_segments, IncomingTransfer, new_incoming,
}
use dtn7_gold.Tcpcl.Transfer.Segments.{
  out, message, end_flags, send-eof, send-short, send-full, is_end-start, is_end-end, incoming,
}
use dtn7_gold.Tcpcl.Manager.{Manager, load_or_new, handle}
use dtn7_gold.Tcpcl.Manager.Steps.{
  Outcome, Acked, acked, handle-middle, handle-end, Outcome-end, Acked-end, acked-transfer,
  acked-running, Outcome-acked, Acked-acked, Outcome-none, last_ack, handle-cons, handle-nil,
}

-- What the map has of a transfer after segments with the bytes `p`, if none of them ends it.
abbrev pub left : ℕ → List ℕ → List ℕ → Option IncomingTransfer → Option IncomingTransfer
left id acc [] current = current
left id acc (x ∷ p) current = some (incoming id (acc ++ x ∷ p) false)

left-some :
    (id : ℕ) (acc p : List ℕ)
    → left id acc p (some (incoming id acc false)) ≡ some (incoming id (acc ++ p) false)
left-some id acc [] = rw append-nil
left-some id acc (x ∷ p) = refl

abbrev pub Segments : ℕ → ℕ → List DataTransmissionMessage → Type 0
Segments id mtu = All (λ m. (m.transfer_id ≡ id) × (length m.payload ≤ mtu))

module _ {ℓ} {B : Type ℓ} (decode : List ℕ → Option B) (max_alloc mtu id : ℕ) (b : B)
    (room : 0 < mtu) (can_alloc : mtu ≤ max_alloc) where
  -- A transfer ends unless its length is a multiple of the MTU.
  abbrev pub ends : List ℕ → Bool
  ends p = not (length p % mtu == 0)

  abbrev Delivered : ℕ → ℕ → Bool → List ℕ → List ℕ → Manager B → Type ℓ
  Delivered n l start acc p m =
      (segments : List DataTransmissionMessage) × (send_segments n max_alloc mtu l (out id start p)
        ≡ (segments, ok (l + length p)))
      × Outcome id b (ends p) (left id acc p (m.in_transfers id)) m
          (handle decode (map data_transmission segments) m)
      × Acked (length acc) (length (acc ++ p)) m (handle decode (map data_transmission segments) m)
      × Segments id mtu segments

  -- A full segment, and then the rest.
  Outcome-goes_on :
      (start : Bool) (acc chunk back : List ℕ) (m : Manager B) (msgs : List DataTransmissionMessage)
      → m.stopped ≡ false
      → load_or_new id (m.in_transfers id) ≡ incoming id acc false
      → Outcome id b
          (ends back)
          (left id
            (acc ++ chunk)
            back
            ((acked decode id (start_flags start) acc chunk m).in_transfers id))
          (acked decode id (start_flags start) acc chunk m)
          (handle decode
            (map data_transmission msgs)
            (acked decode id (start_flags start) acc chunk m))
      → Outcome id b
          (ends back)
          (some (incoming id (acc ++ (chunk ++ back)) false))
          m
          (handle decode (map data_transmission (message id (start_flags start) chunk ∷ msgs)) m)
  Outcome-goes_on start acc chunk back m msgs run known h =
      rw
        (
          handle-cons decode (data_transmission (message id (start_flags start) chunk))
              (map data_transmission msgs) m run,
          handle-middle decode id (start_flags start) acc chunk m known (is_end-start start),
        )
        (Outcome-acked decode id (start_flags start) acc chunk m b (ends back) _ _ (
          subst
            (λ t. Outcome id b (ends back) t (acked decode id (start_flags start) acc chunk m) (
              handle decode (map data_transmission msgs)
                (acked decode id (start_flags start) acc chunk m)))
            (ap (left id (acc ++ chunk) back)
                (acked-transfer decode id (start_flags start) acc chunk m (is_end-start start))
              ∙ left-some id (acc ++ chunk) back
              ∙ ap (λ z. some (incoming id z false)) (append_assoc acc chunk back))
            h))

  Acked-goes_on :
      (start : Bool) (acc chunk back : List ℕ) (m : Manager B) (msgs : List DataTransmissionMessage)
      → m.stopped ≡ false
      → load_or_new id (m.in_transfers id) ≡ incoming id acc false
      → Acked
          (length (acc ++ chunk))
          (length ((acc ++ chunk) ++ back))
          (acked decode id (start_flags start) acc chunk m)
          (handle decode
            (map data_transmission msgs)
            (acked decode id (start_flags start) acc chunk m))
      → Acked
          (length acc)
          (length (acc ++ (chunk ++ back)))
          m
          (handle decode (map data_transmission (message id (start_flags start) chunk ∷ msgs)) m)
  Acked-goes_on start acc chunk back m msgs run known h =
      rw
        (
          handle-cons decode (data_transmission (message id (start_flags start) chunk))
              (map data_transmission msgs) m run,
          handle-middle decode id (start_flags start) acc chunk m known (is_end-start start),
        )
        (Acked-acked decode id (start_flags start) acc chunk m _
          (handle decode (map data_transmission msgs)
            (acked decode id (start_flags start) acc chunk m))
          (subst
            (λ z.
              Acked (length (acc ++ chunk)) (length z)
                (acked decode id (start_flags start) acc chunk m)
                (handle decode (map data_transmission msgs)
                  (acked decode id (start_flags start) acc chunk m)))
            (append_assoc acc chunk back) h))

  ends-drop : (p : List ℕ) → mtu ≤ length p → ends (drop mtu p) ≡ ends p
  ends-drop p fits = rw (length-drop mtu p) (ap (λ k. not (k == 0)) (sym (mod-eq-sub-mod fits)))

  -- The stream is over.
  arrives-empty :
      (n l : ℕ) (start : Bool) (acc : List ℕ) (m : Manager B)
      → m.stopped ≡ false
      → Delivered (suc n) l start acc [] m
  arrives-empty n l start acc m run = (
    [],
    send-eof max_alloc mtu id start can_alloc n l room ∙ ap (λ k. ([], ok k)) (omega arith),
    rw handle-nil (rw zero-mod (Outcome-none id b m run)),
    ([], rw (handle-nil, append-nil), rw append-nil (unfold last_ack in refl)),
    tt,
  )

  arrives-short :
      (n l : ℕ) (start : Bool) (acc : List ℕ) (x : ℕ) (xs : List ℕ) (m : Manager B)
      → length (x ∷ xs) < mtu
      → decode (acc ++ x ∷ xs) ≡ some b
      → m.stopped ≡ false
      → load_or_new id (m.in_transfers id) ≡ incoming id acc false
      → Delivered (suc (suc n)) l start acc (x ∷ xs) m
  arrives-short n l start acc x xs m short e run known =
      let f : ℕ = end_flags start in
      let last : ends (x ∷ xs) ≡ true = rw (mod-eq_of_lt short) (ground arith) in
      (
        message id f (x ∷ xs) ∷ [],
        send-short max_alloc mtu id start can_alloc (suc n) l x xs short
            ∙ rw (send-eof max_alloc mtu id false can_alloc n (l + length (x ∷ xs)) room),
        rw
            (
              handle-cons decode (data_transmission (message id f (x ∷ xs))) [] m run,
              handle-nil,
              handle-end decode id f acc (x ∷ xs) m known (is_end-end start),
              last,
            )
            (Outcome-end decode id f acc (x ∷ xs) m b _ e run),
        rw
            (
              handle-cons decode (data_transmission (message id f (x ∷ xs))) [] m run,
              handle-nil,
              handle-end decode id f acc (x ∷ xs) m known (is_end-end start),
            )
            (Acked-end decode id f acc (x ∷ xs) m b e),
        ((refl, omega arith), tt),
      )

  arrives :
      (n l : ℕ) (start : Bool) (acc p : List ℕ) (m : Manager B)
      → length p < n
      → decode (acc ++ p) ≡ some b
      → m.stopped ≡ false
      → load_or_new id (m.in_transfers id) ≡ incoming id acc false
      → Delivered n l start acc p m
  arrives zero l start acc p m enough e run known = absurd (omega arith)
  arrives (suc n) l start acc [] m enough e run known = arrives-empty n l start acc m run
  arrives (suc zero) l start acc (x ∷ xs) m enough e run known = absurd (omega arith)
  arrives (suc (suc n)) l start acc (x ∷ xs) m enough e run known =
      elim (Bool-cases (leb mtu (length (x ∷ xs)))) [
        | inl full ↦
            let fits : mtu ≤ length (x ∷ xs) = leb→le _ _ full in
            let f : ℕ = start_flags start in
            let chunk : List ℕ = take mtu (x ∷ xs) in
            let back : List ℕ = drop mtu (x ∷ xs) in
            let m1 : Manager B = acked decode id f acc chunk m in
            let stored : m1.in_transfers id ≡ some (incoming id (acc ++ chunk) false) =
              acked-transfer decode id f acc chunk m (is_end-start start) in
            let ih : Delivered (suc n) (l + length chunk) false (acc ++ chunk) back m1 =
              arrives (suc n) (l + length chunk) false (acc ++ chunk) back m1
                (omega (arith, length-drop mtu (x ∷ xs)))
                (rw (append_assoc acc chunk back, take-append-drop mtu (x ∷ xs)) e)
                (acked-running decode id f acc chunk m run) (rw stored) in
            let whole : acc ++ (chunk ++ back) ≡ acc ++ x ∷ xs =
              ap (λ z. acc ++ z) (take-append-drop mtu (x ∷ xs)) in
            (
              message id f chunk ∷ ih.0,
              send-full max_alloc mtu id start can_alloc (suc n) l (x ∷ xs) fits
                  ∙ ap (λ z. (message id f chunk ∷ z.0, z.1)) ih.1
                  ∙ ap (λ k. (message id f chunk ∷ ih.0, ok k))
                      (omega (arith, length-take mtu (x ∷ xs), length-drop mtu (x ∷ xs))),
              subst
                  (λ e.
                    Outcome id b e (some (incoming id (acc ++ x ∷ xs) false)) m
                      (handle decode (map data_transmission (message id f chunk ∷ ih.0)) m))
                  (ends-drop (x ∷ xs) fits)
                  (subst
                    (λ z.
                      Outcome id b (ends back) (some (incoming id z false)) m
                        (handle decode (map data_transmission (message id f chunk ∷ ih.0)) m))
                    whole (Outcome-goes_on start acc chunk back m ih.0 run known ih.2)),
              subst
                  (λ z.
                    Acked (length acc) (length z) m
                      (handle decode (map data_transmission (message id f chunk ∷ ih.0)) m))
                  whole (Acked-goes_on start acc chunk back m ih.0 run known ih.3),
              ((refl, omega (arith, length-take mtu (x ∷ xs))), ih.4),
            )
        | inr short ↦ arrives-short n l start acc x xs m (leb-false→lt _ _ short) e run known
      ]

-- A bundle that is not empty, sent with a positive MTU that can be allocated under a transfer number
-- that the running receiver does not know: one round more than the bundle has bytes is enough, every
-- segment carries the number and at most MTU bytes, and the receiver acknowledges up to the full
-- length and reports no error. Unless the length is a multiple of the MTU, it then delivers the bundle
-- once and forgets the transfer; if it is a multiple, no segment ends the transfer: the receiver
-- delivers nothing and keeps all of it, unfinished, in its map.
pub transfer_arrives {ℓ} :
    {B : Type ℓ} (decode : List ℕ → Option B) (max_alloc mtu id n : ℕ) (bytes : List ℕ) (b : B)
    (m : Manager B)
    → 0 < mtu
    → mtu ≤ max_alloc
    → 0 < length bytes
    → length bytes < n
    → decode bytes ≡ some b
    → m.stopped ≡ false
    → m.in_transfers id ≡ none
    → (segments : List DataTransmissionMessage) × (send_segments n max_alloc mtu 0
          (new_outgoing id bytes)
        ≡ (segments, ok (length bytes)))
      × Outcome id b
          (not (length bytes % mtu == 0))
          (some (incoming id bytes false))
          m
          (handle decode (map data_transmission segments) m)
      × Acked 0 (length bytes) m (handle decode (map data_transmission segments) m)
      × Segments id mtu segments
unfolding new_outgoing new_incoming
transfer_arrives decode max_alloc mtu id n [] b m room can_alloc some_data enough e run fresh =
    absurd (omega arith)
transfer_arrives decode max_alloc mtu id n (x ∷ bytes) b m room can_alloc some_data enough e run
      fresh =
    let (segments, sent, outcome, acks, shape) =
      arrives decode max_alloc mtu id b room can_alloc n 0 true [] (x ∷ bytes) m enough e run
        (rw fresh refl) in
    (segments, sent ∙ ap (λ k. (segments, ok k)) (omega arith), outcome, acks, shape)
