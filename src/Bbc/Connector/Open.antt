-- ===== src/Bbc/Connector/Open.antt =====
-- The transmissions that a connector keeps are the ones that are still open.
use dtn7_gold.Prelude.{ℕ, ◌≡◌, refl, false, Option, none, some, List, [], ◌∷◌, Bool-cases, inl, inr}
use dtn7_gold.Prelude.Maps.{Map, update, Holds, update-Holds, update-Holds-none, update-Holds_gone}
use dtn7_gold.Bbc.Fragment.{Fragment, fail_bit}
use dtn7_gold.Bbc.Transmission.{Result, ok, err, IncomingTransmission, new_incoming, read_fragment}
use dtn7_gold.Bbc.Connector.{
  Connector, report_error, forget, deliver, finish, after_new, after_known, dispatch,
  handle_incoming_fragment, handler_read,
}

-- An entry is under its own number, and its last fragment has not come.
abbrev pub IsOpen : ℕ → IncomingTransmission → Type 0
IsOpen tid t = (t.transmission_id ≡ tid) × (t.finished ≡ false)

abbrev pub AreOpen : Map IncomingTransmission → Type 0
AreOpen = Holds IsOpen

module _ {ℓ} {B : Type ℓ} where
  deliver-AreOpen :
      (f : Fragment) (t : IncomingTransmission) (b : Option B) (c : Connector B)
      → AreOpen c.transmissions
      → AreOpen
          (deliver f t.transmission_id b (record c {
            transmissions = update c.transmissions t.transmission_id (some t);
          })).transmissions
  unfolding deliver forget report_error
  deliver-AreOpen f t none c h =
      update-Holds_gone IsOpen c.transmissions t.transmission_id (some t) h
  deliver-AreOpen f t (some b) c h =
      update-Holds_gone IsOpen c.transmissions t.transmission_id (some t) h

  module _ (decode : List ℕ → Option B) where
    finish-AreOpen :
        (f : Fragment) (t : IncomingTransmission) (c : Connector B)
        → AreOpen c.transmissions
        → AreOpen (finish decode f t c).transmissions
    unfolding finish
    finish-AreOpen f t c h = elim (Bool-cases t.finished) [
      | inl last ↦ simp last (deliver-AreOpen f t (decode t.payload) c h)
      | inr more ↦
          simp more (update-Holds IsOpen c.transmissions t.transmission_id t (refl, more) h)
    ]

    dispatch-AreOpen :
        (f : Fragment) (known : Option IncomingTransmission) (c : Connector B)
        → AreOpen c.transmissions
        → AreOpen (dispatch decode f known c).transmissions
    unfolding dispatch after_new after_known forget report_error
    dispatch-AreOpen f none c h = go (new_incoming f)
      where
        go : (r : Result IncomingTransmission) → AreOpen (after_new decode f r c).transmissions
        go (ok t) = finish-AreOpen f t c h
        go (err e) = h
    dispatch-AreOpen f (some t) c h = go (read_fragment t f)
      where
        go :
            (r : Result IncomingTransmission)
            → AreOpen (after_known decode f t.transmission_id r c).transmissions
        go (ok t') = finish-AreOpen f t' c h
        go (err e) = update-Holds-none IsOpen c.transmissions t.transmission_id h

    handle-AreOpen :
        (f : Fragment) (c : Connector B)
        → AreOpen c.transmissions
        → AreOpen (handle_incoming_fragment decode f c).transmissions
    unfolding handle_incoming_fragment
    handle-AreOpen f c h = elim (Bool-cases (fail_bit f)) [
      | inl fails ↦ rw fails h
      | inr data_fragment ↦
          rw data_fragment (dispatch-AreOpen f (c.transmissions f.transmission_id) c h)
    ]

-- Whatever fragments a connector handles, and whether they are accepted or refused and their bundles
-- decoded or not: if each transmission in its map stands under its own number and waits for its last
-- fragment, this holds afterwards too, so no finished transmission is ever kept.
pub handler_read-AreOpen {ℓ} :
    {B : Type ℓ} (decode : List ℕ → Option B) (fs : List Fragment) (c : Connector B)
    → AreOpen c.transmissions
    → AreOpen (handler_read decode fs c).transmissions
unfolding handler_read
handler_read-AreOpen decode [] c h = h
handler_read-AreOpen decode (f ∷ fs) c h =
    handler_read-AreOpen decode fs (handle_incoming_fragment decode f c)
      (handle-AreOpen decode f c h)
