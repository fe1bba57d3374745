-- ===== src/Cla/Manager/Elements.antt =====
-- An element that is active if and only if its handler runs, and the lists of such elements.
use dtn7_gold.Prelude.{
  ℕ, zero, suc, ◌≡◌, refl, subst, arith, Bool, true, false, List, [], ◌∷◌, All, some, ◌==◌,
  Bool-cases, inl, inr, if◌then◌else◌,
}
use dtn7_gold.Prelude.Lists.{All-append}
use dtn7_gold.Prelude.Int.{ℤ, pos, negsuc}
use dtn7_gold.Cla.Manager.{
  Convergence, Start, started, failed, Elem, is_negative, is_active, activate, load, delete,
  store_elem,
}

abbrev pub IsTemporary : Convergence → Type 0
IsTemporary conv = conv.is_permanent ≡ false

abbrev pub IsSound : Elem → Type 0
IsSound ce = IsTemporary ce.conv × (ce.handling ≡ is_negative ce.ttl)

abbrev pub AreSound : List Elem → Type 0
AreSound = All IsSound

pub activate-IsSound : (start : Start) (ce : Elem) → IsSound ce → IsSound (activate start ce).elem
unfolding activate is_active
activate-IsSound start ce h = go ce.ttl start h.1
  where
    go :
        (ttl : ℤ) (start : Start)
        → ce.handling ≡ is_negative ttl
        → IsSound (activate start (record ce { ttl = ttl })).elem
    go (negsuc n) s e = (h.0, e)
    go (pos zero) s e = simp h.0 (refl, e)
    go (pos (suc n)) started e = (h.0, refl)
    go (pos (suc n)) (failed true) e = (h.0, e)
    go (pos (suc n)) (failed false) e = (h.0, e)

pub load-IsSound :
    (address : ℕ) (ces : List Elem) (ce : Elem)
    → AreSound ces
    → load address ces ≡ some ce
    → IsSound ce
load-IsSound address [] ce h e = cc
load-IsSound address (x ∷ ces) ce h e = elim (Bool-cases (x.conv.address == address)) [
  | inl here ↦ let same : x ≡ ce = ground (arith, rw here at e) in subst IsSound same h.0
  | inr there ↦ load-IsSound address ces ce h.1 (rw there at e)
]

pub delete-AreSound : (address : ℕ) (ces : List Elem) → AreSound ces → AreSound (delete address ces)
delete-AreSound address [] h = tt
delete-AreSound address (x ∷ ces) h = elim (Bool-cases (x.conv.address == address)) [
  | inl here ↦ rw here (delete-AreSound address ces h.1)
  | inr there ↦ rw there (h.0, delete-AreSound address ces h.1)
]

pub store_elem-AreSound :
    (ce : Elem) (ces : List Elem) → IsSound ce → AreSound ces → AreSound (store_elem ce ces)
store_elem-AreSound ce ces h hs =
    All-append IsSound (delete ce.conv.address ces) (ce ∷ []) (delete-AreSound _ ces hs) (h, tt)

pub if-AreSound :
    (t : Bool) (xs ys : List Elem) → AreSound xs → AreSound ys → AreSound (if t then xs else ys)
if-AreSound true xs ys hx hy = hx
if-AreSound false xs ys hx hy = hy
