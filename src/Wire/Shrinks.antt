-- ===== src/Wire/Shrinks.antt =====
-- Readers that leave no more bytes than there were.
use dtn7_gold.Prelude.{ℕ, ◌≤◌, ◌<◌, ◌≡◌, refl, arith, List, length, Bool}
use dtn7_gold.Wire.{Error, Result, ok, err, Reader, ◌>>=◌, pure, guard, lift, tee, from_buffer}
use dtn7_gold.Wire.Laws.{bind-ok}

pub record Shrinks {ℓ} {A : Type ℓ} (m : Reader A) : Type ℓ where
  pub shrinks :
      (bs : List ℕ) (a : A) (rest : List ℕ) → m bs ≡ ok (a, rest) → length rest ≤ length bs

pub bind-Shrinks {ℓ κ} :
    {A : Type ℓ} {B : Type κ} {m : Reader A} (f : A → Reader B)
    → Shrinks m
    → ((a : A) → Shrinks (f a))
    → Shrinks (m >>= f)
bind-Shrinks {m} f hm hf = record {
  shrinks = λ bs b rest h.
      let (a, middle, e, e') = bind-ok m f bs b rest h in
      omega (arith, hm.shrinks bs a middle e, (hf a).shrinks middle b rest e');
}

pub pure-Shrinks {ℓ} : {A : Type ℓ} (a : A) → Shrinks (pure a)
unfolding pure
pure-Shrinks a = record { shrinks = λ bs a' rest h. ground arith }

pub guard-Shrinks : (t : Bool) (e : Error) → Shrinks (guard t e)
unfolding guard
guard-Shrinks t e = record { shrinks = λ bs a rest h. ground arith }

pub lift-Shrinks {ℓ} : {A : Type ℓ} (r : Result A) → Shrinks (lift r)
unfolding lift
lift-Shrinks (ok a) = record { shrinks = λ bs a' rest h. ground arith }
lift-Shrinks (err e) = record { shrinks = λ bs a' rest h. ground arith }

pub from_buffer-Shrinks {ℓ} :
    {A : Type ℓ} (m : Reader A) (bytes : List ℕ) → Shrinks (from_buffer m bytes)
unfolding from_buffer
from_buffer-Shrinks m bytes = record { shrinks = λ bs a rest h. ground arith }

pub tee-Shrinks {ℓ} : {A : Type ℓ} {m : Reader A} → Shrinks m → Shrinks (tee m)
unfolding tee
tee-Shrinks {A} {m} hm = record { shrinks = λ bs a rest h. go bs a rest (m bs) refl h }
  where
    go :
        (bs : List ℕ) (a : A × List ℕ) (rest : List ℕ) (r : Result (A × List ℕ))
        → m bs ≡ r
        → tee m bs ≡ ok (a, rest)
        → length rest ≤ length bs
    go bs a rest (ok (x, left)) e h = ground (arith, hm.shrinks bs x left e, rw (tee, e) at h)
    go bs a rest (err x) e h = ground (arith, rw (tee, e) at h)

-- A first field that takes something.
pub bind-consumes {ℓ κ} :
    {A : Type ℓ} {B : Type κ} (m : Reader A) (f : A → Reader B) (bs : List ℕ) (b : B)
    (rest : List ℕ)
    → ((a : A) (left : List ℕ) → m bs ≡ ok (a, left) → length left < length bs)
    → ((a : A) → Shrinks (f a))
    → (m >>= f) bs ≡ ok (b, rest)
    → length rest < length bs
bind-consumes m f bs b rest hm hf h =
    let (a, middle, e, e') = bind-ok m f bs b rest h in
    omega (arith, hm a middle e, (hf a).shrinks middle b rest e')
