-- ===== src/Wire/Reads.antt =====
-- A reader that reads back what was written, whatever stands behind it, and how such readers compose.
use dtn7_gold.Prelude.{
  ℕ, ◌≡◌, refl, ◌∙◌, ap, Bool, true, List, [], ◌++◌, append-nil, append_assoc, subst,
}
use dtn7_gold.Wire.{Error, Result, ok, Reader, ◌>>=◌, ◌>>◌, pure, guard, lift, tee, from_buffer}
use dtn7_gold.Wire.Laws.{bind_step, guard_bind, lift_bind, tee-append, from_buffer-ok}

pub record Reads {ℓ} {A : Type ℓ} (m : Reader A) (bytes : List ℕ) (a : A) : Type ℓ where
  pub back : (rest : List ℕ) → m (bytes ++ rest) ≡ ok (a, rest)

pub pure-Reads {ℓ} : {A : Type ℓ} (a : A) → Reads (pure a) [] a
unfolding pure
pure-Reads a = record { back = λ rest. refl }

-- One field, and then the others.
pub bind-Reads {ℓ κ} :
    {A : Type ℓ} {B : Type κ} {m : Reader A} (f : A → Reader B) {xs ys : List ℕ} {a : A} {b : B}
    → Reads m xs a
    → Reads (f a) ys b
    → Reads (m >>= f) (xs ++ ys) b
bind-Reads {m} f {xs} {ys} {a} {b} hm hf = record {
  back = λ rest.
      ap (m >>= f) (append_assoc xs ys rest)
      ∙ bind_step m f _ a (ys ++ rest) (hm.back (ys ++ rest))
      ∙ hf.back rest;
}

-- The last field of a record.
pub last-Reads {ℓ κ} :
    {A : Type ℓ} {B : Type κ} {m : Reader A} (g : A → B) {xs : List ℕ} {a : A}
    → Reads m xs a
    → Reads (m >>= λ x. pure (g x)) xs (g a)
unfolding pure
last-Reads {m} g {a} hm = record { back = λ rest. bind_step m _ _ a rest (hm.back rest) }

pub guard-Reads {ℓ} :
    {B : Type ℓ} {t : Bool} (e : Error) (k : Unit {0} → Reader B) {xs : List ℕ} {b : B}
    → t ≡ true
    → Reads (k tt) xs b
    → Reads (guard t e >>= k) xs b
guard-Reads {t} e k {xs} h hk = record {
  back = λ rest. guard_bind t e k (xs ++ rest) h ∙ hk.back rest;
}

-- The last field, with a check of it.
pub checked-Reads {ℓ κ} :
    {A : Type ℓ} {B : Type κ} {m : Reader A} (t : A → Bool) (e : Error) (g : A → B) {xs : List ℕ}
    {a : A}
    → t a ≡ true
    → Reads m xs a
    → Reads (m >>= λ x. guard (t x) e >> pure (g x)) xs (g a)
unfolding pure
checked-Reads {m} t e g {xs} {a} h hm = record {
  back = λ rest. bind_step m _ _ a rest (hm.back rest) ∙ guard_bind (t a) e _ rest h;
}

pub lift-Reads {ℓ κ} :
    {A : Type ℓ} {B : Type κ} {r : Result A} {a : A} (f : A → Reader B) {xs : List ℕ} {b : B}
    → r ≡ ok a
    → Reads (f a) xs b
    → Reads (lift r >>= f) xs b
lift-Reads {r} {a} f {xs} h hf = record {
  back = λ rest. lift_bind r a f (xs ++ rest) h ∙ hf.back rest;
}

pub tee-Reads {ℓ} :
    {A : Type ℓ} {m : Reader A} {xs : List ℕ} {a : A} → Reads m xs a → Reads (tee m) xs (a, xs)
tee-Reads {m} {xs} {a} h = record { back = λ rest. tee-append m xs rest a (h.back rest) }

-- The bytes of a field that hold a value of their own.
pub buffer-Reads {ℓ} :
    {A : Type ℓ} {m : Reader A} {xs : List ℕ} {a : A} → Reads m xs a → Reads (from_buffer m xs) [] a
buffer-Reads {m} {xs} {a} h =
    let whole : m xs ≡ ok (a, []) =
      subst (λ (t : List ℕ). m t ≡ ok (a, [])) (append-nil xs) (h.back []) in
    record { back = λ rest. from_buffer-ok m xs a rest whole }

-- A field that leaves nothing to read.
pub end-Reads {ℓ κ} :
    {A : Type ℓ} {B : Type κ} {m : Reader A} (f : A → Reader B) {xs : List ℕ} {a : A} {b : B}
    → Reads m xs a
    → Reads (f a) [] b
    → Reads (m >>= f) xs b
end-Reads {m} f {xs} {a} hm hf = record {
  back = λ rest. bind_step m f _ a rest (hm.back rest) ∙ hf.back rest;
}
