-- ===== src/Wire/Laws.antt =====
-- Integers and byte strings that are written are read back, and no reader looks past its field.
use dtn7_gold.Prelude.{
  true, ℕ, zero, suc, ◌+◌, ◌-◌, ◌*◌, ◌/◌, ◌%◌, ◌^◌, ◌≤◌, ◌<◌, ◌≡◌, refl, sym, ap, ◌∙◌, List, [],
  ◌∷◌, ◌++◌, arith, length, length-append, take-append, take-append-drop, drop-append,
  take-append_le, drop-append_le, length-take, length-drop, le→leb, Bool,
}
use dtn7_gold.Wire.{
  Result, ok, err, Error, Reader, ◌>>=◌, pure, guard, read_full, put_uint, uint_value, read_uint,
  from_buffer, read_struct, lift, tee,
}
use mathlib.Core.List.{foldl-append}
use native.Mathlib.Nat.{mod-lt, div-add-mod, mod-eq_of_lt, add-mul-mod_self_left, pow-suc}

pub read_full-append : (xs rest : List ℕ) → read_full (length xs) (xs ++ rest) ≡ ok (xs, rest)
unfolding read_full
read_full-append xs rest = rw (
  le→leb (length xs) (length (xs ++ rest)) (omega (arith, length-append xs rest)),
  take-append xs rest,
  drop-append xs rest,
)

pub length-put_uint : (w v : ℕ) → length (put_uint w v) ≡ w
unfolding put_uint
length-put_uint zero v = refl
length-put_uint (suc w) v =
    omega (arith, length-append (put_uint w (v / 256)) (v % 256 ∷ []), length-put_uint w (v / 256))

pow_pos : (w : ℕ) → 0 < 256 ^ w
pow_pos zero = omega arith
pow_pos (suc w) = rw (pow-suc 256 w) (omega (arith, pow_pos w))

digits_join : (v p : ℕ) → 0 < p → v / 256 % p * 256 + v % 256 ≡ v % (p * 256)
digits_join v p h =
    let q : ℕ = v / 256 / p in
    let r : ℕ = v / 256 % p * 256 + v % 256 in
    let small : v / 256 % p < p = mod-lt (v / 256) h in
    let low : r < p * 256 = omega arith in
    let parts : p * q + v / 256 % p ≡ v / 256 = div-add-mod (v / 256) p in
    let whole : r + p * 256 * q ≡ v = omega (arith, ap (λ (t : ℕ). t * 256) parts) in
    sym (mod-eq_of_lt low)
    ∙ sym (add-mul-mod_self_left r (p * 256) q)
    ∙ ap (λ (t : ℕ). t % (p * 256)) whole

-- What is read is the integer cut to its width.
pub uint_value-put : (w v : ℕ) → uint_value (put_uint w v) ≡ v % 256 ^ w
unfolding put_uint uint_value
uint_value-put zero v = omega arith
uint_value-put (suc w) v = rw (pow-suc 256 w) (
    ground (
      arith,
      foldl-append (λ (acc : ℕ) (b : ℕ). acc * 256 + b) 0 (put_uint w (v / 256)) (v % 256 ∷ []),
      uint_value-put w (v / 256),
      digits_join v (256 ^ w) (pow_pos w),
    ))

pub read_uint-put :
    (w v : ℕ) (rest : List ℕ) → read_uint w (put_uint w v ++ rest) ≡ ok (v % 256 ^ w, rest)
unfolding read_uint pure ◌>>=◌
read_uint-put w v rest =
    let e : read_full w (put_uint w v ++ rest) ≡ ok (put_uint w v, rest) =
      rw (length-put_uint w v) at (read_full-append (put_uint w v) rest) in
    rw (e, ◌>>=◌, uint_value-put w v)

-- A field that was read is the front of the input.
pub read_full-front :
    (n : ℕ) (bs xs rest : List ℕ)
    → read_full n bs ≡ ok (xs, rest)
    → (bs ≡ xs ++ rest) × (length xs ≡ n)
unfolding read_full
read_full-front n bs xs rest h = ground (arith, take-append-drop n bs, length-take n bs)

-- A reader that succeeds does the same with more bytes behind its input, and takes at most all of it.
pub record IsReader {ℓ} {A : Type ℓ} (p : List ℕ → Result (A × List ℕ)) : Type ℓ where
  pub stable :
      (bs more : List ℕ) (a : A) (rest : List ℕ)
      → p bs ≡ ok (a, rest)
      → p (bs ++ more) ≡ ok (a, rest ++ more)
  pub shrinks :
      (bs : List ℕ) (a : A) (rest : List ℕ) → p bs ≡ ok (a, rest) → length rest ≤ length bs

pub read_full-IsReader : (n : ℕ) → IsReader (read_full n)
unfolding read_full
read_full-IsReader n = record {
  stable = λ bs more a rest h.
      ground (arith, length-append bs more, take-append_le n bs more, drop-append_le n bs more);
  shrinks = λ bs a rest h. ground (arith, length-drop n bs);
}

pub pure-IsReader {ℓ} : {A : Type ℓ} (a : A) → IsReader (pure a)
unfolding pure
pure-IsReader a = record {
  stable = λ bs more a' rest h. ground arith;
  shrinks = λ bs a' rest h. ground arith;
}

pub guard-IsReader : (b : Bool) (e : Error) → IsReader (guard b e)
unfolding guard
guard-IsReader b e = record {
  stable = λ bs more a rest h. ground arith;
  shrinks = λ bs a rest h. ground arith;
}

-- What a bind that succeeds has done.
pub bind-ok {ℓ κ} :
    {A : Type ℓ} {B : Type κ} (m : Reader A) (f : A → Reader B) (bs : List ℕ) (b : B)
    (rest : List ℕ)
    → (m >>= f) bs ≡ ok (b, rest)
    → (a : A) × (middle : List ℕ) × (m bs ≡ ok (a, middle)) × (f a middle ≡ ok (b, rest))
unfolding ◌>>=◌
bind-ok {A} m f bs b rest h = go (m bs) refl
  where
    go :
        (r : Result (A × List ℕ))
        → m bs ≡ r
        → (a : A) × (middle : List ℕ) × (m bs ≡ ok (a, middle)) × (f a middle ≡ ok (b, rest))
    go (ok (a, middle)) e = (a, middle, e, ground arith)
    go (err x) e = ground arith

pub bind_step {ℓ κ} :
    {A : Type ℓ} {B : Type κ} (m : Reader A) (f : A → Reader B) (bs : List ℕ) (a : A)
    (rest : List ℕ)
    → m bs ≡ ok (a, rest)
    → (m >>= f) bs ≡ f a rest
unfolding ◌>>=◌
bind_step m f bs a rest h = rw (h, ◌>>=◌)

pub >>=-IsReader {ℓ κ} :
    {A : Type ℓ} {B : Type κ} (m : Reader A) (f : A → Reader B)
    → IsReader m
    → ((a : A) → IsReader (f a))
    → IsReader (m >>= f)
>>=-IsReader m f hm hf = record {
  stable = λ bs more b rest h.
      let (a, middle, e, e') = bind-ok m f bs b rest h in
      bind_step m f (bs ++ more) a (middle ++ more) (hm.stable bs more a middle e)
      ∙ (hf a).stable middle more b rest e';
  shrinks = λ bs b rest h.
      let (a, middle, e, e') = bind-ok m f bs b rest h in
      omega (arith, hm.shrinks bs a middle e, (hf a).shrinks middle b rest e');
}

pub read_uint-IsReader : (w : ℕ) → IsReader (read_uint w)
unfolding read_uint
read_uint-IsReader w =
    >>=-IsReader (read_full w) _ (read_full-IsReader w) (λ field. pure-IsReader (uint_value field))

module _ {ℓ} {A : Type ℓ} (fields : Reader A) (buffer : List ℕ) where
  from_buffer-IsReader : IsReader (from_buffer fields buffer)
  unfolding from_buffer
  from_buffer-IsReader = record {
    stable = λ bs more a rest h. ground arith;
    shrinks = λ bs a rest h. ground arith;
  }

  pub from_buffer-ok :
      (a : A) (rest : List ℕ)
      → fields buffer ≡ ok (a, [])
      → from_buffer fields buffer rest ≡ ok (a, rest)
  unfolding from_buffer
  from_buffer-ok a rest h = rw (h, from_buffer)

pub read_struct-IsReader {ℓ} :
    {A : Type ℓ} (n : ℕ) (fields : Reader A) → IsReader (read_struct n fields)
unfolding read_struct
read_struct-IsReader n fields =
    >>=-IsReader (read_full n) _ (read_full-IsReader n) (from_buffer-IsReader fields)

pub read_struct-append {ℓ} :
    {A : Type ℓ} (fields : Reader A) (n : ℕ) (buffer rest : List ℕ) (a : A)
    → length buffer ≡ n
    → fields buffer ≡ ok (a, [])
    → read_struct n fields (buffer ++ rest) ≡ ok (a, rest)
unfolding read_struct
read_struct-append fields n buffer rest a hn h =
    let e : read_full n (buffer ++ rest) ≡ ok (buffer, rest) =
      rw hn at (read_full-append buffer rest) in
    bind_step (read_full n) _ (buffer ++ rest) buffer rest e ∙ from_buffer-ok fields buffer a rest h

pub guard_bind {ℓ} :
    {B : Type ℓ} (b : Bool) (e : Error) (k : Unit {0} → Reader B) (bs : List ℕ)
    → b ≡ true
    → (guard b e >>= k) bs ≡ k tt bs
guard_bind b e k bs h = bind_step (guard b e) k bs tt bs (unfold guard in rw h)

pub lift_bind {ℓ κ} :
    {A : Type ℓ} {B : Type κ} (r : Result A) (a : A) (f : A → Reader B) (bs : List ℕ)
    → r ≡ ok a
    → (lift r >>= f) bs ≡ f a bs
unfolding lift
lift_bind r a f bs h = bind_step (lift r) f bs a bs (rw h)

-- A reader that stops before `rest` has read what stands before it.
pub tee-append {ℓ} :
    {A : Type ℓ} (m : Reader A) (bytes rest : List ℕ) (a : A)
    → m (bytes ++ rest) ≡ ok (a, rest)
    → tee m (bytes ++ rest) ≡ ok ((a, bytes), rest)
unfolding tee
tee-append m bytes rest a h =
    let size : length (bytes ++ rest) - length rest ≡ length bytes =
      omega (arith, length-append bytes rest) in
    rw (h, size, take-append bytes rest, tee)
