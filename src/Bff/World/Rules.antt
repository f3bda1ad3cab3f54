-- ===== src/Bff/World/Rules.antt =====
-- Rules for handlers: what every step of one keeps, and how much it adds to a count, passes through
-- the sequence and the handler of exceptions.
use fernbank.Base.{ℕ, ◌+◌, ◌≤◌, ◌≡◌, arith}
use fernbank.Bff.Http.{Result, ok, throws, Exception}
use fernbank.Bff.World.{World, M, ◌>>=◌, bind_result, catch, catch_result}

-- What holds before holds after, whatever the result.
abbrev pub Preserves : (World → Type 0) → {A : Type 0} → M A → Type 0
Preserves P m = (w : World) → P w → P (m w).1

-- The count grows by n at most.
abbrev pub Adds : (World → ℕ) → ℕ → {A : Type 0} → M A → Type 0
Adds count n m = (w : World) → count (m w).1 ≤ count w + n

module _ {A B : Type 0} where
  pub after_bind :
      (P : World → Type 0) (f : A → M B) (r : Result A × World)
      → ((a : A) (w : World) → P w → P (f a w).1)
      → P r.1
      → P (bind_result f r).1
  after_bind P f (ok a, w) keeps h = keeps a w h
  after_bind P f (throws e, w) keeps h = h

  pub >>=-Preserves :
      (P : World → Type 0) (m : M A) (f : A → M B)
      → Preserves P m
      → ((a : A) → Preserves P (f a))
      → Preserves P (m >>= f)
  >>=-Preserves P m f first later w h = after_bind P f (m w) later (first w h)

  pub >>=-Adds :
      (count : World → ℕ) (j k : ℕ) (m : M A) (f : A → M B)
      → Adds count j m
      → ((a : A) → Adds count k (f a))
      → Adds count (j + k) (m >>= f)
  >>=-Adds count j k m f first later w = go (m w) (first w)
    where
      go :
          (r : Result A × World)
          → count r.1 ≤ count w + j
          → count (bind_result f r).1 ≤ count w + (j + k)
      go (ok a, w') h = omega (arith, later a w')
      go (throws e, w') h = omega arith

module _ {A : Type 0} where
  after_catch :
      (P : World → Type 0) (f : Exception → M A) (r : Result A × World)
      → ((e : Exception) (w : World) → P w → P (f e w).1)
      → P r.1
      → P (catch_result f r).1
  after_catch P f (ok a, w) keeps h = h
  after_catch P f (throws e, w) keeps h = keeps e w h

  pub catch-Preserves :
      (P : World → Type 0) (m : M A) (f : Exception → M A)
      → Preserves P m
      → ((e : Exception) → Preserves P (f e))
      → Preserves P (catch m f)
  catch-Preserves P m f first later w h = after_catch P f (m w) later (first w h)

  pub catch-Adds :
      (count : World → ℕ) (j k : ℕ) (m : M A) (f : Exception → M A)
      → Adds count j m
      → ((e : Exception) → Adds count k (f e))
      → Adds count (j + k) (catch m f)
  catch-Adds count j k m f first later w = go (m w) (first w)
    where
      go :
          (r : Result A × World)
          → count r.1 ≤ count w + j
          → count (catch_result f r).1 ≤ count w + (j + k)
      go (ok a, w') h = omega arith
      go (throws e, w') h = omega (arith, later e w')

module _ {A B : Type 0} where
  -- A step that returns is followed by the rest, in the state that it left.
  pub bind_ok :
      (f : A → M B) (r : Result A × World) {a : A} → r.0 ≡ ok a → bind_result f r ≡ f a r.1
  bind_ok f (ok b, w) e = ground arith
  bind_ok f (throws error, w) e = cc

  pub bind_throws :
      (f : A → M B) (r : Result A × World) {error : Exception}
      → r.0 ≡ throws error
      → bind_result f r ≡ (throws error, r.1)
  bind_throws f (ok b, w) e = cc
  bind_throws f (throws other, w) e = ground arith

module _ {A B : Type 0} where
  -- What the last step ensures where it returns, the sequence ensures where it returns.
  pub bind_ensures :
      (Q : World → Type 0) (f : A → M B) (r : Result A × World) (b : B)
      → ((a : A) (w : World) → (f a w).0 ≡ ok b → Q (f a w).1)
      → (bind_result f r).0 ≡ ok b
      → Q (bind_result f r).1
  bind_ensures Q f (ok a, w) b last e = last a w e
  bind_ensures Q f (throws error, w) b last e = cc
