-- ===== src/Base/Outcomes.antt =====
-- Computations over a world that return, and what holds of their results.
use mathlib.Core.Path.{◌≡◌, refl}
use mathlib.Core.Bool.{Bool, true, false}
use mathlib.Core.Option.{Option, none, some}
use edna.Base.Tests.{if◌then◌else◌}
use edna.Base.Worlds.{Run, done, Io, ◌>>=◌, bind_run, Ensures, Ensures-done}

-- The computation returns.
abbrev pub Returns : {A : Type 0} → Run A → Type 0
Returns {A} r = (a : A) × (r ≡ done a)

pub bind-Returns :
    {W A B : Type 0} (m : Io W A) (f : A → Io W B) (w : W)
    → Returns (m w)
    → ((a : A) (w' : W) → Returns (f a w'))
    → Returns ((m >>= f) w)
bind-Returns {W} {A} {B} m f w (p, e) k = on_result (m w) p.0 p.1 e (k p.0 p.1)
  where
    on_result :
        (r : Run (A × W)) (a : A) (w' : W)
        → r ≡ done (a, w')
        → Returns (f a w')
        → Returns (bind_run r (λ p. f p.0 p.1))
    on_result r a w' e' h = rw e' h

pub if-Returns :
    {W A : Type 0} (b : Bool) (x y : Io W A) (w : W)
    → Returns (x w)
    → Returns (y w)
    → Returns ((if b then x else y) w)
if-Returns true x y w h k = h
if-Returns false x y w h k = k

-- A computation that returns, and whose result has a property: the result.
pub Returns-Ensures :
    {W A : Type 0} (P : A → W → Type 0) (r : Run (A × W))
    → Returns r
    → Ensures P r
    → (a : A) × (w : W) × (r ≡ done (a, w)) × P a w
Returns-Ensures P r ((a, w), e) h = (a, w, e, Ensures-done P r a w h e)

-- The computation returns, and its result has the property.
abbrev pub Succeeds : {W A : Type 0} → (A → W → Type 0) → Run (A × W) → Type 0
Succeeds {W} {A} Q r = (a : A) × (w : W) × (r ≡ done (a, w)) × Q a w

pub bind-Succeeds :
    {W A B : Type 0} (Q : A → W → Type 0) (R : B → W → Type 0) (m : Io W A) (f : A → Io W B) (w : W)
    → Succeeds Q (m w)
    → ((a : A) (w' : W) → Q a w' → Succeeds R (f a w'))
    → Succeeds R ((m >>= f) w)
bind-Succeeds {W} {A} {B} Q R m f w (a, w', e, q) k = on_result (m w) e (k a w' q)
  where
    on_result :
        (r : Run (A × W))
        → r ≡ done (a, w')
        → Succeeds R (f a w')
        → Succeeds R (bind_run r (λ p. f p.0 p.1))
    on_result r e' h = rw e' h

pub if-Succeeds :
    {W A : Type 0} (Q : A → W → Type 0) (b : Bool) (x y : Io W A) (w : W)
    → Succeeds Q (x w)
    → Succeeds Q (y w)
    → Succeeds Q ((if b then x else y) w)
if-Succeeds Q true x y w h k = h
if-Succeeds Q false x y w h k = k

pub option-Succeeds :
    {W A B : Type 0} (Q : B → W → Type 0) (o : Option A) (x : Io W B) (y : A → Io W B) (w : W)
    → Succeeds Q (x w)
    → ((a : A) → Succeeds Q (y a w))
    → Succeeds Q ((elim o as (λ k. Io W B) [ none ↦ x | some a ↦ y a ]) w)
option-Succeeds Q none x y w h k = h
option-Succeeds Q (some a) x y w h k = k a

-- What each branch may take of the test.
pub branch-Succeeds :
    {W A : Type 0} (Q : A → W → Type 0) (b : Bool) (x y : Io W A) (w : W)
    → (b ≡ true → Succeeds Q (x w))
    → (b ≡ false → Succeeds Q (y w))
    → Succeeds Q ((if b then x else y) w)
branch-Succeeds Q true x y w h k = h refl
branch-Succeeds Q false x y w h k = k refl

pub mono-Succeeds :
    {W A : Type 0} (Q R : A → W → Type 0) (r : Run (A × W))
    → ((a : A) (w : W) → Q a w → R a w)
    → Succeeds Q r
    → Succeeds R r
mono-Succeeds Q R r k (a, w, e, q) = (a, w, e, k a w q)

pub with-Ensures :
    {W A : Type 0} (Q R : A → W → Type 0) (r : Run (A × W))
    → Succeeds Q r
    → Ensures R r
    → Succeeds (λ a w. Q a w × R a w) r
with-Ensures Q R r (a, w, e, q) h = (a, w, e, (q, Ensures-done R r a w h e))
